-- ===== src/Runtime/Metrics/Updates.antt =====
-- src/runtime/metrics.rs: the updates that executions make of the shared metrics, each of one family
-- and atomic, in whatever order the executions come to them.
use ave_contract_sdk.Base.{
  ℕ, ◌+◌, ◌≡◌, refl, Bool, false, List, [], ◌∷◌, if◌then◌else◌, Bool-cases, inl, inr, arith,
}
use ave_contract_sdk.Base.Text.{String, ◌=s=◌}
use ave_contract_sdk.Runtime.Metrics.{Prometheus, ContractMetrics}

pub data Update (Float : Type 0) : Type 0 where
  executed : (result : String) → Update Float
  took : (result : String) (duration : Float) → Update Float
  consumed : (result : String) (fuel : Float) → Update Float
  exhausted : Update Float
  peaked : (result : String) (bytes : Float) → Update Float

pub data Family : Type 0 where
  executions seconds fuel fuel_exhausted memory : Family

-- The family and the label that an update counts under.
abbrev pub counts : {Float : Type 0} → Family → String → Update Float → Bool
counts executions k (executed l) = l =s= k
counts seconds k (took l x) = l =s= k
counts fuel k (consumed l x) = l =s= k
counts fuel_exhausted k exhausted = "error" =s= k
counts memory k (peaked l x) = l =s= k
counts _ k _ = false

abbrev pub count_of : {Float : Type 0} → Family → String → List (Update Float) → ℕ
count_of f k [] = 0
count_of f k (u ∷ us) = if counts f k u then count_of f k us + 1 else count_of f k us

-- Two lists as one, each in its order.
pub data Merge {A : Type 0} : List A → List A → List A → Type 0 where
  done : Merge [] [] []
  from_first : {x : A} {xs ys zs : List A} → Merge xs ys zs → Merge (x ∷ xs) ys (x ∷ zs)
  from_others : {y : A} {xs ys zs : List A} → Merge xs ys zs → Merge xs (y ∷ ys) (y ∷ zs)

-- The steps of any number of threads, each in its order.
pub data Interleaved {A : Type 0} : List (List A) → List A → Type 0 where
  no_threads : Interleaved [] []
  thread :
      {xs ys zs : List A} {xss : List (List A)}
      → Interleaved xss ys
      → Merge xs ys zs
      → Interleaved (xs ∷ xss) zs

abbrev pub count_all : {Float : Type 0} → Family → String → List (List (Update Float)) → ℕ
count_all f k [] = 0
count_all f k (us ∷ uss) = count_of f k us + count_all f k uss

module _ {Float : Type 0} (f : Family) (k : String) where
  count_of-Merge :
      {xs ys zs : List (Update Float)}
      → Merge xs ys zs
      → count_of f k zs ≡ count_of f k xs + count_of f k ys
  count_of-Merge done = refl
  count_of-Merge (from_first {x} m) = elim (Bool-cases (counts f k x)) [
    | inl e ↦ rw e (omega (arith, count_of-Merge m))
    | inr e ↦ rw e (omega (arith, count_of-Merge m))
  ]
  count_of-Merge (from_others {y} m) = elim (Bool-cases (counts f k y)) [
    | inl e ↦ rw e (omega (arith, count_of-Merge m))
    | inr e ↦ rw e (omega (arith, count_of-Merge m))
  ]

  pub count_of-Interleaved :
      {uss : List (List (Update Float))} {zs : List (Update Float)}
      → Interleaved uss zs
      → count_of f k zs ≡ count_all f k uss
  count_of-Interleaved no_threads = refl
  count_of-Interleaved (thread i m) = omega (arith, count_of-Merge m, count_of-Interleaved i)

module _ (p : Prometheus) where
  abbrev pub update : Update p.Float → ContractMetrics p → ContractMetrics p
  update (executed l) m = record m { contract_executions = p.inc l m.contract_executions }
  update (took l x) m = record m {
    contract_execution_seconds = p.observe l x m.contract_execution_seconds;
  }
  update (consumed l x) m = record m {
    contract_fuel_consumed = p.observe l x m.contract_fuel_consumed;
  }
  update exhausted m = record m {
    contract_fuel_exhausted_total = p.inc "error" m.contract_fuel_exhausted_total;
  }
  update (peaked l x) m = record m {
    contract_memory_peak_bytes = p.observe l x m.contract_memory_peak_bytes;
  }

  abbrev pub update_all : List (Update p.Float) → ContractMetrics p → ContractMetrics p
  update_all [] m = m
  update_all (u ∷ us) m = update_all us (update u m)

  -- What a family shows under a label: its counter, or how many observations it has.
  abbrev pub reading : Family → String → ContractMetrics p → ℕ
  reading executions k m = p.count m.contract_executions k
  reading seconds k m = p.observations m.contract_execution_seconds k
  reading fuel k m = p.observations m.contract_fuel_consumed k
  reading fuel_exhausted k m = p.count m.contract_fuel_exhausted_total k
  reading memory k m = p.observations m.contract_memory_peak_bytes k

  reading-update :
      (f : Family) (k : String) (u : Update p.Float) (m : ContractMetrics p)
      → reading f k (update u m) ≡ (if counts f k u then reading f k m + 1 else reading f k m)
  reading-update executions k (executed l) m = p.count-inc m.contract_executions l k
  reading-update fuel_exhausted k exhausted m =
      p.count-inc m.contract_fuel_exhausted_total "error" k
  reading-update seconds k (took l x) m = p.observations-observe m.contract_execution_seconds l x k
  reading-update fuel k (consumed l x) m = p.observations-observe m.contract_fuel_consumed l x k
  reading-update memory k (peaked l x) m = p.observations-observe m.contract_memory_peak_bytes l x k
  reading-update _ k _ m = refl

  pub reading-update_all :
      (f : Family) (k : String) (us : List (Update p.Float)) (m : ContractMetrics p)
      → reading f k (update_all us m) ≡ reading f k m + count_of f k us
  reading-update_all f k [] m = omega arith
  reading-update_all f k (u ∷ us) m = elim (Bool-cases (counts f k u)) [
    | inl e ↦
        let step : reading f k (update u m) ≡ reading f k m + 1 =
          rw e at (reading-update f k u m) in
        rw e (omega (arith, step, reading-update_all f k us (update u m)))
    | inr e ↦
        let step : reading f k (update u m) ≡ reading f k m = rw e at (reading-update f k u m) in
        rw e (omega (arith, step, reading-update_all f k us (update u m)))
  ]
