-- ===== src/Runtime/Execute/Session.antt =====
-- A sequence of events that one `ContractRuntime` executes, its metrics carried from each to the next.
use ave_contract_sdk.Base.{
  suc, ap, Bool-cases, ℕ, ◌+◌, ◌≡◌, refl, Bool, true, false, ◌&&◌, Option, some, List, [], ◌∷◌,
  length, arith, if◌then◌else◌, Option-cases, inl, inr,
}
use ave_contract_sdk.Base.Text.{String, ◌=s=◌}
use ave_contract_sdk.Base.Result.{Result, ok, err}
use ave_contract_sdk.Sdk.Wire.{Wire, Json}
use ave_contract_sdk.Runtime.Error.{RuntimeError}
use ave_contract_sdk.Runtime.Config.{WasmLimits}
use ave_contract_sdk.Runtime.Engine.{Engine}
use ave_contract_sdk.Runtime.Metrics.{Prometheus, ContractMetrics, new}
use ave_contract_sdk.Runtime.Execute.{ExecutionResult, ExecutionStats, result_label, execute}
use ave_contract_sdk.Runtime.Execute.Outcomes.{Counted, says_out_of_fuel, execute_counts}

-- The arguments of a call of `execute`, and the time that it takes.
pub record Request (Module Value Float : Type 0) : Type 0 where
  pub compiled : Module
  pub state : Value
  pub init_state : Value
  pub event : Value
  pub is_owner : Bool
  pub elapsed : Float

abbrev pub Outcome : Type 0 → Type 0
Outcome Value = Result RuntimeError (ExecutionResult Value × ExecutionStats)

-- How many of the results have the label `k`, and how many say that the fuel ran out.
abbrev pub labelled : {Value : Type 0} → String → List (Outcome Value) → ℕ
labelled k [] = 0
labelled k (r ∷ rs) = if result_label r =s= k then labelled k rs + 1 else labelled k rs

abbrev pub exhausted : {Value : Type 0} → String → List (Outcome Value) → ℕ
exhausted k [] = 0
exhausted k (r ∷ rs) =
    if says_out_of_fuel r && "error" =s= k then exhausted k rs + 1 else exhausted k rs

-- A counter that takes one step, if `t`, and then `c` more.
step_and_more :
    (t : Bool) (n m a c : ℕ)
    → m ≡ (if t then n + 1 else n)
    → a ≡ m + c
    → a ≡ n + (if t then c + 1 else c)
step_and_more true n m a c h g = omega arith
step_and_more false n m a c h g = omega arith

module _ (p : Prometheus) (w : Wire) {Value : Type 0} (value_json : Json Value) (engine : Engine)
    (limits : WasmLimits) where
  abbrev pub execute_one :
      Request engine.Module Value p.Float
      → Option (ContractMetrics p)
      → Outcome Value × Option (ContractMetrics p)
  execute_one q metrics =
      execute p w value_json engine limits q.compiled q.state q.init_state q.event q.is_owner
        q.elapsed metrics

  unfoldable pub execute_all :
      List (Request engine.Module Value p.Float)
      → Option (ContractMetrics p)
      → List (Outcome Value) × Option (ContractMetrics p)
  execute_all [] metrics = ([], metrics)
  execute_all (q ∷ qs) metrics =
      let (r, metrics') = execute_one q metrics in
      let (rs, metrics'') = execute_all qs metrics' in (r ∷ rs, metrics'')

  pub execute_all_counts :
      (qs : List (Request engine.Module Value p.Float)) (before : ContractMetrics p)
      → (after : ContractMetrics p) × ((execute_all qs (some before)).1 ≡ some after)
        × ((k : String)
            → p.count after.contract_executions k
              ≡ p.count before.contract_executions k + labelled k (execute_all qs (some before)).0)
        × ((k : String)
            → p.count after.contract_fuel_exhausted_total k
              ≡ p.count before.contract_fuel_exhausted_total k
                + exhausted k (execute_all qs (some before)).0)
  unfolding execute_all
  execute_all_counts [] before = (before, refl, λ k. omega arith, λ k. omega arith)
  execute_all_counts (q ∷ qs) before =
      let counted =
        execute_counts p w value_json engine limits q.compiled q.state q.init_state q.event
          q.is_owner q.elapsed before in
      elim (Option-cases (execute_one q (some before)).1) [
        | inl e ↦ absurd (rw e at counted)
        | inr (mid, e) ↦
            let (executions, fuel) : Counted p before (execute_one q (some before)).0 (some mid) =
              rw e at counted in
            let (after, left, more, more_fuel) = execute_all_counts qs mid in
            (
              after,
              rw e left,
              λ k.
                  step_and_more (result_label (execute_one q (some before)).0 =s= k) _ _ _
                    (labelled k (execute_all qs (execute_one q (some before)).1).0) (executions k)
                    (rw e (more k)),
              λ k.
                  step_and_more (says_out_of_fuel (execute_one q (some before)).0 && "error" =s= k)
                    _ _ _ (exhausted k (execute_all qs (execute_one q (some before)).1).0) (fuel k)
                    (rw e (more_fuel k)),
            )
      ]

-- A result has one label of three.
one_label :
    {Value : Type 0} (r : Outcome Value) (rs : List (Outcome Value))
    → labelled "accepted" (r ∷ rs) + labelled "rejected" (r ∷ rs) + labelled "error" (r ∷ rs)
      ≡ suc (labelled "accepted" rs + labelled "rejected" rs + labelled "error" rs)
one_label (ok (execution, stats)) rs = elim (Bool-cases execution.success) [
  | inl e ↦ rw e (omega arith)
  | inr e ↦ rw e (omega arith)
]
one_label (err e) rs = omega arith

labelled_total :
    {Value : Type 0} (rs : List (Outcome Value))
    → labelled "accepted" rs + labelled "rejected" rs + labelled "error" rs ≡ length rs
labelled_total [] = omega arith
labelled_total (r ∷ rs) = omega (arith, one_label r rs, labelled_total rs)

module _ (p : Prometheus) (w : Wire) {Value : Type 0} (value_json : Json Value) (engine : Engine)
    (limits : WasmLimits) where
  length-execute_all :
      (qs : List (Request engine.Module Value p.Float)) (m : Option (ContractMetrics p))
      → length (execute_all p w value_json engine limits qs m).0 ≡ length qs
  unfolding execute_all
  length-execute_all [] m = refl
  length-execute_all (q ∷ qs) m =
      ap suc (length-execute_all qs (execute_one p w value_json engine limits q m).1)

  -- With metrics that start new, the executions counted as accepted, as rejected and as errors add up
  -- to the number of events, whatever happened to each.
  pub execute_all_total :
      (qs : List (Request engine.Module Value p.Float))
      → (after : ContractMetrics p) × ((execute_all p w value_json engine limits qs
            (some (new p))).1
          ≡ some after)
        × (p.count after.contract_executions "accepted"
              + p.count after.contract_executions "rejected"
              + p.count after.contract_executions "error"
            ≡ length qs)
  unfolding new
  execute_all_total qs =
      let (after, left, counts, _fuel) =
        execute_all_counts p w value_json engine limits qs (new p) in
      (
        after,
        left,
        omega (
          arith,
          counts "accepted",
          counts "rejected",
          counts "error",
          p.count-no_counts "accepted",
          p.count-no_counts "rejected",
          p.count-no_counts "error",
          labelled_total (execute_all p w value_json engine limits qs (some (new p))).0,
          length-execute_all qs (some (new p)),
        ),
      )
