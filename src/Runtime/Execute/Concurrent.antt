-- ===== src/Runtime/Execute/Concurrent.antt =====
-- src/runtime/contract_runtime.rs: executions that run at the same time and share their metrics.
use mathlib.Core.Option
use ave_contract_sdk.Base.{
  ◌+◌, ◌≡◌, refl, sym, Bool-cases, inl, inr, Option, none, some, List, [], ◌∷◌, map, arith,
  if◌then◌else◌,
}
use ave_contract_sdk.Base.Text.{String}
use ave_contract_sdk.Base.Result.{Result, ok, err}
use ave_contract_sdk.Sdk.Wire.{Wire, Json}
use ave_contract_sdk.Runtime.Error.{RuntimeError}
use ave_contract_sdk.Runtime.Config.{WasmLimits}
use ave_contract_sdk.Runtime.Engine.{Engine, Finished}
use ave_contract_sdk.Runtime.Metrics.{
  Prometheus, ContractMetrics, observe_contract_execution, observe_contract_fuel_consumed,
  observe_contract_fuel_exhausted, observe_contract_memory_peak,
}
use ave_contract_sdk.Runtime.Metrics.Updates.{
  Update, executed, took, consumed, exhausted, peaked, Family, Interleaved, update_all, reading,
  count_all, count_of-Interleaved, reading-update_all,
}
use ave_contract_sdk.Runtime.Execute.{
  run_main, settle, execute_inner, execute, observe_call, call_label, result_label, is_exhausted,
  fuel_of, bytes_of,
}
use ave_contract_sdk.Runtime.Execute.Session.{Request, execute_one, execute_all}
use ave_contract_sdk.Runtime.Execute.Independent.{alone, execute_one-alone}

module _ (p : Prometheus) where
  -- The updates of an execution whose result has the label `result`.
  abbrev pub updates_after : Result RuntimeError Finished → String → p.Float → List (Update p.Float)
  updates_after (err e) result elapsed = executed result ∷ took result elapsed ∷ []
  updates_after (ok finished) result elapsed =
      let label = call_label finished.call_result in
      let last = executed result ∷ took result elapsed ∷ [] in
      consumed label (p.as_f64 (fuel_of finished))
      ∷ peaked label (p.as_f64 (bytes_of finished))
      ∷ (if is_exhausted finished.call_result then exhausted ∷ last else last)

  module _ (w : Wire) {Value : Type 0} (value_json : Json Value) where
    settle-update_all :
        (ran : Result RuntimeError Finished) (result : String) (elapsed : p.Float)
        (metrics : Option (ContractMetrics p))
        → Option.map
            (observe_contract_execution p result elapsed)
            (settle p w value_json ran metrics).1
          ≡ Option.map (update_all p (updates_after ran result elapsed)) metrics
    unfolding observe_contract_execution observe_call observe_contract_fuel_consumed
        observe_contract_memory_peak observe_contract_fuel_exhausted
    settle-update_all (err e) result elapsed none = refl
    settle-update_all (err e) result elapsed (some m) = refl
    settle-update_all (ok finished) result elapsed none = refl
    settle-update_all (ok finished) result elapsed (some m) =
        elim (Bool-cases (is_exhausted finished.call_result)) [
          | inl e ↦ rw e refl
          | inr e ↦ rw e refl
        ]

    module _ (engine : Engine) (limits : WasmLimits) where
      abbrev pub updates_of : Request engine.Module Value p.Float → List (Update p.Float)
      updates_of q =
          updates_after
            (run_main value_json engine limits q.compiled q.state q.init_state q.event q.is_owner)
            (result_label (alone p w value_json engine limits q)) q.elapsed

      execute_one-update_all :
          (q : Request engine.Module Value p.Float) (metrics : Option (ContractMetrics p))
          → (execute_one p w value_json engine limits q metrics).1
            ≡ Option.map (update_all p (updates_of q)) metrics
      unfolding execute execute_inner
      execute_one-update_all q metrics =
          rw (sym (execute_one-alone p w value_json engine limits q metrics)) (
            settle-update_all
              (run_main value_json engine limits q.compiled q.state q.init_state q.event q.is_owner)
              _ q.elapsed metrics)

      reading-execute_all :
          (qs : List (Request engine.Module Value p.Float)) (m : ContractMetrics p)
          → (after : ContractMetrics p) × ((execute_all p w value_json engine limits qs (some m)).1
              ≡ some after)
            × ((f : Family) (k : String)
                → reading p f k after ≡ reading p f k m + count_all f k (map updates_of qs))
      unfolding execute_all
      reading-execute_all [] m = (m, refl, λ f k. omega arith)
      reading-execute_all (q ∷ qs) m =
          let (after, same, more) = reading-execute_all qs (update_all p (updates_of q) m) in
          (
            after,
            rw (execute_one-update_all q (some m)) same,
            λ f k. omega (arith, more f k, reading-update_all p f k (updates_of q) m),
          )

      -- Executions that run at the same time on one runtime: each makes its updates of the shared metrics
      -- in its order, and those of the others come between them in any way. Every counter and the number
      -- of observations of every histogram end, under every label, as if the executions had run one after
      -- the other.
      pub execute_all-Interleaved :
          (qs : List (Request engine.Module Value p.Float)) (us : List (Update p.Float))
          (m : ContractMetrics p)
          → Interleaved (map updates_of qs) us
          → (after : ContractMetrics p) × ((execute_all p w value_json engine limits qs (some m)).1
              ≡ some after)
            × ((f : Family) (k : String) → reading p f k (update_all p us m) ≡ reading p f k after)
      execute_all-Interleaved qs us m i =
          let (after, same, readings) = reading-execute_all qs m in
          (
            after,
            same,
            λ f k.
                omega
                  (arith, readings f k, reading-update_all p f k us m, count_of-Interleaved f k i),
          )
