-- ===== src/Runtime/Execute/InStep.antt =====
-- The metrics of src/runtime/metrics.rs agree with each other over any sequence of executions.

use mathlib.Core.Path.{subst}
use ave_contract_sdk.Base.{◌≡◌, sym, ◌∙◌, Option, none, some, List, [], ◌∷◌, arith, inl, inr}
use ave_contract_sdk.Base.Text.{String}
use ave_contract_sdk.Base.Result.{Result-cases}
use ave_contract_sdk.Sdk.Wire.{Wire, Json}
use ave_contract_sdk.Runtime.Config.{WasmLimits}
use ave_contract_sdk.Runtime.Engine.{Engine, Finished}
use ave_contract_sdk.Runtime.Metrics.{
  Prometheus, ContractMetrics, seconds, fuel_amounts, byte_amounts, new, observe_contract_execution,
  observe_contract_fuel_consumed, observe_contract_fuel_exhausted, observe_contract_memory_peak,
}
use ave_contract_sdk.Runtime.Execute.{
  call_label, fuel_of, bytes_of, run_main, observe_call, execute_inner, execute,
}
use ave_contract_sdk.Runtime.Execute.Session.{
  Request, labelled, execute_all_counts, execute_one, execute_all,
}

module _ (p : Prometheus) where
  -- Under every label there are as many durations as executions, and as many amounts of memory as of
  -- fuel.
  pub record AreInStep (m : ContractMetrics p) : Type 0 where
    pub timed :
        (k : String)
        → p.observations m.contract_execution_seconds k ≡ p.count m.contract_executions k
    pub measured :
        (k : String)
        → p.observations m.contract_memory_peak_bytes k ≡ p.observations m.contract_fuel_consumed k

  abbrev pub EachInStep : Option (ContractMetrics p) → Type 0
  EachInStep none = Unit {0}
  EachInStep (some m) = AreInStep m

  new-AreInStep : AreInStep (new p)
  unfolding new
  new-AreInStep = record {
    timed = λ k. p.observations-no_observations (seconds p) k ∙ sym (p.count-no_counts k);
    measured = λ k.
        p.observations-no_observations (byte_amounts p) k
        ∙ sym (p.observations-no_observations (fuel_amounts p) k);
  }

  observe_contract_execution-AreInStep :
      (label : String) (elapsed : p.Float) (m : ContractMetrics p)
      → AreInStep m
      → AreInStep (observe_contract_execution p label elapsed m)
  unfolding observe_contract_execution
  observe_contract_execution-AreInStep label elapsed m h = record {
    timed = λ k. ground (
      arith,
      h.timed k,
      p.count-inc m.contract_executions label k,
      p.observations-observe m.contract_execution_seconds label elapsed k,
    );
    measured = h.measured;
  }

  observe_call-AreInStep :
      (finished : Finished) (m : ContractMetrics p)
      → AreInStep m
      → AreInStep (observe_call p finished m)
  unfolding observe_call observe_contract_fuel_consumed observe_contract_memory_peak
      observe_contract_fuel_exhausted
  observe_call-AreInStep finished m h =
      let label = call_label finished.call_result in
      record {
        timed = λ k. ground (arith, h.timed k);
        measured = λ k. ground (
          arith,
          h.measured k,
          p.observations-observe m.contract_fuel_consumed label (p.as_f64 (fuel_of finished)) k,
          p.observations-observe m.contract_memory_peak_bytes label (p.as_f64 (bytes_of finished))
              k,
        );
      }

module _ (p : Prometheus) (w : Wire) {Value : Type 0} (value_json : Json Value) (engine : Engine)
    (limits : WasmLimits) where
  execute_one-AreInStep :
      (q : Request engine.Module Value p.Float) (metrics : Option (ContractMetrics p))
      → EachInStep p metrics
      → EachInStep p (execute_one p w value_json engine limits q metrics).1
  unfolding execute execute_inner
  execute_one-AreInStep q none h =
      elim (Result-cases
        (run_main value_json engine limits q.compiled q.state q.init_state q.event q.is_owner)) [
          | inl (finished, e) ↦ rw e tt
          | inr (failure, e) ↦ rw e tt
        ]
  execute_one-AreInStep q (some m) h =
      elim (Result-cases
        (run_main value_json engine limits q.compiled q.state q.init_state q.event q.is_owner)) [
          | inl (finished, e) ↦ rw e (
              observe_contract_execution-AreInStep p _ q.elapsed _
                (observe_call-AreInStep p finished m h))
          | inr (failure, e) ↦ rw e (observe_contract_execution-AreInStep p _ q.elapsed m h)
        ]

  execute_all-AreInStep :
      (qs : List (Request engine.Module Value p.Float)) (metrics : Option (ContractMetrics p))
      → EachInStep p metrics
      → EachInStep p (execute_all p w value_json engine limits qs metrics).1
  unfolding execute_all
  execute_all-AreInStep [] metrics h = h
  execute_all-AreInStep (q ∷ qs) metrics h =
      execute_all-AreInStep qs (execute_one p w value_json engine limits q metrics).1
        (execute_one-AreInStep q metrics h)

  -- With metrics that start new, after any sequence of executions, whatever happened in each: under
  -- every label the histogram of durations has as many observations as there are results with that
  -- label, and the histogram of memory as many as the histogram of fuel.
  pub execute_all_observations :
      (qs : List (Request engine.Module Value p.Float))
      → (after : ContractMetrics p) × ((execute_all p w value_json engine limits qs
            (some (new p))).1
          ≡ some after)
        × ((k : String)
            → p.observations after.contract_execution_seconds k
              ≡ labelled k (execute_all p w value_json engine limits qs (some (new p))).0)
        × ((k : String)
            → p.observations after.contract_memory_peak_bytes k
              ≡ p.observations after.contract_fuel_consumed k)
  unfolding new
  execute_all_observations qs =
      let (after, left, counts, _fuel) =
        execute_all_counts p w value_json engine limits qs (new p) in
      let step : AreInStep p after =
        subst (EachInStep p) left (execute_all-AreInStep qs (some (new p)) (new-AreInStep p)) in
      (after, left, λ k. omega (arith, step.timed k, counts k, p.count-no_counts k), step.measured)
