-- ===== src/Runtime/Execute/Outcomes.antt =====
-- What a caller of `execute` and a reader of the metrics can tell of a run.
use mathlib.Core.Option
use ave_contract_sdk.Base.{
  ℕ, ◌+◌, ◌≡◌, Bool, true, false, ◌&&◌, Option, none, some, List, arith, if◌then◌else◌,
}
use ave_contract_sdk.Base.Text.{String, ◌=s=◌}
use ave_contract_sdk.Base.Result.{Result, ok, err}
use ave_contract_sdk.Sdk.Wire.{Wire, Json}
use ave_contract_sdk.Runtime.Error.{RuntimeError, out_of_fuel}
use ave_contract_sdk.Runtime.Config.{WasmLimits}
use ave_contract_sdk.Runtime.Memory.{MemoryManager}
use ave_contract_sdk.Runtime.Staging.{generate_execution_context, write_contract_data}
use ave_contract_sdk.Runtime.Engine.{Engine, Finished, CallError}
use ave_contract_sdk.Runtime.Metrics.{Prometheus, ContractMetrics, observe_contract_execution}
use ave_contract_sdk.Runtime.Execute.{
  ExecutionResult, ExecutionStats, is_exhausted, get_execution_result, conclude, run_main,
  result_label, observe_call, settle, execute,
}

-- Whether a result says that the fuel ran out.
abbrev pub says_out_of_fuel : {A : Type 0} → Result RuntimeError A → Bool
says_out_of_fuel (ok a) = false
says_out_of_fuel (err (out_of_fuel consumed)) = true
says_out_of_fuel (err _) = false

module _ (w : Wire) {Value : Type 0} (value_json : Json Value) where
  -- A call that has ended is reported as out of fuel exactly when it ended by that trap of wasmtime.
  pub conclude_out_of_fuel :
      (finished : Finished) (r : Result CallError ℕ)
      → says_out_of_fuel (conclude w value_json finished r) ≡ is_exhausted r
  unfolding conclude get_execution_result
  conclude_out_of_fuel finished r = ground arith

write_out_of_fuel :
    (d : List ℕ) (m : MemoryManager) → says_out_of_fuel (write_contract_data d m).0 ≡ false
unfolding write_contract_data
write_out_of_fuel d m = ground arith

module _ {Value : Type 0} (value_json : Json Value) where
  stage_out_of_fuel :
      (s i e : Value) (limits : WasmLimits)
      → says_out_of_fuel (generate_execution_context value_json s i e limits).0 ≡ false
  unfolding generate_execution_context
  stage_out_of_fuel s i e limits = grind (arith, write_out_of_fuel)

  run_main_out_of_fuel :
      (engine : Engine) (limits : WasmLimits) (compiled : engine.Module) (s i e : Value)
      (owner : Bool)
      → says_out_of_fuel (run_main value_json engine limits compiled s i e owner) ≡ false
  unfolding run_main
  run_main_out_of_fuel engine limits compiled s i e owner =
      ground (arith, stage_out_of_fuel s i e limits)

-- The counters after a run that returned `r`: one more execution under the label of `r` and under no
-- other, and one more run out of fuel, under "error", if `r` says so and only then.
module _ (p : Prometheus) {Value : Type 0} where
  abbrev pub Counted :
      ContractMetrics p
      → Result RuntimeError (ExecutionResult Value × ExecutionStats)
      → Option (ContractMetrics p)
      → Type 0
  Counted before r none = ⊥
  Counted before r (some after) =
      ((k : String)
        → p.count after.contract_executions k ≡ (
            if result_label r =s= k
            then p.count before.contract_executions k + 1
            else p.count before.contract_executions k))
      × ((k : String)
          → p.count after.contract_fuel_exhausted_total k ≡ (
              if says_out_of_fuel r && "error" =s= k
              then p.count before.contract_fuel_exhausted_total k + 1
              else p.count before.contract_fuel_exhausted_total k))

module _ (p : Prometheus) (w : Wire) {Value : Type 0} (value_json : Json Value) where
  observe_call_executions :
      (finished : Finished) (m : ContractMetrics p)
      → (observe_call p finished m).contract_executions ≡ m.contract_executions
  unfolding observe_call
  observe_call_executions finished m = ground arith

  observe_call_exhausted :
      (finished : Finished) (m : ContractMetrics p) (k : String)
      → p.count (observe_call p finished m).contract_fuel_exhausted_total k ≡ (
          if is_exhausted finished.call_result && "error" =s= k
          then p.count m.contract_fuel_exhausted_total k + 1
          else p.count m.contract_fuel_exhausted_total k)
  unfolding observe_call
  observe_call_exhausted finished m k =
      ground (arith, p.count-inc m.contract_fuel_exhausted_total "error" k)

  -- The metrics that a run leaves.
  abbrev finished_metrics :
      p.Float
      → Result RuntimeError (ExecutionResult Value × ExecutionStats) × Option (ContractMetrics p)
      → Option (ContractMetrics p)
  finished_metrics elapsed (r, m) =
      Option.map (observe_contract_execution p (result_label r) elapsed) m

  settle_counts :
      (ran : Result RuntimeError Finished) (elapsed : p.Float) (before : ContractMetrics p)
      → says_out_of_fuel ran ≡ false
      → let out = settle p w value_json ran (some before) in
        Counted p before out.0 (finished_metrics elapsed out)
  unfolding observe_contract_execution
  settle_counts (err failure) elapsed before h =
      (λ k. p.count-inc before.contract_executions "error" k, λ k. ground (arith, h))
  settle_counts (ok finished) elapsed before h = (
    λ k. rw (observe_call_executions finished before) (
        p.count-inc before.contract_executions
          (result_label (conclude w value_json finished finished.call_result)) k),
    λ k.
        rw (conclude_out_of_fuel w value_json finished finished.call_result)
          (observe_call_exhausted finished before k),
  )

module _ (p : Prometheus) (w : Wire) {Value : Type 0} (value_json : Json Value) (engine : Engine)
    (limits : WasmLimits) (compiled : engine.Module) (s i e : Value) (owner : Bool)
    (elapsed : p.Float) (before : ContractMetrics p) where
  -- With metrics attached, a run adds one to the executions counted under the label of its result,
  -- which is "accepted" or "rejected" for a contract's verdict and "error" for every failure, and
  -- nothing to any other label; and the count of runs that ran out of fuel grows by one, under
  -- "error", exactly when the result says that the fuel ran out.
  pub execute_counts :
      let (r, after) =
        execute p w value_json engine limits compiled s i e owner elapsed (some before) in
      Counted p before r after
  unfolding execute
  execute_counts =
      settle_counts p w value_json (run_main value_json engine limits compiled s i e owner) elapsed
        before (run_main_out_of_fuel value_json engine limits compiled s i e owner)
