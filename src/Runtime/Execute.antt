-- ===== src/Runtime/Execute.antt =====
-- src/runtime/contract_runtime.rs: `execute`, one event run through a contract module.
pub mod Outcomes
pub mod Stats
pub mod Session
pub mod InStep
pub mod Independent
pub mod Hostile
pub mod Concurrent
pub mod Failures
use mathlib.Core.Option
use ave_contract_sdk.Base.{
  ℕ, ◌-◌, ◌*◌, ◌%◌, ◌^◌, Bool, true, false, Option, none, some, List, if◌then◌else◌,
}
use ave_contract_sdk.Base.Text.{String}
use ave_contract_sdk.Base.Result.{Result, ok, err, ok_or, map_err as map_failure, ◌>>=◌, ◌>>◌}
use ave_contract_sdk.Sdk.Wire.{Wire, Json}
use ave_contract_sdk.Runtime.Error.{
  RuntimeError, contract_execution_failed, entry_point_not_found, fuel_limit_error,
  instantiation_failed, out_of_fuel, serialization_error,
}
use ave_contract_sdk.Runtime.Config.{WasmLimits, max_fuel}
use ave_contract_sdk.Runtime.Memory.{MemoryManager, read_data}
use ave_contract_sdk.Runtime.Staging.{allocation_failed, generate_execution_context}
use ave_contract_sdk.Runtime.Engine.{
  Engine, Finished, CallError, out_of_fuel_trap, other_error, chain_text,
}
use ave_contract_sdk.Runtime.Metrics.{
  Prometheus, ContractMetrics, observe_contract_execution, observe_contract_fuel_consumed,
  observe_contract_fuel_exhausted, observe_contract_memory_peak,
}

-- src/runtime/executor.rs
pub record ExecutionResult (Value : Type 0) : Type 0 where
  pub final_state : Value
  pub success : Bool
  pub error : String

pub record ExecutionStats : Type 0 where
  pub fuel_consumed : ℕ
  pub memory_bytes : ℕ
  pub fuel_exhausted : Bool

abbrev pub get_or_zero : Option ℕ → ℕ
get_or_zero none = 0
get_or_zero (some n) = n

-- `MAX_FUEL.saturating_sub(store.get_fuel().unwrap_or(0))`
abbrev pub fuel_of : Finished → ℕ
fuel_of f = max_fuel - get_or_zero f.fuel_left

-- `m.size(&store) * 64 * 1024`, in `u64`
abbrev pub bytes_of : Finished → ℕ
bytes_of f = get_or_zero f.memory_pages * 64 * 1024 % 2 ^ 64

-- `matches!(call_result…, Some(&Trap::OutOfFuel))`
abbrev pub is_exhausted : Result CallError ℕ → Bool
is_exhausted (ok ptr) = false
is_exhausted (err (out_of_fuel_trap text)) = true
is_exhausted (err (other_error text)) = false

abbrev pub call_label : Result CallError ℕ → String
call_label (ok ptr) = "success"
call_label (err e) = "error"

module _ (w : Wire) {Value : Type 0} (value_json : Json Value) where
  unfoldable pub get_execution_result :
      MemoryManager → ℕ → Result RuntimeError (ExecutionResult Value)
  get_execution_result manager result_ptr = do
    memory ← map_failure allocation_failed (read_data result_ptr manager)
    result ← map_failure (serialization_error "execution result") (w.decode_result memory)
    final_state ←
        map_failure (serialization_error "final state json")
          (value_json.from_slice result.final_state)
    ok (record { final_state = final_state; success = result.success; error = result.error })

  -- The last `match` of `execute_inner`.
  unfoldable pub conclude :
      Finished → Result CallError ℕ → Result RuntimeError (ExecutionResult Value × ExecutionStats)
  unfolding get_execution_result
  conclude finished (ok result_ptr) = do
    result ← get_execution_result finished.manager result_ptr
    ok (
      result,
      record {
        fuel_consumed = fuel_of finished;
        memory_bytes = bytes_of finished;
        fuel_exhausted = false;
      },
    )
  conclude finished (err e) =
      if is_exhausted (err e)
      then err (out_of_fuel (fuel_of finished))
      else err (contract_execution_failed (chain_text e))

-- `execute_inner` up to the return of the guest's call.
module _ {Value : Type 0} (value_json : Json Value) (engine : Engine) where
  unfoldable pub run_main :
      WasmLimits → engine.Module → Value → Value → Value → Bool → Result RuntimeError Finished
  run_main limits compiled state init_state event is_owner =
      let (ptrs, context) = generate_execution_context value_json state init_state event limits in
      do
        (state_ptr, init_state_ptr, event_ptr) ← ptrs
        map_failure fuel_limit_error (engine.set_fuel max_fuel)
        instance ← map_failure instantiation_failed (engine.instantiate compiled context max_fuel)
        contract_entrypoint ←
            ok_or (entry_point_not_found "main_function") (engine.main_function instance)
        ok (contract_entrypoint state_ptr init_state_ptr event_ptr (if is_owner then 1 else 0))

-- `result_label` of `execute`: the business outcome.
abbrev pub result_label :
    {Value : Type 0} → Result RuntimeError (ExecutionResult Value × ExecutionStats) → String
result_label (ok (execution, stats)) = if execution.success then "accepted" else "rejected"
result_label (err e) = "error"

module _ (p : Prometheus) where
  -- The metrics of a call that has ended.
  unfoldable pub observe_call : Finished → ContractMetrics p → ContractMetrics p
  unfolding observe_contract_fuel_consumed observe_contract_memory_peak
      observe_contract_fuel_exhausted
  observe_call finished m =
      let label = call_label finished.call_result in
      let consumed = observe_contract_fuel_consumed p label (fuel_of finished) m in
      let peak = observe_contract_memory_peak p label (bytes_of finished) consumed in
      if is_exhausted finished.call_result then observe_contract_fuel_exhausted p peak else peak

  module _ (w : Wire) {Value : Type 0} (value_json : Json Value) where
    -- `execute_inner` once the guest has returned, or could not be called.
    abbrev pub settle :
        Result RuntimeError Finished
        → Option (ContractMetrics p)
        → Result RuntimeError (ExecutionResult Value × ExecutionStats) × Option (ContractMetrics p)
    settle (err e) metrics = (err e, metrics)
    settle (ok finished) metrics = (
      conclude w value_json finished finished.call_result,
      Option.map (observe_call finished) metrics,
    )

  module _ (w : Wire) {Value : Type 0} (value_json : Json Value) (engine : Engine) where
    unfoldable pub execute_inner :
        WasmLimits
        → engine.Module
        → Value
        → Value
        → Value
        → Bool
        → Option (ContractMetrics p)
        → Result RuntimeError (ExecutionResult Value × ExecutionStats) × Option (ContractMetrics p)
    execute_inner limits compiled state init_state event is_owner metrics =
        settle w value_json
          (run_main value_json engine limits compiled state init_state event is_owner) metrics

    -- `execute`; the time that the run took is given.
    unfoldable pub execute :
        WasmLimits
        → engine.Module
        → Value
        → Value
        → Value
        → Bool
        → p.Float
        → Option (ContractMetrics p)
        → Result RuntimeError (ExecutionResult Value × ExecutionStats) × Option (ContractMetrics p)
    unfolding execute_inner observe_contract_execution
    execute limits compiled state init_state event is_owner elapsed metrics =
        let (result, metrics') =
          execute_inner limits compiled state init_state event is_owner metrics in
        (result, Option.map (observe_contract_execution p (result_label result) elapsed) metrics')
