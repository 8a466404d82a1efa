-- ===== src/Runtime/Validate.antt =====
-- src/runtime/contract_runtime.rs: `validate`, the checks on a module before its contract is used.
pub mod Accepted
pub mod Failures
pub mod Hostile
pub mod Executable
use mathlib.Core.List.{Perm}
use ave_contract_sdk.Base.{
  ℕ, ◌≡◌, ◌≢◌, refl, Bool, true, false, Option, none, some, List, arith, if◌then◌else◌,
}
use ave_contract_sdk.Base.Text.{String}
use ave_contract_sdk.Base.Result.{
  Result, ok, err, ok_or, map_err as map_failure, ◌>>=◌, ◌>>◌, >>=-ok,
}
use ave_contract_sdk.Sdk.Wire.{Wire, Json}
use ave_contract_sdk.Runtime.Error.{
  RuntimeError, contract_execution_failed, entry_point_not_found, fuel_limit_error,
  instantiation_failed, serialization_error,
}
use ave_contract_sdk.Runtime.Config.{WasmLimits, max_fuel_compilation}
use ave_contract_sdk.Runtime.Memory.{MemoryManager, read_data}
use ave_contract_sdk.Runtime.Staging.{allocation_failed, generate_context}
use ave_contract_sdk.Runtime.Imports.{Import, SetOrder, check_imports}
use ave_contract_sdk.Runtime.Imports.Exact.{sdk_imports, check_imports_iff}
use ave_contract_sdk.Runtime.Engine.{Engine, Finished, CallError, chain_text}

module _ (w : Wire) where
  unfoldable pub check_init_result : MemoryManager → ℕ → Result RuntimeError (Unit {0})
  check_init_result manager result_ptr = do
    memory ← map_failure allocation_failed (read_data result_ptr manager)
    check ← map_failure (serialization_error "init check result") (w.decode_init memory)
    if w.init_success check then ok tt else err (contract_execution_failed (w.init_message check))

  module _ {Value : Type 0} (value_json : Json Value) (engine : Engine) where
    -- `validate_inner` behind its checks of the imports.
    unfoldable pub run_init_check :
        WasmLimits → engine.Module → Value → Result RuntimeError Finished
    run_init_check limits compiled initial_state =
        let (ptr, context) = generate_context value_json initial_state limits in
        do
          state_ptr ← ptr
          map_failure fuel_limit_error (engine.set_fuel max_fuel_compilation)
          instance ←
              map_failure instantiation_failed
                (engine.instantiate compiled context max_fuel_compilation)
          _main ← ok_or (entry_point_not_found "main_function") (engine.main_function instance)
          init_contract_entrypoint ←
              ok_or (entry_point_not_found "init_check_function")
                (engine.init_check_function instance)
          ok (init_contract_entrypoint state_ptr)

    -- The order of a `HashSet` is what the process has drawn.
    unfoldable pub validate_inner :
        SetOrder → WasmLimits → engine.Module → Value → Result RuntimeError (Unit {0})
    validate_inner order limits compiled initial_state = do
      check_imports order (engine.imports compiled)
      finished ← run_init_check limits compiled initial_state
      result_ptr ← map_failure (λ e. contract_execution_failed (chain_text e)) finished.call_result
      check_init_result finished.manager result_ptr

    unfoldable pub validate :
        SetOrder → WasmLimits → engine.Module → Value → Result RuntimeError (Unit {0})
    validate order limits compiled initial_state =
        validate_inner order limits compiled initial_state
