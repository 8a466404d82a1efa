-- ===== src/Checks/Failures.antt =====
-- Errors of an execution and of a validation.
use mathlib.Core.List.{Perm}
use ave_contract_sdk.Base.{ℕ, ◌≡◌, refl, true, none, some, [], ◌∷◌, ◌++◌, map}
use ave_contract_sdk.Base.Text.{String}
use ave_contract_sdk.Base.Result.{ok, err}
use ave_contract_sdk.Runtime.Error.{invalid_module, missing_imports, out_of_fuel}
use ave_contract_sdk.Runtime.Config.{limits_of_spec}
use ave_contract_sdk.Runtime.Memory
use ave_contract_sdk.Runtime.Memory.{MemoryManager, from_limits, grown, resize}
use ave_contract_sdk.Runtime.Staging.{generate_execution_context, write_contract_data}
use ave_contract_sdk.Runtime.Imports.{sdk_import, check_imports, check_loop}
use ave_contract_sdk.Runtime.Imports.Exact.{sdk_imports}
use ave_contract_sdk.Runtime.Engine.{Engine, Finished, out_of_fuel_trap}
use ave_contract_sdk.Runtime.Execute.{run_main, execute, execute_inner, conclude, fuel_of}
use ave_contract_sdk.Runtime.Execute.Failures.{execute-Tells}
use ave_contract_sdk.Runtime.Validate.{validate, validate_inner}
use ave_contract_sdk.Runtime.Validate.Failures.{validate-Tells}
use ave_contract_sdk.Checks.Host.{own_order, small_wire, byte_json, counting}
use ave_contract_sdk.Checks.Guest.{small_engine}

-- A run that does not end within its fuel.
abbrev run_out : MemoryManager → ℕ → ℕ → ℕ → ℕ → Finished
run_out m p q r o = record {
  call_result = err (out_of_fuel_trap "all fuel consumed by WebAssembly");
  manager = m;
  fuel_left = some 0;
  memory_pages = some 17;
}

abbrev endless_engine : Engine
endless_engine = record small_engine { main_function = λ m. some (run_out m) }

executed_endless :
    (execute counting small_wire byte_json endless_engine
      (limits_of_spec none)
      tt
      2
      0
      5
      true
      1
      none).0
    ≡ err (out_of_fuel 10_000_000)
unfolding execute execute_inner run_main conclude generate_execution_context write_contract_data
    Memory.alloc from_limits limits_of_spec Memory.write_bytes_at grown resize
executed_endless = refl

execute-Tells_example :
    (finished : Finished) × (text : String) × (run_main byte_json endless_engine
        (limits_of_spec none)
        tt
        2
        0
        5
        true
      ≡ ok finished)
    × (finished.call_result ≡ err (out_of_fuel_trap text))
    × (10_000_000 ≡ fuel_of finished)
execute-Tells_example =
    execute-Tells small_wire byte_json endless_engine (limits_of_spec none) tt 2 0 5 true counting 1
      none (out_of_fuel 10_000_000) executed_endless

-- It imports two of the four functions.
abbrev partial_engine : Engine
partial_engine = record small_engine {
  imports = λ compiled. sdk_import "read_bytes" ∷ sdk_import "pointer_len" ∷ [];
}

validated_partial :
    validate small_wire byte_json partial_engine own_order (limits_of_spec none) tt 2
    ≡ err (invalid_module (missing_imports ("alloc" ∷ "write_bytes" ∷ [])))
unfolding validate validate_inner check_imports check_loop
validated_partial = refl

validate-Tells_example : Perm sdk_imports (
    (sdk_import "read_bytes" ∷ sdk_import "pointer_len" ∷ [])
    ++ map sdk_import ("alloc" ∷ "write_bytes" ∷ []))
validate-Tells_example =
    validate-Tells small_wire byte_json partial_engine (limits_of_spec none) tt 2 own_order
      (invalid_module (missing_imports ("alloc" ∷ "write_bytes" ∷ []))) validated_partial
