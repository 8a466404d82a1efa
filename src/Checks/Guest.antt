-- ===== src/Checks/Guest.antt =====
-- A contract that adds the event to its state, and an engine that runs it.
use ave_contract_sdk.Base.{ℕ, refl, ◌++◌, ◌∷◌, ◌+◌, none, some, List, []}
use ave_contract_sdk.Base.Machine.{as_i32}
use ave_contract_sdk.Base.Result.{Result, ok, err}
use ave_contract_sdk.Sdk.Context.{Context, ContractResult, ContractInitCheck, accept, accept_init}
use ave_contract_sdk.Sdk.Contract.{execute_contract, check_init_data}
use ave_contract_sdk.Runtime.Memory.{MemoryManager}
use ave_contract_sdk.Runtime.Imports.{Import}
use ave_contract_sdk.Runtime.Linker.Setup.{FunctionLinker}
use ave_contract_sdk.Runtime.Imports.Exact.{sdk_imports}
use ave_contract_sdk.Runtime.Linker.{WasmError, Caller}
use ave_contract_sdk.Runtime.Linker.Guest.{linked}
use ave_contract_sdk.Runtime.Engine.{Engine, Finished, other_error}
use ave_contract_sdk.Checks.Host.{byte_memory, one_vector, small_wire, byte_json}

abbrev pub adds : Context ℕ → ContractResult ℕ → ContractResult ℕ
adds context r = accept (record r { state = r.state + context.event })

abbrev pub init_accepts : ℕ → ContractInitCheck → ContractInitCheck
init_accepts state check = accept_init check

abbrev pub finish : Result WasmError ℕ × Caller (List ℕ) → Finished
finish (ok ptr, c) = record {
  call_result = ok ptr;
  manager = c.manager;
  fuel_left = some 9_000_000;
  memory_pages = some 17;
}
finish (err e, c) = record {
  call_result = err (other_error "wasm trap");
  manager = c.manager;
  fuel_left = some 0;
  memory_pages = none;
}

abbrev pub started : MemoryManager → Caller (List ℕ)
started m = record { manager = m; export = some [] }

abbrev pub run_adds : MemoryManager → ℕ → ℕ → ℕ → ℕ → Finished
run_adds m p q r o = finish (
    execute_contract (linked byte_memory one_vector) small_wire byte_json byte_json (as_i32 p)
      (as_i32 q) (as_i32 r) (as_i32 o) adds (started m))

abbrev pub run_init : MemoryManager → ℕ → Finished
run_init m p = finish (
    check_init_data (linked byte_memory one_vector) small_wire byte_json (as_i32 p) init_accepts
      (started m))

-- A linker as the list of what it defines.
abbrev pub listed : FunctionLinker
listed = record {
  Linker = List Import;
  new = [];
  func_wrap = λ module_name name ty defined.
      ok (defined ++ record { module_name = module_name; name = name; ty = ty } ∷ []);
  definitions = λ defined. defined;
  definitions-new = refl;
  func_wrap-ok = λ defined added free. (defined ++ added ∷ [], refl, refl);
}

abbrev pub small_engine : Engine
small_engine = record {
  Module = Unit {0};
  Instance = MemoryManager;
  create = λ config. ok tt;
  linkers = listed;
  precompile_module = λ wasm. ok wasm;
  deserialize = λ bytes. ok tt;
  imports = λ compiled. sdk_imports;
  set_fuel = λ fuel. ok tt;
  instantiate = λ compiled m fuel. ok m;
  main_function = λ m. some (run_adds m);
  init_check_function = λ m. some (run_init m);
}
