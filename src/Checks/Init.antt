-- ===== src/Checks/Init.antt =====
-- The validation of a small module.
use ave_contract_sdk.Base.{◌≡◌, refl, none, [], ◌∷◌, arith}
use ave_contract_sdk.Base.Result.{ok}
use ave_contract_sdk.Runtime.Config.{limits_of_spec, default, build}
use ave_contract_sdk.Runtime.Memory.{MemoryManager, from_limits, grown}
use ave_contract_sdk.Runtime.Memory.Inv.{Fits}
use ave_contract_sdk.Runtime.Staging.Laws.{staged, length-staged}
use ave_contract_sdk.Runtime.Imports.{check_imports}
use ave_contract_sdk.Runtime.Imports.Exact.{sdk_imports, check_imports_iff}
use ave_contract_sdk.Runtime.Validate.{validate}
use ave_contract_sdk.Bridge.Verdict.{init_verdict}
use ave_contract_sdk.Bridge.Init.{RunsInitCheck, validate_reports}
use ave_contract_sdk.Checks.Host.{own_order, byte_memory, one_vector, small_wire, byte_json}
use ave_contract_sdk.Checks.Guest.{init_accepts, run_adds, run_init, small_engine}

abbrev fresh_manager : MemoryManager
fresh_manager = from_limits (limits_of_spec none)

state-Fits : Fits 5 fresh_manager
unfolding from_limits limits_of_spec default build
state-Fits = (omega arith, omega arith)

check-Fits : Fits 1 (staged (2 ∷ []) fresh_manager)
unfolding from_limits limits_of_spec default build grown
check-Fits = (omega arith, omega (arith, length-staged (2 ∷ []) fresh_manager))

passes : check_imports own_order sdk_imports ≡ ok tt
unfolding check_imports
passes = refl

runs_init :
    RunsInitCheck byte_memory one_vector small_wire byte_json init_accepts small_engine tt
      (staged (2 ∷ []) fresh_manager)
      0
unfolding from_limits limits_of_spec default build grown
runs_init = record {
  instance = staged (2 ∷ []) fresh_manager;
  main = run_adds (staged (2 ∷ []) fresh_manager);
  entry = run_init (staged (2 ∷ []) fresh_manager);
  memory = [];
  roomy = omega arith;
  fuelled = refl;
  instantiated = refl;
  main_found = refl;
  entry_found = refl;
  runs = λ ptr c h. (rw h refl, rw h refl);
}

validate_reports_example :
    validate small_wire byte_json small_engine own_order (limits_of_spec none) tt 2 ≡ ok tt
unfolding init_verdict
validate_reports_example =
    validate_reports byte_memory one_vector small_wire byte_json byte_json init_accepts small_engine
      tt 2 none (2 ∷ []) (1 ∷ []) own_order ((check_imports_iff own_order sdk_imports).0 passes)
      refl state-Fits refl check-Fits runs_init
