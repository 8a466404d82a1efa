-- ===== src/Checks/Executed.antt =====
-- The contract of the counters on the runtime: its owner resets the counters 1, 2 and 3.
use ave_contract_sdk.Base.{ℕ, ◌≡◌, refl, true, none, some, List, [], ◌∷◌, arith}
use ave_contract_sdk.Base.Machine.{as_i32}
use ave_contract_sdk.Base.Result.{ok, map_ok}
use ave_contract_sdk.Sdk.Wire.{Json}
use ave_contract_sdk.Sdk.Contract.{execute_contract}
use ave_contract_sdk.Runtime.Config.{limits_of_spec, default, build}
use ave_contract_sdk.Runtime.Memory.{MemoryManager, from_limits, grown}
use ave_contract_sdk.Runtime.Memory.Inv.{Fits, from_limits-IsValid}
use ave_contract_sdk.Runtime.Linker.Guest.{linked}
use ave_contract_sdk.Runtime.Staging.Arguments.{AllFit, arguments, length-arguments}
use ave_contract_sdk.Runtime.Engine.{Engine, Finished}
use ave_contract_sdk.Runtime.Execute.{execute}
use ave_contract_sdk.Bridge.Event.{RunsContract}
use ave_contract_sdk.Example.Counters.{reset_all, contract_logic}
use ave_contract_sdk.Example.Executed.{execute_counts_event}
use ave_contract_sdk.Checks.Host.{byte_memory, one_vector, small_wire, counting, no_metrics}
use ave_contract_sdk.Checks.Guest.{started, finish, small_engine}
use ave_contract_sdk.Checks.Mocks.{counters_json, events_json}
use ave_contract_sdk.Checks.Runs.{fresh_manager}

-- A value of the host is its text.
abbrev text_json : Json (List ℕ)
text_json = record { to_vec = λ bytes. ok bytes; from_slice = λ bytes. ok bytes }

abbrev run_counters : MemoryManager → ℕ → ℕ → ℕ → ℕ → Finished
run_counters m p q r o = finish (
    execute_contract (linked byte_memory one_vector) small_wire counters_json events_json (as_i32 p)
      (as_i32 q) (as_i32 r) (as_i32 o) contract_logic (started m))

abbrev counters_engine : Engine
counters_engine = record small_engine { main_function = λ m. some (run_counters m) }

three-AllFit : AllFit (1 ∷ 2 ∷ 3 ∷ []) [] [] fresh_manager
unfolding from_limits limits_of_spec default build
three-AllFit = record {
  first = omega arith;
  second = omega arith;
  third = omega arith;
  total = omega arith;
}

abbrev counters_context : MemoryManager
counters_context = arguments (1 ∷ 2 ∷ 3 ∷ []) [] [] fresh_manager

counters-Fits : Fits 4 counters_context
unfolding from_limits limits_of_spec default build grown
counters-Fits = (
  omega arith,
  omega (
    arith,
    length-arguments (1 ∷ 2 ∷ 3 ∷ []) [] [] fresh_manager (from_limits-IsValid none) refl
        three-AllFit,
  ),
)

runs_counters :
    RunsContract byte_memory one_vector small_wire counters_json events_json contract_logic
      counters_engine tt counters_context 0 7 11 1
unfolding from_limits limits_of_spec default build grown
runs_counters = record {
  instance = counters_context;
  entry = run_counters counters_context;
  memory = [];
  roomy = omega arith;
  fuelled = refl;
  instantiated = refl;
  entry_found = refl;
  runs = λ ptr c h. (rw h refl, rw h refl);
}

execute_counts_event_example :
    map_ok
      (λ result. result.0)
      (execute counting small_wire text_json counters_engine
        (limits_of_spec none)
        tt
        (1 ∷ 2 ∷ 3 ∷ [])
        []
        []
        true
        1
        (some no_metrics)).0
    ≡ ok (record { final_state = 0 ∷ 0 ∷ 0 ∷ []; success = true; error = "" })
execute_counts_event_example =
    execute_counts_event byte_memory one_vector small_wire counters_json events_json text_json
      counters_engine tt (1 ∷ 2 ∷ 3 ∷ []) [] (0 ∷ 0 ∷ 0 ∷ []) [] true none (1 ∷ 2 ∷ 3 ∷ []) [] []
      (0 ∷ 0 ∷ 0 ∷ []) (1 ∷ 0 ∷ 0 ∷ 0 ∷ []) counting 1 (some no_metrics)
      (record { one = 1; two = 2; three = 3 }) reset_all (refl, refl, refl) refl refl refl refl
      three-AllFit refl counters-Fits runs_counters
