-- ===== src/Checks/Runs.antt =====
-- The theorems at small inputs.
use ave_contract_sdk.Base.{ℕ, ◌≤◌, ◌≡◌, refl, true, none, some, List, [], ◌∷◌, arith, length}
use ave_contract_sdk.Base.Machine.{pos}
use ave_contract_sdk.Base.Result.{ok, map_ok}
use ave_contract_sdk.Sdk.Contract.{execute_contract}
use ave_contract_sdk.Runtime.Config.{limits_of_spec, default, build}
use ave_contract_sdk.Runtime.Memory.{MemoryManager, from_limits, grown}
use ave_contract_sdk.Runtime.Staging.Arguments.{AllFit, arguments, length-arguments}
use ave_contract_sdk.Runtime.Memory.Inv.{Fits, from_limits-IsValid}
use ave_contract_sdk.Runtime.Linker.Guest.{linked}
use ave_contract_sdk.Runtime.Execute.{execute}
use ave_contract_sdk.Bridge.Verdict.{verdict}
use ave_contract_sdk.Bridge.Store.{stored}
use ave_contract_sdk.Bridge.Guest.{HasStaged, execute_contract_served}
use ave_contract_sdk.Bridge.Event.{RunsContract, context-HasStaged, execute_reports}
use ave_contract_sdk.Checks.Host.{
  byte_memory, one_vector, small_wire, byte_json, counting, no_metrics,
}
use ave_contract_sdk.Checks.Guest.{adds, started, run_adds, small_engine}

abbrev pub fresh_manager : MemoryManager
fresh_manager = from_limits (limits_of_spec none)

pub one_byte-AllFit : (a b d : ℕ) → AllFit (a ∷ []) (b ∷ []) (d ∷ []) fresh_manager
unfolding from_limits limits_of_spec default build
one_byte-AllFit a b d = record {
  first = omega arith;
  second = omega arith;
  third = omega arith;
  total = omega arith;
}

-- The state 2, the initial state 0 and the event 5.
abbrev pub context_example : MemoryManager
context_example = arguments (2 ∷ []) (0 ∷ []) (5 ∷ []) fresh_manager

pub Fits-example : Fits 2 context_example
unfolding from_limits limits_of_spec default build grown
Fits-example = (
  omega arith,
  omega (
    arith,
    length-arguments (2 ∷ []) (0 ∷ []) (5 ∷ []) fresh_manager (from_limits-IsValid none) refl
        (one_byte-AllFit 2 0 5),
  ),
)

pub roomy_example : context_example.max_single_alloc ≤ one_vector.capacity
unfolding from_limits limits_of_spec default build grown
roomy_example = omega arith

pub runs_example :
    RunsContract byte_memory one_vector small_wire byte_json byte_json adds small_engine tt
      context_example 0 5 10 1
runs_example = record {
  instance = context_example;
  entry = run_adds context_example;
  memory = [];
  roomy = roomy_example;
  fuelled = refl;
  instantiated = refl;
  entry_found = refl;
  runs = λ ptr c h. (rw h refl, rw h refl);
}

execute_reports_example :
    map_ok
      (λ result. result.0)
      (execute counting small_wire byte_json small_engine
        (limits_of_spec none)
        tt
        2
        0
        5
        true
        1
        (some no_metrics)).0
    ≡ ok (record { final_state = 7; success = true; error = "" })
unfolding verdict
execute_reports_example =
    execute_reports byte_memory one_vector small_wire byte_json byte_json byte_json adds
      small_engine tt 2 0 5 true none (2 ∷ []) (0 ∷ []) (5 ∷ []) (1 ∷ 7 ∷ []) counting 1
      (some no_metrics) (refl, refl, refl) (one_byte-AllFit 2 0 5) refl Fits-example runs_example

pub context_example-HasStaged : HasStaged context_example 0 5 10 (2 ∷ []) (0 ∷ []) (5 ∷ [])
context_example-HasStaged =
    context-HasStaged (2 ∷ []) (0 ∷ []) (5 ∷ []) none (one_byte-AllFit 2 0 5)

pub context_example-length : length context_example.memory ≡ 15
unfolding from_limits
context_example-length =
    length-arguments (2 ∷ []) (0 ∷ []) (5 ∷ []) fresh_manager (from_limits-IsValid none) refl
      (one_byte-AllFit 2 0 5)

execute_contract_served_example :
    (mem : List ℕ) × (execute_contract
        (linked byte_memory one_vector)
        small_wire
        byte_json
        byte_json
        (pos 0)
        (pos 5)
        (pos 10)
        (pos 1)
        adds
        (started context_example)
      ≡ (
        ok (length context_example.memory),
        record { manager = stored (1 ∷ 7 ∷ []) context_example; export = some mem },
      ))
unfolding verdict
execute_contract_served_example =
    execute_contract_served byte_memory one_vector small_wire byte_json byte_json 0 5 10 (2 ∷ [])
      (0 ∷ []) (5 ∷ []) adds (pos 1) (started context_example) [] (1 ∷ 7 ∷ [])
      context_example-HasStaged refl roomy_example refl Fits-example
      (omega (arith, context_example-length))
