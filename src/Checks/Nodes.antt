-- ===== src/Checks/Nodes.antt =====
-- The theorems on runs of several events, and on several machines, at small inputs.
use ave_contract_sdk.Base.{ℕ, ◌≡◌, refl, true, false, Option, none, some, List, [], ◌∷◌, arith}
use ave_contract_sdk.Base.Text.{String}
use ave_contract_sdk.Runtime.Config.{ResolvedMachineSpec, limits_of_spec}
use ave_contract_sdk.Runtime.Memory.{from_limits, grown}
use ave_contract_sdk.Runtime.Memory.Inv.{from_limits-IsValid}
use ave_contract_sdk.Runtime.Metrics.{ContractMetrics, new}
use ave_contract_sdk.Runtime.Execute.InStep.{execute_all_observations}
use ave_contract_sdk.Runtime.Execute.Session.{Request, labelled, execute_all}
use ave_contract_sdk.Bridge.Verdict.{verdict}
use ave_contract_sdk.Bridge.Event.{fresh, context}
use ave_contract_sdk.Runtime.Staging.Arguments.{AllFit, length-arguments}
use ave_contract_sdk.Runtime.Config.Limits.{limits_of_spec-IsWithinFleet}
use ave_contract_sdk.Bridge.Agree.{Node, IsAble, executed, execute_agrees}
use ave_contract_sdk.Checks.Host.{
  byte_memory, one_vector, own_order, small_wire, byte_json, counting, no_metrics,
}
use ave_contract_sdk.Checks.Guest.{adds, run_adds, small_engine}

abbrev two_events : List (Request (Unit {0}) ℕ ℕ)
two_events =
    record { compiled = tt; state = 2; init_state = 0; event = 5; is_owner = true; elapsed = 1 }
    ∷ record { compiled = tt; state = 7; init_state = 0; event = 4; is_owner = false; elapsed = 2 }
    ∷ []

execute_all_observations_example :
    (after : ContractMetrics counting) × ((execute_all counting small_wire byte_json small_engine
        (limits_of_spec none)
        two_events
        (some (new counting))).1
      ≡ some after)
    × ((k : String)
        → after.contract_execution_seconds k
          ≡ labelled k
              (execute_all counting small_wire byte_json small_engine
                (limits_of_spec none)
                two_events
                (some (new counting))).0)
    × ((k : String) → after.contract_memory_peak_bytes k ≡ after.contract_fuel_consumed k)
execute_all_observations_example =
    execute_all_observations counting small_wire byte_json small_engine (limits_of_spec none)
      two_events

-- A machine of any size, with metrics or without.
abbrev pub node : Option ResolvedMachineSpec → Option (ContractMetrics counting) → Node
node spec metrics = record {
  spec = spec;
  lm = byte_memory;
  heap = one_vector;
  engine = small_engine;
  order = own_order;
  compiled = tt;
  prometheus = counting;
  metrics = metrics;
  elapsed = 1;
}

bytes-AllFit : (spec : Option ResolvedMachineSpec) → AllFit (2 ∷ []) (0 ∷ []) (5 ∷ []) (fresh spec)
unfolding from_limits
bytes-AllFit spec =
    let l = limits_of_spec-IsWithinFleet spec in
    record {
      first = omega (arith, l.some_alloc, l.alloc_fits);
      second = omega (arith, l.some_alloc, l.alloc_fits);
      third = omega (arith, l.some_alloc, l.alloc_fits);
      total = omega (arith, l.some_alloc, l.alloc_fits);
    }

abbrev Able : Node → Type 0
Able =
    IsAble small_wire byte_json byte_json byte_json adds 2 0 5 true (2 ∷ []) (0 ∷ []) (5 ∷ [])
      (1 ∷ 7 ∷ [])

node-IsAble :
    (spec : Option ResolvedMachineSpec) (metrics : Option (ContractMetrics counting))
    → Able (node spec metrics)
unfolding from_limits grown
node-IsAble spec metrics =
    let l = limits_of_spec-IsWithinFleet spec in
    let fit = bytes-AllFit spec in
    let size =
      length-arguments (2 ∷ []) (0 ∷ []) (5 ∷ []) (fresh spec) (from_limits-IsValid spec) refl
        fit in
    let m = context (2 ∷ []) (0 ∷ []) (5 ∷ []) spec fit in
    record {
      fit = fit;
      room = (
        omega (arith, l.some_alloc, l.alloc_fits),
        omega (arith, size, l.some_alloc, l.alloc_fits),
      );
      runs = record {
        instance = m;
        entry = run_adds m;
        memory = [];
        roomy = omega (arith, l.alloc_fits, l.total_bounded);
        fuelled = refl;
        instantiated = refl;
        entry_found = refl;
        runs = λ ptr c h. (rw h refl, rw h refl);
      };
    }

execute_agrees_example :
    executed small_wire byte_json byte_json byte_json adds 2 0 5 true
      (2 ∷ [])
      (0 ∷ [])
      (5 ∷ [])
      (1 ∷ 7 ∷ [])
      (node none (some no_metrics))
    ≡ executed small_wire byte_json byte_json byte_json adds 2 0 5 true
        (2 ∷ [])
        (0 ∷ [])
        (5 ∷ [])
        (1 ∷ 7 ∷ [])
        (node (some (record { ram_mb = 256; cpu_cores = 1 })) none)
unfolding verdict
execute_agrees_example =
    execute_agrees small_wire byte_json byte_json byte_json adds 2 0 5 true (2 ∷ []) (0 ∷ [])
      (5 ∷ []) (1 ∷ 7 ∷ []) (node none (some no_metrics))
      (node (some (record { ram_mb = 256; cpu_cores = 1 })) none) (refl, refl, refl) refl
      (node-IsAble none (some no_metrics))
      (node-IsAble (some (record { ram_mb = 256; cpu_cores = 1 })) none)
