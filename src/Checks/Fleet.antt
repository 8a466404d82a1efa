-- ===== src/Checks/Fleet.antt =====
-- The validation of a small module on machines of two sizes.
use ave_contract_sdk.Base.{refl, Option, none, some, [], ◌∷◌, arith}
use ave_contract_sdk.Runtime.Config.{ResolvedMachineSpec, limits_of_spec}
use ave_contract_sdk.Runtime.Config.Limits.{limits_of_spec-IsWithinFleet}
use ave_contract_sdk.Runtime.Memory.{MemoryManager, from_limits, grown}
use ave_contract_sdk.Runtime.Staging.Laws.{staged, length-staged}
use ave_contract_sdk.Bridge.Verdict.{init_verdict}
use ave_contract_sdk.Bridge.Agree.Validation.{SameVerdict, IsInitAble, validated, validate_agrees}
use ave_contract_sdk.Checks.Host.{small_wire, byte_json}
use ave_contract_sdk.Checks.Guest.{init_accepts, run_adds, run_init}
use ave_contract_sdk.Checks.Nodes.{node}

node-IsInitAble :
    (spec : Option ResolvedMachineSpec)
    → IsInitAble small_wire byte_json byte_json init_accepts 2 (2 ∷ []) (1 ∷ []) (node spec none)
unfolding from_limits grown
node-IsInitAble spec =
    let l = limits_of_spec-IsWithinFleet spec in
    let m : MemoryManager = from_limits (limits_of_spec spec) in
    record {
      fit = (omega (arith, l.some_alloc, l.alloc_fits), omega (arith, l.some_alloc, l.alloc_fits));
      room = (
        omega (arith, l.some_alloc, l.alloc_fits),
        omega (arith, length-staged (2 ∷ []) m, l.some_alloc, l.alloc_fits),
      );
      runs = record {
        instance = staged (2 ∷ []) m;
        main = run_adds (staged (2 ∷ []) m);
        entry = run_init (staged (2 ∷ []) m);
        memory = [];
        roomy = omega (arith, l.alloc_fits, l.total_bounded);
        fuelled = refl;
        instantiated = refl;
        main_found = refl;
        entry_found = refl;
        runs = λ ptr c h. (rw h refl, rw h refl);
      };
    }

abbrev small_machine : Option ResolvedMachineSpec
small_machine = some (record { ram_mb = 256; cpu_cores = 1 })

validate_agrees_example :
    SameVerdict
      (validated small_wire byte_json byte_json init_accepts 2 (2 ∷ []) (1 ∷ []) (node none none))
      (validated small_wire byte_json byte_json init_accepts 2
        (2 ∷ [])
        (1 ∷ [])
        (node small_machine none))
unfolding init_verdict
validate_agrees_example =
    validate_agrees small_wire byte_json byte_json init_accepts 2 (2 ∷ []) (1 ∷ []) (node none none)
      (node small_machine none) refl refl refl
      (λ exact. (node-IsInitAble none, node-IsInitAble small_machine))
