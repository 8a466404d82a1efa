-- ===== src/Checks/HostileInit.antt =====
-- A module whose initial check keeps to no protocol: it returns the pointer of two zeros.
use ave_contract_sdk.Base.{ℕ, ◌≡◌, refl, ◌∙◌, ap, none, some}
use ave_contract_sdk.Base.Text.{String}
use ave_contract_sdk.Base.Result.{Result, ok}
use ave_contract_sdk.Runtime.Config.{limits_of_spec, default, build}
use ave_contract_sdk.Runtime.Memory
use ave_contract_sdk.Runtime.Memory.{MemoryManager, from_limits, resize, grown}
use ave_contract_sdk.Runtime.Imports.{check_imports, check_loop}
use ave_contract_sdk.Runtime.Linker.{alloc_import}
use ave_contract_sdk.Runtime.Linker.Safe.{Keeps, and_then, begin, calls_alloc}
use ave_contract_sdk.Runtime.Staging.{generate_context, write_contract_data}
use ave_contract_sdk.Runtime.Engine.{Engine, Finished}
use ave_contract_sdk.Runtime.Validate.{check_init_result, run_init_check, validate_inner, validate}
use ave_contract_sdk.Runtime.Validate.Hostile.{IsInitSandbox, IsPassed, validate_hostile}
use ave_contract_sdk.Checks.Host.{byte_memory, own_order, small_wire, byte_json}
use ave_contract_sdk.Checks.Guest.{started, finish, small_engine}
use ave_contract_sdk.Checks.Hostile.{finish_manager}

abbrev pub check_zeros : MemoryManager → ℕ → Finished
check_zeros m p = finish (alloc_import byte_memory 2 (started m))

abbrev pub zeros_engine : Engine
zeros_engine = record small_engine { init_check_function = λ m. some (check_zeros m) }

ran_zeros :
    (m m' : MemoryManager) (entry : ℕ → Finished) (p : ℕ)
    → ◌≡◌ {A = Result String MemoryManager} (ok m) (ok m')
    → some (check_zeros m') ≡ some entry
    → (entry p).manager ≡ (alloc_import byte_memory 2 (started m)).1.manager
ran_zeros m m' entry p made entered =
    let same_manager : m' ≡ m = cc in
    let same_entry : entry ≡ check_zeros m' = cc in
    ap (λ (f : ℕ → Finished). (f p).manager) same_entry
    ∙ finish_manager (alloc_import byte_memory 2 (started m'))
    ∙ ap (λ (n : MemoryManager). (alloc_import byte_memory 2 (started n)).1.manager) same_manager

zeros-IsInitSandbox : IsInitSandbox byte_memory zeros_engine
zeros-IsInitSandbox = record {
  confined = λ compiled m fuel instance entry p made entered. (
    started m,
    (alloc_import byte_memory 2 (started m)).1,
    refl,
    and_then begin (calls_alloc 2 (started m)),
    ran_zeros m instance entry p made entered,
  );
}

pub validated_zeros :
    validate small_wire byte_json zeros_engine own_order (limits_of_spec none) tt 2 ≡ ok tt
unfolding validate validate_inner check_imports check_loop run_init_check check_init_result
    generate_context write_contract_data from_limits limits_of_spec default build Memory.alloc
    Memory.write_bytes_at Memory.read_data Memory.read_bytes resize grown alloc_import
validated_zeros = refl

validate_hostile_example :
    (finished : Finished) × (ptr : ℕ) × (run_init_check small_wire byte_json zeros_engine
        (limits_of_spec none)
        tt
        2
      ≡ ok finished)
    × (finished.call_result ≡ ok ptr)
    × Keeps (generate_context byte_json 2 (limits_of_spec none)).1 finished.manager
    × IsPassed small_wire finished.manager ptr (from_limits (limits_of_spec none)).max_single_alloc
validate_hostile_example =
    validate_hostile byte_memory zeros_engine small_wire byte_json none tt 2 own_order
      zeros-IsInitSandbox validated_zeros
