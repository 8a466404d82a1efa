-- ===== src/Checks/Hostile.antt =====
-- A module that keeps to no protocol: it returns the pointer of two zeros.
use ave_contract_sdk.Base.{ℕ, ◌≡◌, refl, ◌∙◌, ap, true, false, none, some, List}
use ave_contract_sdk.Base.Text.{String}
use ave_contract_sdk.Base.Result.{Result, ok, err}
use ave_contract_sdk.Runtime.Config.{limits_of_spec, default, build}
use ave_contract_sdk.Runtime.Memory
use ave_contract_sdk.Runtime.Memory.{MemoryManager, from_limits, resize, grown, checked_guest_len}
use ave_contract_sdk.Runtime.Linker.{WasmError, Caller, alloc_import}
use ave_contract_sdk.Runtime.Linker.Safe.{Keeps, and_then, begin, calls_alloc}
use ave_contract_sdk.Runtime.Staging.{generate_execution_context, write_contract_data}
use ave_contract_sdk.Runtime.Engine.{Engine, Finished}
use ave_contract_sdk.Runtime.Execute.{
  ExecutionResult, ExecutionStats, get_execution_result, conclude, run_main, execute_inner, execute,
}
use ave_contract_sdk.Runtime.Execute.Hostile.{
  IsSandbox, IsDecoded, IsConsumed, IsSize, execute_hostile,
}
use ave_contract_sdk.Checks.Host.{byte_memory, small_wire, byte_json, counting}
use ave_contract_sdk.Checks.Guest.{started, finish, small_engine}

abbrev run_zeros : MemoryManager → ℕ → ℕ → ℕ → ℕ → Finished
run_zeros m p q r o = finish (alloc_import byte_memory 2 (started m))

abbrev zeros_engine : Engine
zeros_engine = record small_engine { main_function = λ m. some (run_zeros m) }

pub finish_manager :
    (left : Result WasmError ℕ × Caller (List ℕ)) → (finish left).manager ≡ left.1.manager
finish_manager (ok ptr, c) = refl
finish_manager (err e, c) = refl

ran_zeros :
    (m m' : MemoryManager) (entry : ℕ → ℕ → ℕ → ℕ → Finished) (p q r o : ℕ)
    → ◌≡◌ {A = Result String MemoryManager} (ok m) (ok m')
    → some (run_zeros m') ≡ some entry
    → (entry p q r o).manager ≡ (alloc_import byte_memory 2 (started m)).1.manager
ran_zeros m m' entry p q r o made entered =
    let same_manager : m' ≡ m = cc in
    let same_entry : entry ≡ run_zeros m' = cc in
    ap (λ (f : ℕ → ℕ → ℕ → ℕ → Finished). (f p q r o).manager) same_entry
    ∙ finish_manager (alloc_import byte_memory 2 (started m'))
    ∙ ap (λ (n : MemoryManager). (alloc_import byte_memory 2 (started n)).1.manager) same_manager

zeros-IsSandbox : IsSandbox byte_memory zeros_engine
zeros-IsSandbox = record {
  confined = λ compiled m fuel instance entry p q r o made entered. (
    started m,
    (alloc_import byte_memory 2 (started m)).1,
    refl,
    and_then begin (calls_alloc 2 (started m)),
    ran_zeros m instance entry p q r o made entered,
  );
}

abbrev zero : ExecutionResult ℕ
zero = record { final_state = 0; success = false; error = "" }

abbrev spent : ExecutionStats
spent = record { fuel_consumed = 1_000_000; memory_bytes = 1_114_112; fuel_exhausted = false }

executed_zeros :
    (execute counting small_wire byte_json zeros_engine
      (limits_of_spec none)
      tt
      2
      0
      5
      true
      1
      none).0
    ≡ ok (zero, spent)
unfolding execute execute_inner run_main conclude get_execution_result generate_execution_context
    write_contract_data from_limits limits_of_spec default build Memory.alloc Memory.write_bytes_at
    Memory.write_bytes Memory.read_data Memory.read_bytes resize grown alloc_import
executed_zeros = refl

execute_hostile_example :
    (finished : Finished) × (ptr : ℕ) × (run_main byte_json zeros_engine
        (limits_of_spec none)
        tt
        2
        0
        5
        true
      ≡ ok finished)
    × (finished.call_result ≡ ok ptr)
    × Keeps (generate_execution_context byte_json 2 0 5 (limits_of_spec none)).1 finished.manager
    × IsDecoded small_wire byte_json finished.manager ptr
        (from_limits (limits_of_spec none)).max_single_alloc
        zero
    × IsConsumed finished.fuel_left 1_000_000
    × IsSize finished.memory_pages 1_114_112
execute_hostile_example =
    execute_hostile byte_memory zeros_engine counting small_wire byte_json none tt 2 0 5 true 1 none
      zero spent zeros-IsSandbox executed_zeros
