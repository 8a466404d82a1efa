-- ===== src/Runtime/Linker.antt =====
-- src/runtime/host.rs: `generate_linker`, the imports `pointer_len`, `alloc`, `read_bytes` and
-- `write_bytes` of a guest, over the host's `MemoryManager` and the guest's linear memory.
pub mod Guest
pub mod Served
pub mod Safe
pub mod Live
pub mod Setup
use ave_contract_sdk.Base.{
  ℕ, ◌%◌, ◌^◌, ◌+◌, ◌≤◌, ◌≡◌, Option, none, some, List, length, overwrite, if◌then◌else◌,
}
use ave_contract_sdk.Base.Machine.{ℤ, as_usize, as_u32, as_i32}
use ave_contract_sdk.Base.Text.{String}
use ave_contract_sdk.Base.Result.{Result, ok, err, ok_or}
use ave_contract_sdk.Base.Exec.{Exec, ◌>>=◌, ◌>>◌, lift, gets, map_err}
use ave_contract_sdk.Runtime.Error.{ContractError, linker_error}
use ave_contract_sdk.Runtime.Memory.{
  MemoryManager, alloc, read_bytes, write_bytes, get_pointer_len, checked_guest_len,
}

-- `wasmtime::Memory`: `read` and `write` are refused out of bounds.
pub record LinearMemory : Type 1 where
  pub Mem : Type 0
  pub read : ℕ → ℕ → Mem → Option (List ℕ)
  pub write : ℕ → List ℕ → Mem → Option Mem
  -- Where `n` bytes can be read, as many or fewer can be written, and are then read back in front
  -- of the bytes behind them.
  pub write-read :
      (a n : ℕ) (old bytes : List ℕ) (mem : Mem)
      → read a n mem ≡ some old
      → length bytes ≤ n
      → (mem' : Mem) × (write a bytes mem ≡ some mem')
        × (read a n mem' ≡ some (overwrite bytes old))

-- What ends a guest's call of an import, or the guest on its way to one.
pub data WasmError : Type 0 where
  contract : ContractError → WasmError
  memory_access : WasmError
  -- The guest's own allocator found no room for a buffer of this length: its linear memory cannot
  -- grow further, under `memory_size` and `trap_on_grow_failure`.
  growth_failed : ℕ → WasmError

-- `Caller<MemoryManager>`: the store's data, and the export named "memory", if the guest has it.
pub record Caller (Mem : Type 0) : Type 0 where
  pub manager : MemoryManager
  pub export : Option Mem

module _ (lm : LinearMemory) where
  open lm use {Mem, read, write}

  -- A call of the manager, its errors turned into wasmtime's.
  abbrev pub with_manager :
      {A : Type 0} → Exec ContractError MemoryManager A → Exec WasmError (Caller Mem) A
  with_manager m c = let (r, d) = map_err contract m c.manager in (r, record c { manager = d })

  abbrev pub exported : String → Exec WasmError (Caller Mem) Mem
  exported function =
      gets λ c. ok_or (contract (linker_error function "memory export not found")) c.export

  abbrev pub set_export : Mem → Exec WasmError (Caller Mem) (Unit {0})
  set_export mem c = (ok tt, record c { export = some mem })

  unfoldable pub pointer_len_import : ℤ → Exec WasmError (Caller Mem) ℕ
  pointer_len_import pointer c = (ok (as_u32 (get_pointer_len (as_usize pointer) c.manager)), c)

  unfoldable pub alloc_import : ℕ → Exec WasmError (Caller Mem) ℕ
  alloc_import len = do ptr ← with_manager (alloc len); lift (ok (ptr % 2 ^ 32))

  unfoldable pub read_bytes_import : ℤ → ℤ → ℤ → Exec WasmError (Caller Mem) (Unit {0})
  read_bytes_import src_ptr dst_ptr len = do
    n ← with_manager (gets λ m. checked_guest_len len m.max_single_alloc)
    bytes ← with_manager (gets (read_bytes (as_usize src_ptr) n))
    mem ← exported "read_bytes"
    mem' ← lift (ok_or memory_access (write (as_usize dst_ptr) bytes mem))
    set_export mem'

  unfoldable pub write_bytes_import : ℤ → ℤ → ℤ → Exec WasmError (Caller Mem) (Unit {0})
  write_bytes_import dst_ptr src_ptr len = do
    n ← with_manager (gets λ m. checked_guest_len len m.max_single_alloc)
    mem ← exported "write_bytes"
    buf ← lift (ok_or memory_access (read (as_usize src_ptr) n mem))
    with_manager (write_bytes (as_usize dst_ptr) buf)
