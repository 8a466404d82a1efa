-- ===== src/Runtime/Linker/Guest.antt =====
-- A contract linked with the host: the functions of src/externf.rs as calls of the imports. The
-- guest's buffers are vectors in its linear memory.
use ave_contract_sdk.Base.{ℕ, ◌≤◌, ◌≡◌, Option, some, List, length}
use ave_contract_sdk.Base.Machine.{ℤ, as_usize, as_i32}
use ave_contract_sdk.Base.Result.{ok, ok_or}
use ave_contract_sdk.Base.Exec.{Exec, ◌>>=◌, ◌>>◌, lift}
use ave_contract_sdk.Sdk.Extern.{Extern}
use ave_contract_sdk.Runtime.Linker.{
  LinearMemory, WasmError, memory_access, growth_failed, Caller, exported, set_export,
  pointer_len_import, alloc_import, read_bytes_import, write_bytes_import,
}

-- The contract's own allocator: it puts a vector of bytes at an address of the linear memory, or finds
-- no room for it. A vector of no more than `capacity` bytes, which may be 0, always finds room.
pub record GuestHeap (lm : LinearMemory) : Type 0 where
  pub capacity : ℕ
  pub place : List ℕ → lm.Mem → Option (ℤ × lm.Mem)
  pub read-place :
      (v : List ℕ) (mem mem' : lm.Mem) (address : ℤ)
      → place v mem ≡ some (address, mem')
      → lm.read (as_usize address) (length v) mem' ≡ some v
  pub has_room :
      (v : List ℕ) (mem : lm.Mem)
      → length v ≤ capacity
      → (address : ℤ) × (mem' : lm.Mem) × (place v mem ≡ some (address, mem'))

module _ (lm : LinearMemory) (heap : GuestHeap lm) where
  -- The vector at its address, in the exported memory, or a trap.
  abbrev pub place_vector : List ℕ → Exec WasmError (Caller lm.Mem) ℤ
  place_vector v = do
    mem ← exported lm "guest"
    placed ← lift (ok_or (growth_failed (length v)) (heap.place v mem))
    set_export lm placed.1
    lift (ok placed.0)

  abbrev pub read_vector : ℤ → ℕ → Exec WasmError (Caller lm.Mem) (List ℕ)
  read_vector address len = do
    mem ← exported lm "guest"
    lift (ok_or memory_access (lm.read (as_usize address) len mem))

  unfoldable pub linked_read_bytes : ℤ → List ℕ → ℤ → Exec WasmError (Caller lm.Mem) (List ℕ)
  linked_read_bytes src_ptr buffer len = do
    address ← place_vector buffer
    read_bytes_import lm src_ptr address len
    read_vector address (length buffer)

  unfoldable pub linked_pointer_len : ℤ → Exec WasmError (Caller lm.Mem) ℤ
  linked_pointer_len pointer = do len ← pointer_len_import lm pointer; lift (ok (as_i32 len))

  unfoldable pub linked_alloc : ℕ → Exec WasmError (Caller lm.Mem) ℤ
  linked_alloc len = do ptr ← alloc_import lm len; lift (ok (as_i32 ptr))

  unfoldable pub linked_write_bytes : ℤ → List ℕ → ℤ → Exec WasmError (Caller lm.Mem) (Unit {0})
  linked_write_bytes dst_ptr bytes len = do
    address ← place_vector bytes
    write_bytes_import lm dst_ptr address len

  abbrev pub linked : Extern
  linked = record {
    Trap = WasmError;
    State = Caller lm.Mem;
    read_bytes = linked_read_bytes;
    pointer_len = linked_pointer_len;
    alloc = linked_alloc;
    write_bytes = linked_write_bytes;
  }
