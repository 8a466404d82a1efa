-- ===== src/Bridge/Refusals/Calls.antt =====
-- The reads of a contract of the SDK on the host of src/runtime/host.rs, and how they trap.
use ave_contract_sdk.Base.{
  ℕ, ◌<◌, ◌≡◌, refl, none, some, List, arith, length, ltb, replicate, slice, Option-cases,
  Bool-cases, inl, inr,
}
use ave_contract_sdk.Base.Machine.{ℤ, pos, as_usize}
use ave_contract_sdk.Base.Result.{err}
use ave_contract_sdk.Sdk.Error.{deserialization}
use ave_contract_sdk.Sdk.Extern.{trap, error}
use ave_contract_sdk.Sdk.Transfer.{get_from_context, validate_host_len, read_host_bytes}
use ave_contract_sdk.Sdk.Steady.{Steady, Stops}
use ave_contract_sdk.Runtime.Error.{allocation_too_large, total_memory_exceeded}
use ave_contract_sdk.Runtime.Memory.{MemoryManager, get_pointer_len}
use ave_contract_sdk.Runtime.Memory.Allocs.{get}
use ave_contract_sdk.Runtime.Memory.Inv.{IsValid}
use ave_contract_sdk.Runtime.Linker.{
  LinearMemory, WasmError, contract, growth_failed, Caller, pointer_len_import, read_bytes_import,
}
use ave_contract_sdk.Runtime.Linker.Guest.{GuestHeap, linked, linked_pointer_len, linked_read_bytes}
use ave_contract_sdk.Runtime.Linker.Safe.{Keeps}
use ave_contract_sdk.Runtime.Linker.Served.{IsServed, tracked-IsServed, pointer_len_served}
use ave_contract_sdk.Bridge.Read.{get_from_context_served}

-- The manager refused an allocation, by one of its two limits, or the guest's own allocator had no
-- room for a buffer, which is longer than its capacity.
abbrev pub IsRefusal : ℕ → MemoryManager → WasmError → Type 0
IsRefusal capacity start (contract (allocation_too_large size max)) =
    (max ≡ start.max_single_alloc) × (max < size)
IsRefusal capacity start (contract (total_memory_exceeded total max)) =
    (max ≡ start.max_total_memory) × (max < total)
IsRefusal capacity start (growth_failed size) = capacity < size
IsRefusal capacity start _ = ⊥

-- A contract on a host that has staged something, whatever the contract has done so far.
pub record IsOn (lm : LinearMemory) (start : MemoryManager) (c : Caller lm.Mem) : Type 0 where
  pub keeps : Keeps start c.manager
  pub mem : lm.Mem
  pub exported : c.export ≡ some mem
  pub not_empty : 0 < length c.manager.memory

module _ (lm : LinearMemory) (heap : GuestHeap lm) (start : MemoryManager) where
  -- The host looks at a pointer as a `usize`.
  same_pointer :
      (p : ℤ) (c : Caller lm.Mem)
      → get_from_context (linked lm heap) p c
        ≡ get_from_context (linked lm heap) (pos (as_usize p)) c
  unfolding get_from_context read_host_bytes linked_pointer_len pointer_len_import linked_read_bytes
      read_bytes_import
  same_pointer p c = refl

  untracked :
      (p : ℕ) (c : Caller lm.Mem)
      → get p c.manager.map ≡ none
      → get_from_context (linked lm heap) (pos p) c
        ≡ (err (error (deserialization "Invalid negative length from host")), c)
  unfolding get_from_context validate_host_len linked_pointer_len pointer_len_import get_pointer_len
  untracked p c e = ground (arith, e)

  -- The guest has no room for a buffer of the block's length.
  read_unplaced :
      (p : ℕ) (b : List ℕ) (c : Caller lm.Mem) (mem : lm.Mem)
      → IsValid c.manager
      → IsServed p b c.manager
      → c.export ≡ some mem
      → heap.place (replicate (length b) 0) mem ≡ none
      → get_from_context (linked lm heap) (pos p) c
        ≡ (err (trap (growth_failed (length (replicate {A = ℕ} (length b) 0)))), c)
  unfolding get_from_context validate_host_len read_host_bytes linked_read_bytes
  read_unplaced p b c mem v s e placed =
      ground (arith, pointer_len_served lm heap p b c v s, e, placed)

  -- Only a vector beyond its capacity finds no room.
  pub unplaced-Long :
      (bytes : List ℕ) (mem : lm.Mem) → heap.place bytes mem ≡ none → heap.capacity < length bytes
  unplaced-Long bytes mem placed = elim (Bool-cases (ltb heap.capacity (length bytes))) [
    | inl long ↦ ground (arith, long)
    | inr short ↦ let (address, mem', found) = heap.has_room bytes mem (ground (arith, short)) in cc
  ]

  read_tracked :
      (p : ℕ) (b : List ℕ) (c : Caller lm.Mem)
      → IsOn lm start c
      → IsServed p b c.manager
      → let (r, c') = get_from_context (linked lm heap) (pos p) c in
        IsOn lm start c' × Stops (IsRefusal heap.capacity start) r
  read_tracked p b c on s = elim (Option-cases (heap.place (replicate (length b) 0) on.mem)) [
    | inl none_left ↦
        rw (read_unplaced p b c on.mem on.keeps.valid s on.exported none_left)
          (on, unplaced-Long (replicate (length b) 0) on.mem none_left)
    | inr ((address, mem₁), placed) ↦
        let (mem', r) =
          get_from_context_served lm heap p b c on.mem mem₁ address on.keeps.valid s on.exported
            placed in
        rw r
          (record { keeps = on.keeps; mem = mem'; exported = refl; not_empty = on.not_empty }, tt)
  ]

  pub reads-Steady :
      (p : ℤ)
      → Steady (IsRefusal heap.capacity start) (IsOn lm start) (get_from_context (linked lm heap) p)
  reads-Steady p c on = elim (Option-cases (get (as_usize p) c.manager.map)) [
    | inl e ↦ rw (same_pointer p c, untracked (as_usize p) c e) (on, tt)
    | inr (len, e) ↦ rw (same_pointer p c) (
        read_tracked (as_usize p) (slice (as_usize p) len c.manager.memory) c on
          (tracked-IsServed (as_usize p) len c.manager on.keeps.valid e))
  ]
