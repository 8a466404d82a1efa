-- ===== src/Bridge/Refusals/Stores.antt =====
-- The stores of a contract of the SDK on the host of src/runtime/host.rs, and how they trap.
use ave_contract_sdk.Base.{
  ℕ, ◌+◌, ◌-◌, ◌^◌, ◌<◌, ◌≡◌, refl, true, false, none, some, List, arith, length, ltb,
  if◌then◌else◌, Option-cases, Bool-cases, inl, inr,
}
use ave_contract_sdk.Base.Text.{String, ◌<>◌, decimal}
use ave_contract_sdk.Base.Result.{Result, ok, err}
use ave_contract_sdk.Sdk.Error.{serialization, integer_overflow, error_text}
use ave_contract_sdk.Sdk.Extern.{trap, error}
use ave_contract_sdk.Sdk.Transfer.{store, serialize, validate_serialized_len, write_host_bytes}
use ave_contract_sdk.Sdk.Steady.{Steady, Stops, IsSome}
use ave_contract_sdk.Runtime.Error.{allocation_too_large, total_memory_exceeded}
use ave_contract_sdk.Runtime.Memory.{MemoryManager, grown}
use ave_contract_sdk.Runtime.Memory.Inv.{IsValid, Fits, Fits-cases, alloc-Fits, alloc_refused}
use ave_contract_sdk.Runtime.Linker.{LinearMemory, contract, growth_failed, Caller, alloc_import}
use ave_contract_sdk.Bridge.Refusals.Calls.{IsRefusal, IsOn, unplaced-Long}
use ave_contract_sdk.Runtime.Linker.Guest.{GuestHeap, linked, linked_alloc, linked_write_bytes}
use ave_contract_sdk.Runtime.Linker.Safe.{Keeps, Keeps-trans, alloc-Keeps, written-Keeps}
use ave_contract_sdk.Runtime.Linker.Served.{alloc_served}
use ave_contract_sdk.Bridge.Store.{stored, store_served}

stored-Keeps :
    (bytes : List ℕ) (m : MemoryManager)
    → IsValid m
    → Fits (length bytes) m
    → Keeps m (stored bytes m)
stored-Keeps bytes m v f =
    let more : Keeps m (grown (length bytes) (length m.memory + length bytes) m) =
      rw (alloc-Fits (length bytes) m v f) at (alloc-Keeps (length bytes) m v) in
    Keeps-trans m (grown (length bytes) (length m.memory + length bytes) m) (stored bytes m) more (
      written-Keeps (length m.memory) bytes
        (grown (length bytes) (length m.memory + length bytes) m) more.valid)

refusal :
    (capacity : ℕ) (start m : MemoryManager) (len : ℕ)
    → Keeps start m
    → ¬ (Fits len m)
    → IsRefusal capacity start (
        contract (
          if ltb m.max_single_alloc len
          then allocation_too_large len m.max_single_alloc
          else total_memory_exceeded (length m.memory + len) m.max_total_memory))
refusal capacity start m len k nf = elim (Bool-cases (ltb m.max_single_alloc len)) [
  | inl big ↦ rw big (k.same_single, ground (arith, big))
  | inr fits ↦ rw fits (k.same_total, ground (arith, fits, nf))
]

module _ (lm : LinearMemory) (heap : GuestHeap lm) (start : MemoryManager) where
  -- What is not encoded, or not within an `i32`, is an error before the host is asked for memory.
  unsent :
      (e : String) (c : Caller lm.Mem)
      → store (linked lm heap) (err e) c
        ≡ (err (error (serialization (error_text (serialization e)))), c)
  unfolding store serialize
  unsent e c = refl

  too_long :
      (bytes : List ℕ) (c : Caller lm.Mem)
      → ltb (2 ^ 31 - 1) (length bytes) ≡ true
      → store (linked lm heap) (ok bytes) c ≡ (
        err (
            error (
              integer_overflow (
                "Serialized data too large: "
                <> decimal (length bytes)
                <> " bytes exceeds i32::MAX"))),
        c,
      )
  unfolding store serialize validate_serialized_len
  too_long bytes c big = rw big refl

  store_refused :
      (bytes : List ℕ) (c : Caller lm.Mem)
      → IsValid c.manager
      → ltb (2 ^ 31 - 1) (length bytes) ≡ false
      → ¬ (Fits (length bytes) c.manager)
      → store (linked lm heap) (ok bytes) c ≡ (
        err (
            trap (
              contract (
                if ltb c.manager.max_single_alloc (length bytes)
                then allocation_too_large (length bytes) c.manager.max_single_alloc
                else total_memory_exceeded
                    (length c.manager.memory + length bytes)
                    c.manager.max_total_memory))),
        c,
      )
  unfolding store serialize validate_serialized_len linked_alloc alloc_import
  store_refused bytes c v small nf = rw (small, alloc_refused (length bytes) c.manager v nf) refl

  -- The manager has taken the allocation, and the guest has no room for the vector.
  store_unplaced :
      (bytes : List ℕ) (c : Caller lm.Mem) (mem : lm.Mem)
      → IsValid c.manager
      → c.export ≡ some mem
      → ltb (2 ^ 31 - 1) (length bytes) ≡ false
      → heap.place bytes mem ≡ none
      → Fits (length bytes) c.manager
      → 0 < length bytes
      → 0 < length c.manager.memory
      → store (linked lm heap) (ok bytes) c ≡ (
        err (trap (growth_failed (length bytes))),
        record c {
          manager = grown (length bytes) (length c.manager.memory + length bytes) c.manager;
        },
      )
  unfolding store serialize validate_serialized_len write_host_bytes linked_write_bytes
  store_unplaced bytes c mem v e small placed f h staged =
      ground (arith, alloc_served lm heap (length bytes) c v f, e, placed, small)

  store_taken :
      (bytes : List ℕ) (c : Caller lm.Mem)
      → IsOn lm start c
      → ltb (2 ^ 31 - 1) (length bytes) ≡ false
      → Fits (length bytes) c.manager
      → 0 < length bytes
      → let (r, c') = store (linked lm heap) (ok bytes) c in
        IsOn lm start c' × Stops (IsRefusal heap.capacity start) r
  store_taken bytes c on small f h = elim (Option-cases (heap.place bytes on.mem)) [
    | inl none_left ↦
        let more : Keeps c.manager
            (grown (length bytes) (length c.manager.memory + length bytes) c.manager) =
          rw (alloc-Fits (length bytes) c.manager on.keeps.valid f) at
            (alloc-Keeps (length bytes) c.manager on.keeps.valid) in
        rw
          (store_unplaced bytes c on.mem on.keeps.valid on.exported small none_left f h
            on.not_empty)
          (
            record {
              keeps = Keeps-trans start c.manager _ on.keeps more;
              mem = on.mem;
              exported = on.exported;
              not_empty = omega (arith, on.not_empty, more.longer);
            },
            unplaced-Long lm heap start bytes on.mem none_left,
          )
    | inr ((address, mem₁), placed) ↦
        let kept = stored-Keeps bytes c.manager on.keeps.valid f in
        rw
          (store_served lm heap bytes c on.mem mem₁ address on.keeps.valid on.exported placed f h
            on.not_empty)
          (
            record {
              keeps = Keeps-trans start c.manager (stored bytes c.manager) on.keeps kept;
              mem = mem₁;
              exported = refl;
              not_empty = omega (arith, on.not_empty, kept.longer);
            },
            tt,
          )
  ]

  pub stores-Steady :
      (encoded : Result String (List ℕ))
      → IsSome encoded
      → Steady (IsRefusal heap.capacity start) (IsOn lm start) (store (linked lm heap) encoded)
  stores-Steady (err e) h c on = rw (unsent e c) (on, tt)
  stores-Steady (ok bytes) h c on = elim (Bool-cases (ltb (2 ^ 31 - 1) (length bytes))) [
    | inl big ↦ rw (too_long bytes c big) (on, tt)
    | inr small ↦ elim (Fits-cases (length bytes) c.manager) [
      | inl f ↦ store_taken bytes c on small f h
      | inr nf ↦
          rw (store_refused bytes c on.keeps.valid small nf)
            (on, refusal heap.capacity start c.manager (length bytes) on.keeps nf)
    ]
  ]
