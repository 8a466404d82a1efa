-- ===== src/Runtime/Memory/Writes.antt =====
-- What the writes of `MemoryManager` do on every branch, and that each keeps the invariant.
use ave_contract_sdk.Base.{
  ℕ, ◌+◌, ◌^◌, ◌≡◌, none, some, List, arith, ltb, leb, if◌then◌else◌, length, splice, length-splice,
  Option-cases, inl, inr,
}
use ave_contract_sdk.Base.Result.{ok, err}
use ave_contract_sdk.Runtime.Error.{invalid_pointer, write_out_of_bounds}
use ave_contract_sdk.Runtime.Memory.Allocs.{get, get-Regions}
use ave_contract_sdk.Runtime.Memory.{MemoryManager, alloc, write_bytes, write_bytes_at}
use ave_contract_sdk.Runtime.Memory.Inv.{
  IsValid, Fits-cases, alloc-Fits, alloc_refused, grown-IsValid,
}

-- The manager with `bytes` copied in at `start`.
abbrev pub written : ℕ → List ℕ → MemoryManager → MemoryManager
written start bytes m = record m { memory = splice start bytes m.memory }

pub written-IsValid :
    (start : ℕ) (bytes : List ℕ) (m : MemoryManager) → IsValid m → IsValid (written start bytes m)
written-IsValid start bytes m v = ground (arith, length-splice start bytes m.memory)

-- A write at an offset into a tracked allocation: within it the bytes are copied, past its end the
-- write is refused with the offset of its end, and a sum past 2 ^ 64 is a bad pointer.
pub write_bytes_at_tracked :
    (p off len : ℕ) (bytes : List ℕ) (m : MemoryManager)
    → IsValid m
    → get p m.map ≡ some len
    → write_bytes_at p off bytes m ≡ (
        if leb (off + length bytes) len
        then (ok tt, written (p + off) bytes m)
        else if ltb (p + off + length bytes) (2 ^ 64)
        then (err (write_out_of_bounds (off + length bytes) len), m)
        else (err (invalid_pointer p), m))
unfolding write_bytes_at
write_bytes_at_tracked p off len bytes m v e =
    ground (arith, get-Regions p m.map (length m.memory) len v.regions e)

pub write_bytes_tracked :
    (p len : ℕ) (bytes : List ℕ) (m : MemoryManager)
    → IsValid m
    → get p m.map ≡ some len
    → write_bytes p bytes m ≡ (
        if leb (length bytes) len
        then (ok tt, written p bytes m)
        else (err (write_out_of_bounds (length bytes) len), m))
unfolding write_bytes
write_bytes_tracked p len bytes m v e =
    ground (arith, get-Regions p m.map (length m.memory) len v.regions e)

pub write_untracked :
    (p off : ℕ) (bytes : List ℕ) (m : MemoryManager)
    → get p m.map ≡ none
    → (write_bytes_at p off bytes m ≡ (err (invalid_pointer p), m))
      × (write_bytes p bytes m ≡ (err (invalid_pointer p), m))
unfolding write_bytes_at write_bytes
write_untracked p off bytes m e = ground arith

pub write_bytes_at-IsValid :
    (p off : ℕ) (bytes : List ℕ) (m : MemoryManager)
    → IsValid m
    → IsValid (write_bytes_at p off bytes m).1
write_bytes_at-IsValid p off bytes m v = elim (Option-cases (get p m.map)) [
  | inl e ↦ rw ((write_untracked p off bytes m e).0) v
  | inr (len, e) ↦
      ground
        (arith, write_bytes_at_tracked p off len bytes m v e, written-IsValid (p + off) bytes m v)
]

pub write_bytes-IsValid :
    (p : ℕ) (bytes : List ℕ) (m : MemoryManager) → IsValid m → IsValid (write_bytes p bytes m).1
write_bytes-IsValid p bytes m v = elim (Option-cases (get p m.map)) [
  | inl e ↦ rw ((write_untracked p 0 bytes m e).1) v
  | inr (len, e) ↦
      ground (arith, write_bytes_tracked p len bytes m v e, written-IsValid p bytes m v)
]

pub alloc-IsValid : (len : ℕ) (m : MemoryManager) → IsValid m → IsValid (alloc len m).1
alloc-IsValid len m v = elim (Fits-cases len m) [
  | inl f ↦ rw (alloc-Fits len m v f) (grown-IsValid len m v f)
  | inr nf ↦ rw (alloc_refused len m v nf) v
]
