-- ===== src/Runtime/Memory/Typed.antt =====
-- src/runtime/host.rs: the numbers of the model are those of the code's types: the memory holds
-- bytes, and a pointer or a length fits the `i32` in which a guest gets it.
use ave_contract_sdk.Base.{
  ℕ, zero, suc, ◌+◌, ◌<◌, ◌^◌, ◌≡◌, ◌⊎◌, inl, inr, refl, List, [], ◌∷◌, ◌++◌, All, arith, length,
  take, drop, splice, overwrite, replicate, Option-cases, Bool-cases, leb, ltb,
}
use ave_contract_sdk.Base.Machine.{pos, negsuc, as_isize}
use ave_contract_sdk.Runtime.Memory.{MemoryManager, grown, get_pointer_len}
use ave_contract_sdk.Runtime.Memory.Allocs.{get, get-Regions}
use ave_contract_sdk.Runtime.Memory.Inv.{
  IsValid, Fits-cases, alloc-Fits, alloc_refused, resize-append,
}
use ave_contract_sdk.Runtime.Memory.Blocks.{read_data-block, block_tracked, block_untracked}
use ave_contract_sdk.Runtime.Memory.Writes.{
  write_bytes_at_tracked, write_bytes_tracked, write_untracked,
}
use ave_contract_sdk.Runtime.Memory.BlockStore.{
  Call, Reply, pointer, bytes, number, alloc, read_data, write_bytes, write_bytes_at,
}
use ave_contract_sdk.Runtime.Memory.Refine.{step, step-IsValid, run}

-- `u8`
abbrev pub AreBytes : List ℕ → Type 0
AreBytes = All (λ b. b < 256)

zeros-AreBytes : (n : ℕ) → AreBytes (replicate n 0)
zeros-AreBytes zero = tt
zeros-AreBytes (suc n) = (omega arith, zeros-AreBytes n)

append-AreBytes : (xs ys : List ℕ) → AreBytes xs → AreBytes ys → AreBytes (xs ++ ys)
append-AreBytes [] ys h k = k
append-AreBytes (x ∷ xs) ys (b, h) k = (b, append-AreBytes xs ys h k)

take-AreBytes : (n : ℕ) (xs : List ℕ) → AreBytes xs → AreBytes (take n xs)
take-AreBytes zero xs h = tt
take-AreBytes (suc n) [] h = tt
take-AreBytes (suc n) (x ∷ xs) (b, h) = (b, take-AreBytes n xs h)

drop-AreBytes : (n : ℕ) (xs : List ℕ) → AreBytes xs → AreBytes (drop n xs)
drop-AreBytes zero xs h = h
drop-AreBytes (suc n) [] h = tt
drop-AreBytes (suc n) (x ∷ xs) (b, h) = drop-AreBytes n xs h

overwrite-AreBytes : (xs ys : List ℕ) → AreBytes xs → AreBytes ys → AreBytes (overwrite xs ys)
overwrite-AreBytes [] ys h k = k
overwrite-AreBytes (x ∷ xs) [] h k = tt
overwrite-AreBytes (x ∷ xs) (y ∷ ys) (b, h) (c, k) = (b, overwrite-AreBytes xs ys h k)

splice-AreBytes : (s : ℕ) (xs ys : List ℕ) → AreBytes xs → AreBytes ys → AreBytes (splice s xs ys)
splice-AreBytes zero xs ys h k = overwrite-AreBytes xs ys h k
splice-AreBytes (suc s) xs [] h k = tt
splice-AreBytes (suc s) xs (y ∷ ys) h (c, k) = (c, splice-AreBytes s xs ys h k)

-- The arguments and the results of calls, as far as the code's types and a guest's `i32` allow.
abbrev pub IsTypedCall : Call → Type 0
IsTypedCall (write_bytes p bs) = AreBytes bs
IsTypedCall (write_bytes_at p off bs) = AreBytes bs
IsTypedCall _ = Unit {0}

abbrev pub IsTypedReply : Reply → Type 0
IsTypedReply (pointer p) = p < 2 ^ 31
IsTypedReply (bytes bs) = AreBytes bs
IsTypedReply (number n) = (n ≡ negsuc 0) ⊎ (len : ℕ) × (n ≡ pos len) × (0 < len) × (len < 2 ^ 31)
IsTypedReply _ = Unit {0}

module _ (m : MemoryManager) (v : IsValid m) (h : AreBytes m.memory) where
  alloc_typed :
      (len : ℕ) → IsTypedReply (step (alloc len) m).0 × AreBytes (step (alloc len) m).1.memory
  unfolding step grown
  alloc_typed len = elim (Fits-cases len m) [
    | inl f ↦
        rw (alloc-Fits len m v f, resize-append m.memory len)
          (
            omega (arith, v.within_total, v.total_small),
            append-AreBytes m.memory (replicate len 0) h (zeros-AreBytes len),
          )
    | inr nf ↦ rw (alloc_refused len m v nf) (tt, h)
  ]

  read_data_typed : (p : ℕ) → IsTypedReply (step (read_data p) m).0
  unfolding step
  read_data_typed p = elim (Option-cases (get p m.map)) [
    | inl e ↦ rw (read_data-block p m v, block_untracked p m e) tt
    | inr (len, e) ↦
        rw (read_data-block p m v, (block_tracked p len m v e).0)
          (take-AreBytes len (drop p m.memory) (drop-AreBytes p m.memory h))
  ]

  write_bytes_typed :
      (p : ℕ) (bs : List ℕ)
      → AreBytes bs
      → IsTypedReply (step (write_bytes p bs) m).0 × AreBytes (step (write_bytes p bs) m).1.memory
  unfolding step
  write_bytes_typed p bs k = elim (Option-cases (get p m.map)) [
    | inl e ↦ rw ((write_untracked p 0 bs m e).1) (tt, h)
    | inr (len, e) ↦ elim (Bool-cases (leb (length bs) len)) [
      | inl b ↦ rw (write_bytes_tracked p len bs m v e, b) (tt, splice-AreBytes p bs m.memory k h)
      | inr b ↦ rw (write_bytes_tracked p len bs m v e, b) (tt, h)
    ]
  ]

  write_bytes_at_typed :
      (p off : ℕ) (bs : List ℕ)
      → AreBytes bs
      → IsTypedReply (step (write_bytes_at p off bs) m).0
        × AreBytes (step (write_bytes_at p off bs) m).1.memory
  unfolding step
  write_bytes_at_typed p off bs k = elim (Option-cases (get p m.map)) [
    | inl e ↦ rw ((write_untracked p off bs m e).0) (tt, h)
    | inr (len, e) ↦ elim (Bool-cases (leb (off + length bs) len)) [
      | inl b ↦
          rw (write_bytes_at_tracked p off len bs m v e, b)
            (tt, splice-AreBytes (p + off) bs m.memory k h)
      | inr b ↦ elim (Bool-cases (ltb (p + off + length bs) (2 ^ 64))) [
        | inl c ↦ rw (write_bytes_at_tracked p off len bs m v e, b, c) (tt, h)
        | inr c ↦ rw (write_bytes_at_tracked p off len bs m v e, b, c) (tt, h)
      ]
    ]
  ]

  get_pointer_len_typed : (p : ℕ) → IsTypedReply (step (Call.get_pointer_len p) m).0
  unfolding step get_pointer_len
  get_pointer_len_typed p = elim (Option-cases (get p m.map)) [
    | inl e ↦ rw (e, get_pointer_len) (inl refl)
    | inr (len, e) ↦
        let (positive, within) = get-Regions p m.map (length m.memory) len v.regions e in
        let small : len < 2 ^ 31 = omega (arith, within, v.within_total, v.total_small) in
        let same : as_isize len ≡ pos len = ground (arith, small) in
        rw (e, get_pointer_len, same) (inr (len, refl, positive, small))
  ]

step_typed :
    (c : Call) (m : MemoryManager)
    → IsValid m
    → AreBytes m.memory
    → IsTypedCall c
    → IsTypedReply (step c m).0 × AreBytes (step c m).1.memory
unfolding step
step_typed (alloc len) m v h k = alloc_typed m v h len
step_typed (read_data p) m v h k = (read_data_typed m v h p, h)
step_typed (write_bytes p bs) m v h k = write_bytes_typed m v h p bs k
step_typed (write_bytes_at p off bs) m v h k = write_bytes_at_typed m v h p off bs k
step_typed (Call.get_pointer_len p) m v h k = (get_pointer_len_typed m v h p, h)

-- On a valid memory manager whose memory holds bytes, every sequence of calls that write bytes is
-- answered within the types of the code: what is read are bytes, every pointer is below 2^31, so that a
-- guest gets it in an i32 as it is, and every length is -1 or positive and below 2^31.
pub run-IsTypedReply :
    (cs : List Call) (m : MemoryManager)
    → IsValid m
    → AreBytes m.memory
    → All IsTypedCall cs
    → All IsTypedReply (run cs m)
unfolding run
run-IsTypedReply [] m v h ks = tt
run-IsTypedReply (c ∷ cs) m v h (k, ks) =
    let (typed, h') = step_typed c m v h k in
    (typed, run-IsTypedReply cs (step c m).1 (step-IsValid c m v) h' ks)
