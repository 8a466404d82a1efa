-- ===== src/Runtime/Memory/Blocks.antt =====
-- What a `MemoryManager` means: a store of separate blocks, each at its pointer. The operations
-- of the manager act on one block and leave the others, though all share one vector of bytes.
use mathlib.Core.Option
use mathlib.Core.Option.{some-injective}
use ave_contract_sdk.Base.{
  ℕ, ◌+◌, ◌-◌, ◌≤◌, ◌≡◌, ap, Option, none, some, List, ◌++◌, sym, ◌∙◌, arith, ltb, ◌==◌,
  if◌then◌else◌, ◌&&◌, length, replicate, splice, slice, length-replicate, slice-append,
  slice-append_right, slice-splice, slice-splice_before, slice-splice_behind, length-slice,
  overwrite_all, Option-cases, inl, inr,
}
use ave_contract_sdk.Base.Result.{ok_or}
use ave_contract_sdk.Runtime.Error.{invalid_pointer}
use ave_contract_sdk.Runtime.Memory.Allocs.{get, get-Regions, Regions-disjoint, remove_end}
use ave_contract_sdk.Runtime.Memory.{MemoryManager, grown, read_data}
use ave_contract_sdk.Runtime.Memory.Inv.{IsValid, resize-append}

unfoldable pub block : MemoryManager → ℕ → Option (List ℕ)
block m p = Option.map (λ l. slice p l m.memory) (get p m.map)

-- What a tracked pointer's block is.
pub block_tracked :
    (p len : ℕ) (m : MemoryManager)
    → IsValid m
    → get p m.map ≡ some len
    → (block m p ≡ some (slice p len m.memory)) × (length (slice p len m.memory) ≡ len)
unfolding block
block_tracked p len m v e =
    ground
      (arith, get-Regions p m.map (length m.memory) len v.regions e, length-slice p len m.memory)

pub block_untracked : (p : ℕ) (m : MemoryManager) → get p m.map ≡ none → block m p ≡ none
unfolding block
block_untracked p m e = ground arith

slice_cast : (p l k : ℕ) (ys : List ℕ) → k ≡ l → slice p k ys ≡ slice p l ys
slice_cast p l k ys e = ap (λ (n : ℕ). slice p n ys) e

-- In a valid manager `read_data` returns the block at the pointer, and refuses any other pointer.
pub read_data-block :
    (p : ℕ) (m : MemoryManager) → IsValid m → read_data p m ≡ ok_or (invalid_pointer p) (block m p)
unfolding read_data block
read_data-block p m v = elim (Option-cases (get p m.map)) [
  | inl e ↦ rw e
  | inr (l, e) ↦ ground (
    arith,
    get-Regions p m.map (length m.memory) l v.regions e,
    slice_cast p l (p + l - p) m.memory (omega arith),
  )
]

slice-resize : (ys : List ℕ) (n : ℕ) → slice (length ys) n (ys ++ replicate n 0) ≡ replicate n 0
slice-resize ys n =
    slice_cast (length ys) (length (replicate {A = ℕ} n 0)) n (ys ++ replicate n 0)
      (sym (length-replicate {A = ℕ} n 0))
    ∙ slice-append_right ys (replicate n 0)

-- `alloc` adds a block of zeros at its pointer, which was no block before, and changes no other.
-- An empty allocation adds none.
pub block-grown :
    (len q : ℕ) (m : MemoryManager)
    → IsValid m
    → block (grown len (length m.memory + len) m) q
      ≡ (if q == length m.memory && ltb 0 len then some (replicate len 0) else block m q)
unfolding block grown
block-grown len q m v = elim (Option-cases (get q m.map)) [
  | inl e ↦ ground (
    arith,
    resize-append m.memory len,
    remove_end (length m.memory) m.map (length m.memory),
    slice-resize m.memory len,
  )
  | inr (l, e) ↦ ground (
    arith,
    resize-append m.memory len,
    remove_end (length m.memory) m.map (length m.memory),
    get-Regions q m.map (length m.memory) l v.regions e,
    slice-append q l m.memory (replicate len 0),
  )
]

-- A write inside a block changes that block alone.
pub block-splice :
    (p off len q : ℕ) (bytes : List ℕ) (m : MemoryManager)
    → IsValid m
    → get p m.map ≡ some len
    → off + length bytes ≤ len
    → block (record m { memory = splice (p + off) bytes m.memory }) q
      ≡ (if q == p then some (splice off bytes (slice p len m.memory)) else block m q)
unfolding block
block-splice p off len q bytes m v e h = elim (Option-cases (get q m.map)) [
  | inl e' ↦ ground arith
  | inr (l, e') ↦ ground (
    arith,
    slice-splice p len off bytes m.memory h,
    Regions-disjoint p q m.map (length m.memory) len l v.regions e e',
    slice-splice_before q l (p + off) bytes m.memory,
    slice-splice_behind q l (p + off) bytes m.memory,
  )
]

-- A write over a whole block makes it the bytes written.
pub block-splice_whole :
    (p q : ℕ) (bytes : List ℕ) (m : MemoryManager)
    → IsValid m
    → get p m.map ≡ some (length bytes)
    → block (record m { memory = splice p bytes m.memory }) q
      ≡ (if q == p then some bytes else block m q)
block-splice_whole p q bytes m v e =
    let zero_off : p + 0 ≡ p = omega arith in
    let whole : p + length bytes ≤ length m.memory =
      (get-Regions p m.map (length m.memory) (length bytes) v.regions e).1 in
    let size = length-slice p (length bytes) m.memory whole in
    ground (
      arith,
      block-splice p 0 (length bytes) q bytes m v e (omega arith),
      ap (λ (k : ℕ). block (record m { memory = splice k bytes m.memory }) q) zero_off,
      overwrite_all bytes (slice p (length bytes) m.memory) (sym size),
    )

-- A write inside the block `b`, in terms of its bytes.
pub block-splice_of :
    (p off q : ℕ) (bytes b : List ℕ) (m : MemoryManager)
    → IsValid m
    → block m p ≡ some b
    → off + length bytes ≤ length b
    → block (record m { memory = splice (p + off) bytes m.memory }) q
      ≡ (if q == p then some (splice off bytes b) else block m q)
block-splice_of p off q bytes b m v e h = elim (Option-cases (get p m.map)) [
  | inl n ↦ absurd (none_eq_some (sym (block_untracked p m n) ∙ e))
  | inr (l, t) ↦
      let (is_slice, size) = block_tracked p l m v t in
      let same : slice p l m.memory ≡ b = some-injective _ _ (sym is_slice ∙ e) in
      let size' : length b ≡ l = ap length (sym same) ∙ size in
      ground (arith, block-splice p off l q bytes m v t (omega (arith, size')), same)
]
  where
    none_eq_some : ◌≡◌ {A = Option (List ℕ)} none (some b) → ⊥
    none_eq_some k = cc
