-- ===== src/Runtime/Linker/Served.antt =====
-- What a linked contract gets from the host: whole blocks, and fresh blocks for its results.
use ave_contract_sdk.Base.{
  ℕ, ◌+◌, ◌-◌, ◌≤◌, ◌<◌, ◌≡◌, refl, sym, ap, ◌∙◌, Option, none, some, List, arith, length,
  replicate, overwrite, slice, length-slice, length-replicate, overwrite_all, Option-cases, inl,
  inr,
}
use mathlib.Core.Path.{subst}
use mathlib.Core.Option.{some-injective}
use ave_contract_sdk.Base.Machine.{ℤ, pos, as_usize, as_i32}
use ave_contract_sdk.Base.Result.{ok}
use ave_contract_sdk.Runtime.Memory.Allocs.{get, get-Regions, get-Sized}
use ave_contract_sdk.Runtime.Memory.{
  MemoryManager, grown, read_bytes, write_bytes, get_pointer_len, checked_guest_len,
}
use ave_contract_sdk.Runtime.Memory.Inv.{IsValid, Fits, alloc-Fits}
use ave_contract_sdk.Runtime.Memory.Blocks.{block}
use ave_contract_sdk.Runtime.Memory.Writes.{written}
use ave_contract_sdk.Runtime.Linker.{
  LinearMemory, Caller, pointer_len_import, alloc_import, read_bytes_import, write_bytes_import,
}
use ave_contract_sdk.Runtime.Linker.Guest.{
  GuestHeap, linked_read_bytes, linked_pointer_len, linked_alloc, linked_write_bytes,
}

-- A tracked block lies within every limit, and the calls on it.
pub record IsServed (p : ℕ) (b : List ℕ) (m : MemoryManager) : Type 0 where
  pub tracked : get p m.map ≡ some (length b)
  pub stored : slice p (length b) m.memory ≡ b
  pub in_memory : p + length b ≤ length m.memory
  pub small : length b ≤ m.max_single_alloc
  pub not_empty : 0 < length b

pub tracked-IsServed :
    (p l : ℕ) (m : MemoryManager)
    → IsValid m
    → get p m.map ≡ some l
    → IsServed p (slice p l m.memory) m
tracked-IsServed p l m v t =
    let (pos_l, within) = get-Regions p m.map (length m.memory) l v.regions t in
    let size : length (slice p l m.memory) ≡ l = length-slice p l m.memory within in
    record {
      tracked = rw size t;
      stored = rw size refl;
      in_memory = rw size within;
      small = rw size (get-Sized p m.map m.max_single_alloc l v.sized t);
      not_empty = rw size pos_l;
    }

pub block-IsServed :
    (p : ℕ) (b : List ℕ) (m : MemoryManager) → IsValid m → block m p ≡ some b → IsServed p b m
unfolding block
block-IsServed p b m v e = elim (Option-cases (get p m.map)) [
  | inl n ↦ absurd (none_eq_some (rw n at e))
  | inr (l, t) ↦
      subst (λ d. IsServed p d m) (some-injective _ _ (rw t at e)) (tracked-IsServed p l m v t)
]
  where
    none_eq_some : ◌≡◌ {A = Option (List ℕ)} none (some b) → ⊥
    none_eq_some h = cc

module _ (lm : LinearMemory) where
  -- The import copies the block over the buffer.
  read_import_served :
      (p : ℕ) (b : List ℕ) (address : ℤ) (c : Caller lm.Mem) (mem mem' : lm.Mem)
      → IsValid c.manager
      → IsServed p b c.manager
      → c.export ≡ some mem
      → lm.write (as_usize address) b mem ≡ some mem'
      → read_bytes_import lm (pos p) address (as_i32 (length b)) c
        ≡ (ok tt, record c { export = some mem' })
  unfolding read_bytes_import read_bytes checked_guest_len
  read_import_served p b address c mem mem' v s e w =
      let size : p + length b - p ≡ length b = omega arith in
      ground (arith, ap (λ (n : ℕ). slice p n c.manager.memory) size)

  -- The import copies the vector into the manager.
  write_import_served :
      (p : ℕ) (bytes : List ℕ) (address : ℤ) (c : Caller lm.Mem) (mem : lm.Mem)
      → IsValid c.manager
      → length bytes ≤ c.manager.max_single_alloc
      → c.export ≡ some mem
      → lm.read (as_usize address) (length bytes) mem ≡ some bytes
      → write_bytes p bytes c.manager ≡ (ok tt, written p bytes c.manager)
      → write_bytes_import lm (pos p) address (as_i32 (length bytes)) c
        ≡ (ok tt, record c { manager = written p bytes c.manager })
  unfolding write_bytes_import checked_guest_len
  write_import_served p bytes address c mem v h e r w = ground arith

  module _ (heap : GuestHeap lm) where
    pub pointer_len_served :
        (p : ℕ) (b : List ℕ) (c : Caller lm.Mem)
        → IsValid c.manager
        → IsServed p b c.manager
        → linked_pointer_len lm heap (pos p) c ≡ (ok (pos (length b)), c)
    unfolding linked_pointer_len pointer_len_import get_pointer_len
    pointer_len_served p b c v s = ground (arith, s.tracked)

    -- A whole block arrives in a buffer of its length. Only the linear memory changes.
    pub read_bytes_served :
        (p : ℕ) (b : List ℕ) (c : Caller lm.Mem) (mem mem₁ : lm.Mem) (address : ℤ)
        → IsValid c.manager
        → IsServed p b c.manager
        → c.export ≡ some mem
        → heap.place (replicate (length b) 0) mem ≡ some (address, mem₁)
        → (mem' : lm.Mem) × (linked_read_bytes lm heap
              (pos p)
              (replicate (length b) 0)
              (as_i32 (length b))
              c
            ≡ (ok b, record c { export = some mem' }))
    unfolding linked_read_bytes
    read_bytes_served p b c mem mem₁ address v s e placed = (
      mem₂,
      ground (
        arith,
        read_import_served p b address (record c { export = some mem₁ }) mem₁ mem₂ v s refl wrote.1,
        back,
      ),
    )
      where
        buffer : List ℕ
        buffer = replicate (length b) 0

        size : length buffer ≡ length b
        size = length-replicate (length b) 0

        wrote :
            (mem' : lm.Mem) × (lm.write (as_usize address) b mem₁ ≡ some mem')
            × (lm.read (as_usize address) (length buffer) mem' ≡ some (overwrite b buffer))
        wrote =
            lm.write-read (as_usize address) (length buffer) buffer b mem₁
              (heap.read-place buffer mem mem₁ address placed) (omega (arith, size))

        mem₂ : lm.Mem
        mem₂ = wrote.0

        back : lm.read (as_usize address) (length buffer) mem₂ ≡ some b
        back = wrote.2 ∙ ap some (overwrite_all b buffer (sym size))

    -- The bytes that `alloc` is given fit the manager: it returns the old end of its memory.
    pub alloc_served :
        (len : ℕ) (c : Caller lm.Mem)
        → IsValid c.manager
        → Fits len c.manager
        → linked_alloc lm heap len c ≡ (
          ok (pos (length c.manager.memory)),
          record c { manager = grown len (length c.manager.memory + len) c.manager },
        )
    unfolding linked_alloc alloc_import
    alloc_served len c v f = ground (arith, alloc-Fits len c.manager v f)

    -- A write that the manager takes puts the vector into it.
    pub write_bytes_served :
        (p : ℕ) (bytes : List ℕ) (c : Caller lm.Mem) (mem mem₁ : lm.Mem) (address : ℤ)
        → IsValid c.manager
        → length bytes ≤ c.manager.max_single_alloc
        → c.export ≡ some mem
        → heap.place bytes mem ≡ some (address, mem₁)
        → write_bytes p bytes c.manager ≡ (ok tt, written p bytes c.manager)
        → linked_write_bytes lm heap (pos p) bytes (as_i32 (length bytes)) c
          ≡ (ok tt, record { manager = written p bytes c.manager; export = some mem₁ })
    unfolding linked_write_bytes
    write_bytes_served p bytes c mem mem₁ address v h e placed w = ground (
      arith,
      write_import_served p bytes address (record c { export = some mem₁ }) mem₁ v h refl
          (heap.read-place bytes mem mem₁ address placed) w,
    )
