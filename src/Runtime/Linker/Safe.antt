-- ===== src/Runtime/Linker/Safe.antt =====
-- What a guest can do to the host's memory by calls of the imports, in any order, with any arguments
-- and with any contents of its own memory.
use ave_contract_sdk.Base.{
  ℕ, ◌+◌, ◌≤◌, ◌≡◌, refl, some, List, arith, length, Option-cases, inl, inr, length-splice,
  Bool-cases, leb,
}
use ave_contract_sdk.Base.Machine.{ℤ, as_usize}
use ave_contract_sdk.Base.Result.{Result-cases}
use ave_contract_sdk.Runtime.Memory.{MemoryManager, grown, alloc, write_bytes, checked_guest_len}
use ave_contract_sdk.Runtime.Memory.Allocs.{get, get-Regions, remove_end}
use ave_contract_sdk.Runtime.Memory.Inv.{
  IsValid, Fits-cases, alloc-Fits, alloc_refused, grown-IsValid, length-grown, limits-grown,
}
use ave_contract_sdk.Runtime.Memory.Writes.{
  written, written-IsValid, write_bytes_tracked, write_untracked,
}
use ave_contract_sdk.Runtime.Linker.{
  LinearMemory, Caller, pointer_len_import, alloc_import, read_bytes_import, write_bytes_import,
}

-- The manager `m'` is a valid successor of `m`: under the same limits, with all of its allocations.
pub record Keeps (m m' : MemoryManager) : Type 0 where
  pub valid : IsValid m'
  pub same_single : m'.max_single_alloc ≡ m.max_single_alloc
  pub same_total : m'.max_total_memory ≡ m.max_total_memory
  pub longer : length m.memory ≤ length m'.memory
  pub tracked : (p l : ℕ) → get p m.map ≡ some l → get p m'.map ≡ some l

pub Keeps-refl : (m : MemoryManager) → IsValid m → Keeps m m
Keeps-refl m v = record {
  valid = v;
  same_single = refl;
  same_total = refl;
  longer = omega arith;
  tracked = λ p l e. e;
}

pub Keeps-trans : (m₁ m₂ m₃ : MemoryManager) → Keeps m₁ m₂ → Keeps m₂ m₃ → Keeps m₁ m₃
Keeps-trans m₁ m₂ m₃ k h = record {
  valid = h.valid;
  same_single = cc;
  same_total = cc;
  longer = omega (arith, k.longer, h.longer);
  tracked = λ p l e. h.tracked p l (k.tracked p l e);
}

grown_tracked :
    (len p l : ℕ) (m : MemoryManager)
    → IsValid m
    → get p m.map ≡ some l
    → get p (grown len (length m.memory + len) m).map ≡ some l
unfolding grown
grown_tracked len p l m v e =
    let (not_empty, within) = get-Regions p m.map (length m.memory) l v.regions e in
    ground (arith, remove_end (length m.memory) m.map (length m.memory))

pub alloc-Keeps : (len : ℕ) (m : MemoryManager) → IsValid m → Keeps m (alloc len m).1
alloc-Keeps len m v = elim (Fits-cases len m) [
  | inl f ↦ rw (alloc-Fits len m v f) (record {
    valid = grown-IsValid len m v f;
    same_single = (limits-grown len (length m.memory + len) m).0;
    same_total = (limits-grown len (length m.memory + len) m).1;
    longer = omega (arith, length-grown len m);
    tracked = λ p l e. grown_tracked len p l m v e;
  })
  | inr nf ↦ rw (alloc_refused len m v nf) (Keeps-refl m v)
]

pub written-Keeps :
    (start : ℕ) (bytes : List ℕ) (m : MemoryManager) → IsValid m → Keeps m (written start bytes m)
written-Keeps start bytes m v = record {
  valid = written-IsValid start bytes m v;
  same_single = refl;
  same_total = refl;
  longer = omega (arith, length-splice start bytes m.memory);
  tracked = λ p l e. e;
}

write_bytes-Keeps :
    (p : ℕ) (bytes : List ℕ) (m : MemoryManager) → IsValid m → Keeps m (write_bytes p bytes m).1
write_bytes-Keeps p bytes m v = elim (Option-cases (get p m.map)) [
  | inl e ↦ rw ((write_untracked p 0 bytes m e).1) (Keeps-refl m v)
  | inr (len, e) ↦ elim (Bool-cases (leb (length bytes) len)) [
    | inl b ↦ rw (write_bytes_tracked p len bytes m v e, b) (written-Keeps p bytes m v)
    | inr b ↦ rw (write_bytes_tracked p len bytes m v e, b) (Keeps-refl m v)
  ]
]

module _ (lm : LinearMemory) where
  -- One step of a guest: a call of an import, or a change of its own memory.
  pub data Step : Caller lm.Mem → Caller lm.Mem → Type 0 where
    calls_pointer_len : (p : ℤ) (c : Caller lm.Mem) → Step c (pointer_len_import lm p c).1
    calls_alloc : (len : ℕ) (c : Caller lm.Mem) → Step c (alloc_import lm len c).1
    calls_read_bytes :
        (src dst len : ℤ) (c : Caller lm.Mem) → Step c (read_bytes_import lm src dst len c).1
    calls_write_bytes :
        (dst src len : ℤ) (c : Caller lm.Mem) → Step c (write_bytes_import lm dst src len c).1
    computes : (mem : lm.Mem) (c : Caller lm.Mem) → Step c (record c { export = some mem })

  pub data Reach (c : Caller lm.Mem) : Caller lm.Mem → Type 0 where
    begin : Reach c c
    and_then : {c₁ c₂ : Caller lm.Mem} → Reach c c₁ → Step c₁ c₂ → Reach c c₂

  alloc_import_manager :
      (len : ℕ) (c : Caller lm.Mem) → (alloc_import lm len c).1.manager ≡ (alloc len c.manager).1
  unfolding alloc_import
  alloc_import_manager len c = ground arith

  read_import_manager :
      (src dst len : ℤ) (c : Caller lm.Mem)
      → (read_bytes_import lm src dst len c).1.manager ≡ c.manager
  unfolding read_bytes_import
  read_import_manager src dst len c = ground arith

  write_import-Keeps :
      (dst src len : ℤ) (c : Caller lm.Mem)
      → IsValid c.manager
      → Keeps c.manager (write_bytes_import lm dst src len c).1.manager
  unfolding write_bytes_import
  write_import-Keeps dst src len c v =
      elim (Result-cases (checked_guest_len len c.manager.max_single_alloc)) [
        | inl (n, e) ↦ elim (Option-cases c.export) [
          | inl x ↦ rw (e, x) (Keeps-refl c.manager v)
          | inr (mem, x) ↦ elim (Option-cases (lm.read (as_usize src) n mem)) [
            | inl r ↦ rw (e, x, r) (Keeps-refl c.manager v)
            | inr (bytes, r) ↦ rw (e, x, r) (write_bytes-Keeps (as_usize dst) bytes c.manager v)
          ]
        ]
        | inr (x, e) ↦ rw e (Keeps-refl c.manager v)
      ]

  Step-Keeps : {c c' : Caller lm.Mem} → Step c c' → IsValid c.manager → Keeps c.manager c'.manager
  unfolding pointer_len_import
  Step-Keeps (calls_pointer_len p c) v = Keeps-refl c.manager v
  Step-Keeps (calls_alloc len c) v = rw (alloc_import_manager len c) (alloc-Keeps len c.manager v)
  Step-Keeps (calls_read_bytes src dst len c) v =
      rw (read_import_manager src dst len c) (Keeps-refl c.manager v)
  Step-Keeps (calls_write_bytes dst src len c) v = write_import-Keeps dst src len c v
  Step-Keeps (computes mem c) v = Keeps-refl c.manager v

  -- Whatever a guest does on a valid manager, in any number of steps, the manager stays valid and
  -- within the limits that it had: its memory never outgrows the total limit, its allocations stay
  -- disjoint, and none of them is released, moved or resized.
  pub Reach-Keeps :
      (c c' : Caller lm.Mem) → IsValid c.manager → Reach c c' → Keeps c.manager c'.manager
  Reach-Keeps c _ v begin = Keeps-refl c.manager v
  Reach-Keeps c _ v (and_then {c₁} {c₂} r s) =
      let k = Reach-Keeps c c₁ v r in
      Keeps-trans c.manager c₁.manager c₂.manager k (Step-Keeps s k.valid)
