-- ===== src/Runtime/Staging/Laws.antt =====
-- What staging leaves in the host's memory.
use ave_contract_sdk.Base.{
  ℕ, ◌+◌, ◌≡◌, ◌∙◌, some, List, arith, length, replicate, splice, if◌then◌else◌, ◌==◌,
  splice-splice, length-splice, length-replicate,
}
use ave_contract_sdk.Base.Result.{ok}
use ave_contract_sdk.Sdk.Wire.{to_le_bytes, frame}
use ave_contract_sdk.Runtime.Memory.{MemoryManager, grown}
use ave_contract_sdk.Runtime.Memory.Allocs.{get}
use ave_contract_sdk.Runtime.Memory.Inv.{
  IsValid, Fits, alloc-Fits, grown-IsValid, get-grown, length-grown, limits-grown,
}
use ave_contract_sdk.Runtime.Memory.Blocks.{block, block-grown, block-splice_of}
use ave_contract_sdk.Runtime.Memory.Writes.{written, written-IsValid, write_bytes_at_tracked}
use ave_contract_sdk.Runtime.Staging.{write_contract_data}

-- The manager after `d` was staged: a fresh block, its length prefix, and the payload behind it.
abbrev reserved : List ℕ → MemoryManager → MemoryManager
reserved d m = grown (4 + length d) (length m.memory + (4 + length d)) m

abbrev prefixed : List ℕ → MemoryManager → MemoryManager
prefixed d m = written (length m.memory + 0) (to_le_bytes (length d)) (reserved d m)

abbrev pub staged : List ℕ → MemoryManager → MemoryManager
staged d m = written (length m.memory + 4) d (prefixed d m)

module _ (d : List ℕ) (m : MemoryManager) (v : IsValid m) (f : Fits (4 + length d) m) where
  reserved-IsValid : IsValid (reserved d m)
  reserved-IsValid = grown-IsValid (4 + length d) m v f

  prefixed-IsValid : IsValid (prefixed d m)
  prefixed-IsValid = written-IsValid _ _ (reserved d m) reserved-IsValid

  pub staged-IsValid : IsValid (staged d m)
  staged-IsValid = written-IsValid _ d (prefixed d m) prefixed-IsValid

  reserved_tracked : get (length m.memory) (reserved d m).map ≡ some (4 + length d)
  reserved_tracked = get-grown (4 + length d) _ m (omega arith)

  -- Staging takes a block of four bytes more than the payload, at the old end of the memory.
  pub write_contract_data_fits : write_contract_data d m ≡ (ok (length m.memory), staged d m)
  unfolding write_contract_data
  write_contract_data_fits = ground (
    arith,
    alloc-Fits (4 + length d) m v f,
    write_bytes_at_tracked (length m.memory) 0 (4 + length d) (to_le_bytes (length d))
        (reserved d m) reserved-IsValid reserved_tracked,
    write_bytes_at_tracked (length m.memory) 4 (4 + length d) d (prefixed d m) prefixed-IsValid
        reserved_tracked,
  )

  zeros : block (reserved d m) (length m.memory) ≡ some (replicate (4 + length d) 0)
  zeros = ground (arith, block-grown (4 + length d) (length m.memory) m v)

  -- The new block is the borsh form of the payload, and no other block has changed.
  pub block-staged :
      (q : ℕ) → block (staged d m) q ≡ (if q == length m.memory then some (frame d) else block m q)
  block-staged q = ground (
    arith,
    zeros,
    block-splice_of (length m.memory) 0 q (to_le_bytes (length d)) (replicate (4 + length d) 0)
        (reserved d m) reserved-IsValid zeros,
    block-splice_of (length m.memory) 0 (length m.memory) (to_le_bytes (length d))
        (replicate (4 + length d) 0) (reserved d m) reserved-IsValid zeros,
    block-splice_of (length m.memory) 4 q d
        (splice 0 (to_le_bytes (length d)) (replicate (4 + length d) 0)) (prefixed d m)
        prefixed-IsValid,
    length-splice 0 (to_le_bytes (length d)) (replicate {A = ℕ} (4 + length d) 0),
    length-replicate {A = ℕ} (4 + length d) 0,
    splice-splice (to_le_bytes (length d)) d (replicate (4 + length d) 0),
    block-grown (4 + length d) q m v,
  )

pub length-staged :
    (d : List ℕ) (m : MemoryManager) → length (staged d m).memory ≡ length m.memory + (4 + length d)
length-staged d m =
    length-splice (length m.memory + 4) d (prefixed d m).memory
    ∙ length-splice (length m.memory + 0) (to_le_bytes (length d)) (reserved d m).memory
    ∙ length-grown (4 + length d) m

pub limits-staged :
    (d : List ℕ) (m : MemoryManager)
    → ((staged d m).max_single_alloc ≡ m.max_single_alloc)
      × ((staged d m).max_total_memory ≡ m.max_total_memory)
limits-staged d m = limits-grown (4 + length d) (length m.memory + (4 + length d)) m
