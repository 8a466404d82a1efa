-- ===== src/Runtime/Linker/Live.antt =====
-- What the host can still do, and what it can be made to do, after any run of a guest.
use ave_contract_sdk.Base.{
  ℕ, ◌≤◌, ◌<◌, ◌%◌, ◌^◌, ◌≡◌, refl, some, List, arith, length, replicate, if◌then◌else◌, ◌==◌, ◌&&◌,
  ltb, Option-cases, inl, inr,
}
use ave_contract_sdk.Base.Result.{Result, ok, err}
use ave_contract_sdk.Runtime.Error.{ContractError, invalid_pointer}
use ave_contract_sdk.Runtime.Memory.{MemoryManager, read_data}
use ave_contract_sdk.Runtime.Memory.Allocs.{get, get-Regions, get-Sized}
use ave_contract_sdk.Runtime.Memory.Inv.{IsValid, Fits, alloc-Fits}
use ave_contract_sdk.Runtime.Memory.Blocks.{
  block, block_tracked, block_untracked, block-grown, read_data-block,
}
use ave_contract_sdk.Runtime.Linker.{LinearMemory, Caller, alloc_import}
use ave_contract_sdk.Runtime.Linker.Safe.{Reach, Reach-Keeps}

-- What the host may read at a pointer under a limit: nothing, or a block of some bytes within it.
abbrev pub IsRead : ℕ → ℕ → Result ContractError (List ℕ) → Type 0
IsRead ptr limit (ok bytes) = (0 < length bytes) × (length bytes ≤ limit)
IsRead ptr limit (err e) = e ≡ invalid_pointer ptr

pub read_data-IsRead :
    (p : ℕ) (m : MemoryManager) → IsValid m → IsRead p m.max_single_alloc (read_data p m)
read_data-IsRead p m v = elim (Option-cases (get p m.map)) [
  | inl e ↦ rw (read_data-block p m v, block_untracked p m e) refl
  | inr (l, e) ↦
      let (found, size) = block_tracked p l m v e in
      rw (read_data-block p m v, found)
        (
          omega (arith, size, get-Regions p m.map (length m.memory) l v.regions e),
          omega (arith, size, get-Sized p m.map m.max_single_alloc l v.sized e),
        )
]

-- What the host reads at a pointer is the block there.
pub read_data-found :
    (p : ℕ) (bytes : List ℕ) (m : MemoryManager)
    → IsValid m
    → read_data p m ≡ ok bytes
    → (block m p ≡ some bytes) × (0 < length bytes) × (length bytes ≤ m.max_single_alloc)
read_data-found p bytes m v h =
    let r : IsRead p m.max_single_alloc (ok bytes) = rw h at (read_data-IsRead p m v) in
    elim (Option-cases (block m p)) [
      | inl e ↦ ground (arith, read_data-block p m v, e, h)
      | inr (b, e) ↦ (ground (arith, read_data-block p m v, e, h), r.0, r.1)
    ]

module _ (lm : LinearMemory) (c c' : Caller lm.Mem) (v : IsValid c.manager)
    (r : Reach lm c c') where
  -- Whatever a guest did on a valid manager, and whatever pointer it returns, the host's read of
  -- its result is refused as an invalid pointer, or yields a block that is not empty and within
  -- the limit of a single allocation.
  pub Reach-read_data : (p : ℕ) → IsRead p c.manager.max_single_alloc (read_data p c'.manager)
  Reach-read_data p =
      let k = Reach-Keeps lm c c' v r in
      rw (← k.same_single) (read_data-IsRead p c'.manager k.valid)

  -- Whatever a guest did on a valid manager, its next allocation succeeds if there is room for it:
  -- it gets the old end of the memory, where a block of zeros stands if it asked for any byte, and
  -- every other block is as it was.
  pub Reach-alloc_import :
      (len : ℕ)
      → Fits len c'.manager
      → ((alloc_import lm len c').0 ≡ ok (length c'.manager.memory))
        × ((q : ℕ)
            → block (alloc_import lm len c').1.manager q ≡ (
                if q == length c'.manager.memory && ltb 0 len
                then some (replicate len 0)
                else block c'.manager q))
  unfolding alloc_import
  Reach-alloc_import len f =
      let k = Reach-Keeps lm c c' v r in
      let small : length c'.manager.memory % 2 ^ 32 ≡ length c'.manager.memory =
        omega (arith, k.valid.within_total, k.valid.total_small) in
      rw (alloc-Fits len c'.manager k.valid f)
        (ground (arith, small), λ q. block-grown len q c'.manager k.valid)
