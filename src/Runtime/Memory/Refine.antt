-- ===== src/Runtime/Memory/Refine.antt =====
-- A valid `MemoryManager` behaves as the store of its blocks, under the calls that go by block.
use ave_contract_sdk.Base.{
  ℕ, ◌+◌, ◌≤◌, ◌≡◌, refl, some, List, [], ◌∷◌, arith, length, splice, slice, length-splice,
  Option-cases, inl, inr,
}
use ave_contract_sdk.Base.Result.{Result, ok, err}
use ave_contract_sdk.Runtime.Error.{ContractError}
use ave_contract_sdk.Runtime.Memory
use ave_contract_sdk.Runtime.Memory.Allocs.{get, get-Regions}
use ave_contract_sdk.Runtime.Memory.{MemoryManager, grown, get_pointer_len}
use ave_contract_sdk.Runtime.Memory.Inv.{
  IsValid, Fits-cases, alloc-Fits, alloc_refused, length-grown, limits-grown,
}
use ave_contract_sdk.Runtime.Memory.Blocks.{
  block, block_tracked, block_untracked, read_data-block, block-grown, block-splice,
}
use ave_contract_sdk.Runtime.Memory.Writes.{
  written, write_bytes_at_tracked, write_bytes_tracked, write_untracked, write_bytes-IsValid,
  write_bytes_at-IsValid, alloc-IsValid,
}
use ave_contract_sdk.Runtime.Memory.BlockStore.{
  BlockStore, Call, Reply, pointer, bytes, done, number, failed, alloc, read_data, write_bytes,
  write_bytes_at, add_block, set_block, write_block,
}
use ave_contract_sdk.Runtime.Memory.BlockStore

abbrev pub contents : MemoryManager → BlockStore
contents m = record {
  blocks = block m;
  top = length m.memory;
  max_single = m.max_single_alloc;
  max_total = m.max_total_memory;
}

-- What a caller of the manager sees.
abbrev pub reply_of : {A : Type 0} → (A → Reply) → Result ContractError A → Reply
reply_of f (ok a) = f a
reply_of f (err e) = failed e

abbrev pub reply_unit : Result ContractError (Unit {0}) → Reply
reply_unit (ok u) = done
reply_unit (err e) = failed e

-- One call on the manager, by the methods of src/runtime/host.rs.
unfoldable pub step : Call → MemoryManager → Reply × MemoryManager
step (alloc len) m = let (r, m') = Memory.alloc len m in (reply_of pointer r, m')
step (read_data p) m = (reply_of bytes (Memory.read_data p m), m)
step (write_bytes p bs) m = let (r, m') = Memory.write_bytes p bs m in (reply_unit r, m')
step (write_bytes_at p off bs) m =
    let (r, m') = Memory.write_bytes_at p off bs m in (reply_unit r, m')
step (Call.get_pointer_len p) m = (number (get_pointer_len p m), m)

unfoldable pub run : List Call → MemoryManager → List Reply
unfolding step
run [] m = []
run (c ∷ cs) m = (step c m).0 ∷ run cs (step c m).1

contents-grown :
    (len : ℕ) (m : MemoryManager)
    → IsValid m
    → contents (grown len (length m.memory + len) m) ≡ add_block len (contents m)
contents-grown len m v = λ i. record {
  blocks = λ q. block-grown len q m v i;
  top = length-grown len m i;
  max_single = (limits-grown len (length m.memory + len) m).0 i;
  max_total = (limits-grown len (length m.memory + len) m).1 i;
}

contents-written :
    (p off len : ℕ) (bs : List ℕ) (m : MemoryManager)
    → IsValid m
    → get p m.map ≡ some len
    → off + length bs ≤ len
    → contents (written (p + off) bs m)
      ≡ set_block p (splice off bs (slice p len m.memory)) (contents m)
contents-written p off len bs m v e h = λ i. record {
  blocks = λ q. block-splice p off len q bs m v e h i;
  top = length-splice (p + off) bs m.memory i;
  max_single = m.max_single_alloc;
  max_total = m.max_total_memory;
}

-- A call on the manager and the same call on its blocks.
abbrev StepRefines : Call → MemoryManager → Type 0
StepRefines c m =
    ((step c m).0 ≡ (BlockStore.step c (contents m)).0)
    × (contents (step c m).1 ≡ (BlockStore.step c (contents m)).1)

alloc_refines : (len : ℕ) (m : MemoryManager) → IsValid m → StepRefines (alloc len) m
unfolding step BlockStore.step
alloc_refines len m v = elim (Fits-cases len m) [
  | inl f ↦ ground (arith, alloc-Fits len m v f, contents-grown len m v)
  | inr nf ↦ ground (arith, alloc_refused len m v nf)
]

read_data_refines : (p : ℕ) (m : MemoryManager) → IsValid m → StepRefines (read_data p) m
unfolding step BlockStore.step
read_data_refines p m v = ground (arith, read_data-block p m v)

write_bytes_refines :
    (p : ℕ) (bs : List ℕ) (m : MemoryManager) → IsValid m → StepRefines (write_bytes p bs) m
unfolding step BlockStore.step
write_bytes_refines p bs m v = elim (Option-cases (get p m.map)) [
  | inl e ↦ ground (arith, write_untracked p 0 bs m e, block_untracked p m e)
  | inr (len, e) ↦ ground (
    arith,
    write_bytes_tracked p len bs m v e,
    block_tracked p len m v e,
    contents-written p 0 len bs m v e,
  )
]

write_bytes_at_refines :
    (p off : ℕ) (bs : List ℕ) (m : MemoryManager)
    → IsValid m
    → StepRefines (write_bytes_at p off bs) m
unfolding step BlockStore.step
write_bytes_at_refines p off bs m v = elim (Option-cases (get p m.map)) [
  | inl e ↦ ground (arith, write_untracked p off bs m e, block_untracked p m e)
  | inr (len, e) ↦ ground (
    arith,
    write_bytes_at_tracked p off len bs m v e,
    block_tracked p len m v e,
    contents-written p off len bs m v e,
  )
]

get_pointer_len_refines :
    (p : ℕ) (m : MemoryManager) → IsValid m → StepRefines (Call.get_pointer_len p) m
unfolding step BlockStore.step get_pointer_len
get_pointer_len_refines p m v = elim (Option-cases (get p m.map)) [
  | inl e ↦ ground (arith, block_untracked p m e)
  | inr (len, e) ↦
      ground
        (arith, block_tracked p len m v e, get-Regions p m.map (length m.memory) len v.regions e)
]

-- Each call answers as on the blocks, and leaves the manager holding the blocks that it leaves.
step_refines : (c : Call) (m : MemoryManager) → IsValid m → StepRefines c m
step_refines (alloc len) m v = alloc_refines len m v
step_refines (read_data p) m v = read_data_refines p m v
step_refines (write_bytes p bs) m v = write_bytes_refines p bs m v
step_refines (write_bytes_at p off bs) m v = write_bytes_at_refines p off bs m v
step_refines (Call.get_pointer_len p) m v = get_pointer_len_refines p m v

-- Every call, answered or refused, leaves a valid manager valid.
pub step-IsValid : (c : Call) (m : MemoryManager) → IsValid m → IsValid (step c m).1
unfolding step
step-IsValid (alloc len) m v = alloc-IsValid len m v
step-IsValid (read_data p) m v = v
step-IsValid (write_bytes p bs) m v = write_bytes-IsValid p bs m v
step-IsValid (write_bytes_at p off bs) m v = write_bytes_at-IsValid p off bs m v
step-IsValid (Call.get_pointer_len p) m v = v

-- No sequence of the calls `alloc`, `read_data`, `write_bytes`, `write_bytes_at` and `get_pointer_len`
-- on a valid memory manager, failing calls included, can tell it from the store of its separate blocks.
-- `read_bytes`, which reads any range of the memory, across blocks too, is not among these calls.
pub run_refines :
    (cs : List Call) (m : MemoryManager) → IsValid m → run cs m ≡ BlockStore.run cs (contents m)
unfolding run BlockStore.run
run_refines [] m v = refl
run_refines (c ∷ cs) m v = rw (
  run_refines cs (step c m).1 (step-IsValid c m v),
  (step_refines c m v).0,
  (step_refines c m v).1,
)
