-- ===== src/Runtime/Memory/Inv.antt =====
-- The representation invariant of `MemoryManager`, and what each operation does on every branch.
use ave_contract_sdk.Base.{
  ℕ, ◌+◌, ◌-◌, ◌*◌, ◌^◌, ◌≤◌, ◌<◌, ◌≡◌, refl, ap, ◌⊎◌, Option, some, List, ◌++◌, arith, ltb,
  if◌then◌else◌, length, replicate, length-append, length-replicate,
}
use ave_contract_sdk.Base.Result.{ok, err}
use ave_contract_sdk.Runtime.Error.{allocation_too_large, total_memory_exceeded}
use ave_contract_sdk.Runtime.Config.{ResolvedMachineSpec, limits_of_spec, default, build}
use ave_contract_sdk.Runtime.Memory.Allocs.{get, Regions, Regions-mono, remove_end, Sized}
use ave_contract_sdk.Runtime.Memory.{MemoryManager, from_limits, resize, grown, alloc}

-- The tracked regions are disjoint and lie in the memory, the memory is within its limit, and the
-- limit leaves every pointer and length below 2 ^ 31, so that a cast to 32 bits keeps it.
pub record IsValid (m : MemoryManager) : Type 0 where
  pub regions : Regions (length m.memory) m.map
  pub within_total : length m.memory ≤ m.max_total_memory
  pub sized : Sized m.max_single_alloc m.map
  pub single_fits : m.max_single_alloc ≤ m.max_total_memory
  pub single_small : m.max_single_alloc ≤ 8 * 1024 * 1024
  pub total_small : m.max_total_memory < 2 ^ 31

-- A fresh manager is valid, whatever machine its limits come from.
pub from_limits-IsValid :
    (spec : Option ResolvedMachineSpec) → IsValid (from_limits (limits_of_spec spec))
unfolding from_limits limits_of_spec default build
from_limits-IsValid spec = ground arith

pub length-resize : (v : List ℕ) (n : ℕ) → length v ≤ n → length (resize v n) ≡ n
unfolding resize
length-resize v n h =
    ground (
      arith,
      length-append v (replicate (n - length v) 0),
      length-replicate {A = ℕ} (n - length v) 0,
    )

pub resize-append : (v : List ℕ) (n : ℕ) → resize v (length v + n) ≡ v ++ replicate n 0
unfolding resize
resize-append v n =
    let e : length v + n - length v ≡ n = omega arith in
    ground (arith, ap (λ (k : ℕ). v ++ replicate k 0) e)

-- The tests of `alloc`.
abbrev pub Fits : ℕ → MemoryManager → Type 0
Fits len m = (len ≤ m.max_single_alloc) × (length m.memory + len ≤ m.max_total_memory)

-- `alloc` succeeds when the length is within both limits, and returns the old end of the memory.
pub alloc-Fits :
    (len : ℕ) (m : MemoryManager)
    → IsValid m
    → Fits len m
    → alloc len m ≡ (ok (length m.memory), grown len (length m.memory + len) m)
unfolding alloc
alloc-Fits len m v f = ground arith

-- Otherwise it leaves the manager as it was, and names the limit: the one for a single allocation
-- first.
pub alloc_refused :
    (len : ℕ) (m : MemoryManager)
    → IsValid m
    → ¬ (Fits len m)
    → alloc len m ≡ (
      err (
          if ltb m.max_single_alloc len
          then allocation_too_large len m.max_single_alloc
          else total_memory_exceeded (length m.memory + len) m.max_total_memory),
      m,
    )
unfolding alloc
alloc_refused len m v nf = ground arith

pub grown-IsValid :
    (len : ℕ) (m : MemoryManager)
    → IsValid m
    → Fits len m
    → IsValid (grown len (length m.memory + len) m)
unfolding grown
grown-IsValid len m v f = ground (
  arith,
  length-resize m.memory (length m.memory + len),
  Regions-mono m.map {end = length m.memory} {end' = length m.memory + len},
  remove_end (length m.memory) m.map (length m.memory),
)

pub Fits-cases : (len : ℕ) (m : MemoryManager) → Fits len m ⊎ (¬ (Fits len m))
Fits-cases len m = ground arith

pub length-grown :
    (len : ℕ) (m : MemoryManager)
    → length (grown len (length m.memory + len) m).memory ≡ length m.memory + len
unfolding grown
length-grown len m = length-resize m.memory (length m.memory + len) (omega arith)

pub limits-grown :
    (len new_len : ℕ) (m : MemoryManager)
    → ((grown len new_len m).max_single_alloc ≡ m.max_single_alloc)
      × ((grown len new_len m).max_total_memory ≡ m.max_total_memory)
unfolding grown
limits-grown len new_len m = (refl, refl)

-- A fresh allocation that is not empty is tracked with its length.
pub get-grown :
    (len new_len : ℕ) (m : MemoryManager)
    → 0 < len
    → get (length m.memory) (grown len new_len m).map ≡ some len
unfolding grown
get-grown len new_len m h = ground arith
