-- ===== src/Runtime/Memory.antt =====
-- src/runtime/host.rs: `MemoryManager`, the host's backing store for the allocations of a guest.
-- `&mut self` is a state of `Exec`; a method that fails returns the state that it leaves.
pub mod Allocs
pub mod Inv
pub mod Blocks
pub mod Writes
pub mod BlockStore
pub mod Refine
pub mod Typed
use ave_contract_sdk.Base.{
  ℕ, zero, suc, ◌+◌, ◌-◌, ◌≤◌, ◌<◌, Bool, true, false, ◌||◌, Option, none, some, List, [], ◌++◌,
  ltb, leb, if◌then◌else◌, length, take, replicate, splice, slice,
}
use ave_contract_sdk.Base.Machine.{ℤ, pos, negsuc, checked_add, saturating_add, as_isize}
use ave_contract_sdk.Base.Result
use ave_contract_sdk.Base.Result.{Result, ok, err, ok_or}
use ave_contract_sdk.Base.Exec.{Exec, lift, gets, put, fail_if, ◌>>=◌, ◌>>◌}
use ave_contract_sdk.Runtime.Error.{
  ContractError, invalid_pointer, write_out_of_bounds, allocation_too_large, total_memory_exceeded,
  allocation_overflow, invalid_length,
}
use ave_contract_sdk.Runtime.Config.{WasmLimits, default}
use Allocs.{AllocMap, get, insert}

-- The settings made on wasmtime's `StoreLimitsBuilder`.
pub record StoreLimits : Type 0 where
  pub memory_size : ℕ
  pub table_elements : ℕ
  pub instances : ℕ
  pub tables : ℕ
  pub memories : ℕ
  pub trap_on_grow_failure : Bool

pub record MemoryManager : Type 0 where
  pub memory : List ℕ
  pub map : AllocMap
  pub store_limits : StoreLimits
  pub max_single_alloc : ℕ
  pub max_total_memory : ℕ

unfoldable pub from_limits : WasmLimits → MemoryManager
from_limits limits = record {
  memory = [];
  map = [];
  store_limits = record {
    memory_size = limits.memory_size;
    table_elements = limits.max_table_elements;
    instances = 1;
    tables = 1;
    memories = 1;
    trap_on_grow_failure = true;
  };
  max_single_alloc = limits.max_single_alloc;
  max_total_memory = limits.max_total_memory;
}

-- `MemoryManager::default`
abbrev pub default_manager : MemoryManager
default_manager = from_limits default

-- `Vec::resize(new_len, 0)`
unfoldable pub resize : List ℕ → ℕ → List ℕ
resize v new_len =
    if leb (length v) new_len then v ++ replicate (new_len - length v) 0 else take new_len v

-- What `alloc` does once its checks have passed. Empty allocations are not tracked.
unfoldable pub grown : ℕ → ℕ → MemoryManager → MemoryManager
grown len new_len m = record m {
  memory = resize m.memory new_len;
  map = if ltb 0 len then insert (length m.memory) len m.map else m.map;
}

unfoldable pub alloc : ℕ → Exec ContractError MemoryManager ℕ
alloc len m =
    (do
      fail_if (ltb m.max_single_alloc len) (allocation_too_large len m.max_single_alloc)
      new_len ← lift (ok_or allocation_overflow (checked_add (length m.memory) len))
      fail_if (ltb m.max_total_memory new_len) (total_memory_exceeded new_len m.max_total_memory)
      put (grown len new_len m)
      lift (ok (length m.memory)))
      m

-- `self.memory[ptr..end]`, after the check of `end`.
abbrev pub range_to : ℕ → ℕ → MemoryManager → Result ContractError (List ℕ)
range_to ptr end m =
    if ltb (length m.memory) end
    then err (invalid_pointer ptr)
    else ok (slice ptr (end - ptr) m.memory)

unfoldable pub read_data : ℕ → MemoryManager → Result ContractError (List ℕ)
read_data ptr m =
    let tracked = ok_or (invalid_pointer ptr) (get ptr m.map) in
    Result.◌>>=◌ tracked λ len.
      Result.◌>>=◌ (ok_or (invalid_pointer ptr) (checked_add ptr len)) λ end. range_to ptr end m

unfoldable pub read_bytes : ℕ → ℕ → MemoryManager → Result ContractError (List ℕ)
read_bytes ptr len m =
    Result.◌>>=◌ (ok_or (invalid_pointer ptr) (checked_add ptr len)) λ end. range_to ptr end m

unfoldable pub write_bytes : ℕ → List ℕ → Exec ContractError MemoryManager (Unit {0})
write_bytes ptr bytes m =
    (do
      len ← lift (ok_or (invalid_pointer ptr) (get ptr m.map))
      fail_if (ltb len (length bytes)) (write_out_of_bounds (length bytes) len)
      end ← lift (ok_or (invalid_pointer ptr) (checked_add ptr (length bytes)))
      fail_if (ltb (length m.memory) end) (invalid_pointer ptr)
      put (record m { memory = splice ptr bytes m.memory }))
      m

unfoldable pub write_bytes_at : ℕ → ℕ → List ℕ → Exec ContractError MemoryManager (Unit {0})
write_bytes_at ptr offset bytes m =
    (do
      len ← lift (ok_or (invalid_pointer ptr) (get ptr m.map))
      start ← lift (ok_or (invalid_pointer ptr) (checked_add ptr offset))
      end ← lift (ok_or (invalid_pointer ptr) (checked_add start (length bytes)))
      fail_if (ltb (saturating_add ptr len) end || ltb (length m.memory) end)
          (write_out_of_bounds (saturating_add offset (length bytes)) len)
      put (record m { memory = splice start bytes m.memory }))
      m

unfoldable pub add_data_raw : List ℕ → Exec ContractError MemoryManager ℕ
unfolding alloc
add_data_raw bytes = do
  ptr ← alloc (length bytes)
  λ m. (ok ptr, record m { memory = splice ptr bytes m.memory })

unfoldable pub get_pointer_len : ℕ → MemoryManager → ℤ
get_pointer_len ptr m = elim (get ptr m.map) [ none ↦ negsuc 0 | some len ↦ as_isize len ]

-- `checked_guest_len`
unfoldable pub checked_guest_len : ℤ → ℕ → Result ContractError ℕ
checked_guest_len (negsuc n) max_single_alloc = err (invalid_length (negsuc n))
checked_guest_len (pos len) max_single_alloc =
    if ltb max_single_alloc len then err (allocation_too_large len max_single_alloc) else ok len
