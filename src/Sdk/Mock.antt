-- ===== src/Sdk/Mock.antt =====
-- src/externf.rs, `test_impl`: the host that the unit tests link, which keeps vectors by pointer.
-- The map from pointers to vectors is a function; an `i32` pointer that the host makes starts at 1000
-- and grows. A panic ends the call; the overflow checks of a test build are on.
pub mod Roundtrip
use ave_contract_sdk.Base.{
  ℕ, suc, ◌-◌, ◌^◌, Bool, false, Option, none, some, List, [], replicate, length, overwrite, ltb,
  ◌==◌, if◌then◌else◌,
}
use ave_contract_sdk.Base.Machine.{ℤ, pos, negsuc, as_i32}
use ave_contract_sdk.Base.Result.{ok, err}
use ave_contract_sdk.Base.Exec.{Exec, ◌>>=◌}
use ave_contract_sdk.Sdk.Extern.{Extern}

pub data Panic : Type 0 where
  add_overflow : Panic
  slice_out_of_range : Panic

-- The statics of the thread.
pub record MockHost : Type 0 where
  pub host_memory : ℤ → Option (List ℕ)
  pub next_id : ℕ
  pub force_alloc_zero : Bool
  pub force_pointer_len : Option ℤ

abbrev is_key : ℤ → ℤ → Bool
is_key (pos a) (pos b) = a == b
is_key (negsuc a) (negsuc b) = a == b
is_key _ _ = false

-- `HashMap::insert`
abbrev pub insert : ℤ → List ℕ → (ℤ → Option (List ℕ)) → ℤ → Option (List ℕ)
insert ptr bytes memory q = if is_key ptr q then some bytes else memory q

-- `unwrap_or_default`
abbrev pub or_empty : Option (List ℕ) → List ℕ
or_empty none = []
or_empty (some bytes) = bytes

-- What `reset` leaves, from whatever was there.
unfoldable pub reset : MockHost → MockHost
reset s = record {
  host_memory = λ ptr. none;
  next_id = 1000;
  force_alloc_zero = false;
  force_pointer_len = none;
}

-- `MockHostGuard::hold`, and the drop of the guard.
unfoldable pub hold : MockHost → MockHost
unfolding reset
hold s = reset s

unfoldable pub drop_guard : MockHost → MockHost
unfolding reset
drop_guard s = reset s

unfoldable pub set_force_alloc_zero : Bool → MockHost → MockHost
set_force_alloc_zero value s = record s { force_alloc_zero = value }

unfoldable pub set_force_pointer_len : ℤ → MockHost → MockHost
set_force_pointer_len value s = record s { force_pointer_len = some value }

-- `let current = *id; *id += 1; current`
unfoldable pub take_id : Exec Panic MockHost ℕ
take_id s =
    if ltb s.next_id (2 ^ 31 - 1)
    then (ok s.next_id, record s { next_id = suc s.next_id })
    else (err add_overflow, s)

unfoldable pub store_data : List ℕ → Exec Panic MockHost ℤ
unfolding take_id
store_data bytes = do
  ptr ← take_id
  λ s. (ok (pos ptr), record s { host_memory = insert (pos ptr) bytes s.host_memory })

unfoldable pub get_data : ℤ → MockHost → Option (List ℕ)
get_data ptr s = s.host_memory ptr

abbrev len_of : Option ℤ → Option (List ℕ) → ℤ
len_of (some forced) held = forced
len_of none none = pos 0
len_of none (some bytes) = as_i32 (length bytes)

unfoldable pub pointer_len : ℤ → Exec Panic MockHost ℤ
pointer_len pointer s = (ok (len_of s.force_pointer_len (s.host_memory pointer)), s)

unfoldable pub alloc : ℕ → Exec Panic MockHost ℤ
unfolding take_id
alloc len s =
    if s.force_alloc_zero
    then (ok (pos 0), s)
    else (do
      ptr ← take_id
      λ s. (
        ok (pos ptr),
        record s { host_memory = insert (pos ptr) (replicate len 0) s.host_memory },
      ))
        s

-- The buffer after the call.
unfoldable pub read_bytes_into_vec : ℤ → List ℕ → Exec Panic MockHost (List ℕ)
read_bytes_into_vec src_ptr dst s =
    let bytes = or_empty (s.host_memory src_ptr) in
    if ltb (length dst) (length bytes)
    then (err slice_out_of_range, s)
    else (ok (overwrite bytes dst), s)

unfoldable pub write_bytes_from_slice : ℤ → List ℕ → Exec Panic MockHost (Unit {0})
write_bytes_from_slice dst_ptr src s =
    (ok tt, record s { host_memory = insert dst_ptr src s.host_memory })

-- `read_host_bytes` and `write_host_bytes` of src/lib.rs in a test build: neither is given the length.
abbrev pub read_host_bytes : ℤ → List ℕ → ℤ → Exec Panic MockHost (List ℕ)
read_host_bytes pointer buffer _len = read_bytes_into_vec pointer buffer

abbrev pub write_host_bytes : ℤ → List ℕ → ℤ → Exec Panic MockHost (Unit {0})
write_host_bytes ptr bytes _len = write_bytes_from_slice ptr bytes

abbrev pub mock : Extern
mock = record {
  Trap = Panic;
  State = MockHost;
  read_bytes = read_host_bytes;
  pointer_len = pointer_len;
  alloc = alloc;
  write_bytes = write_host_bytes;
}
