-- ===== src/Sdk/Transfer.antt =====
-- src/lib.rs: how values cross the boundary: lengths from the host are checked before a buffer is
-- made, and results are encoded, given host memory and written there.
use ave_contract_sdk.Base.{
  ℕ, ◌-◌, ◌^◌, Bool, false, List, replicate, length, ltb, if◌then◌else◌, ◌==◌,
}
use ave_contract_sdk.Base.Machine.{ℤ, pos, negsuc, exceeds, is_negative, as_u32, as_i32}
use ave_contract_sdk.Base.Text.{String, ◌<>◌, decimal}
use ave_contract_sdk.Base.Result.{Result, ok, err, map_err as map_failure}
use ave_contract_sdk.Base.Exec.{Exec, ◌>>=◌, ◌>>◌, pure, fail_if}
use ave_contract_sdk.Sdk.Error.{
  Error, serialization, deserialization, memory_limit_exceeded, host_allocation_failed,
  integer_overflow, error_text,
}
use ave_contract_sdk.Sdk.Wire.{Wire, Json}
use ave_contract_sdk.Sdk.Extern.{Extern, Stop, error, call, try, map_err}

abbrev pub max_data_size : ℕ
max_data_size = 10_000_000

-- `usize` of the contract has 32 bits.
unfoldable pub validate_host_len : ℤ → Result Error ℕ
validate_host_len len =
    if exceeds len max_data_size
    then err (memory_limit_exceeded (as_u32 len) max_data_size)
    else if is_negative len
    then err (deserialization "Invalid negative length from host")
    else ok (as_u32 len)

unfoldable pub validate_serialized_len : List ℕ → Result Error ℕ
unfolding decimal
validate_serialized_len bytes =
    if ltb (2 ^ 31 - 1) (length bytes)
    then err (
        integer_overflow
          ("Serialized data too large: " <> decimal (length bytes) <> " bytes exceeds i32::MAX"))
    else ok (length bytes)

-- `serialize`, of a value whose borsh encoding is `encoded`.
unfoldable pub serialize : Result String (List ℕ) → Result Error (List ℕ)
serialize encoded = map_failure serialization encoded

-- `raw_ptr == 0`
abbrev pub is_zero : ℤ → Bool
is_zero (pos n) = n == 0
is_zero (negsuc n) = false

module _ (w : Wire) where
  unfoldable pub deserialize : List ℕ → Result Error (List ℕ)
  deserialize bytes = map_failure deserialization (w.decode_data bytes)

module _ (x : Extern) where
  unfoldable pub read_host_bytes : ℤ → List ℕ → ℕ → Exec x.Trap x.State (List ℕ)
  read_host_bytes pointer buffer len = x.read_bytes pointer buffer (as_i32 len)

  unfoldable pub write_host_bytes : ℤ → List ℕ → Exec x.Trap x.State (Unit {0})
  write_host_bytes ptr bytes = x.write_bytes ptr bytes (as_i32 (length bytes))

  unfoldable pub get_from_context : ℤ → Exec (Stop x.Trap Error) x.State (List ℕ)
  unfolding read_host_bytes
  get_from_context pointer = do
    host_len ← call (x.pointer_len pointer)
    len ← try (validate_host_len host_len)
    call (read_host_bytes pointer (replicate len 0) len)

  -- `store`, of a value whose borsh encoding is `encoded`.
  unfoldable pub store : Result String (List ℕ) → Exec (Stop x.Trap Error) x.State ℕ
  unfolding write_host_bytes serialize
  store encoded = do
    bytes ← try (map_failure (λ e. serialization (error_text e)) (serialize encoded))
    len ← try (validate_serialized_len bytes)
    raw_ptr ← call (x.alloc len)
    fail_if (is_zero raw_ptr) (error (host_allocation_failed (length bytes)))
    call (write_host_bytes (as_i32 (as_u32 raw_ptr)) bytes)
    pure (as_u32 raw_ptr)

  module _ (w : Wire) {T : Type 0} (json : Json T) where
    unfoldable pub read_and_parse : ℤ → String → Exec (Stop x.Trap String) x.State T
    unfolding deserialize
    read_and_parse ptr context_name = do
      bytes ←
          map_err (λ e. "Cannot read " <> context_name <> " from host memory: " <> error_text e)
            (get_from_context ptr)
      contract_data ← try (
          map_failure (λ e. "Cannot deserialize " <> context_name <> ": " <> error_text e)
            (deserialize w bytes))
      try (
          map_failure (λ (e : String). "Cannot parse " <> context_name <> " from JSON bytes: " <> e)
            (json.from_slice contract_data))
