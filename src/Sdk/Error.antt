-- ===== src/Sdk/Error.antt =====
-- src/error.rs: the internal errors of the SDK, with their `Display`.
use ave_contract_sdk.Base.{ℕ, ◌≡◌, refl}
use ave_contract_sdk.Base.Text.{String, ◌<>◌, decimal}

pub data Error : Type 0 where
  serialization : String → Error
  deserialization : String → Error
  memory_limit_exceeded : ℕ → ℕ → Error
  host_allocation_failed : ℕ → Error
  integer_overflow : String → Error

unfoldable pub error_text : Error → String
unfolding decimal
error_text (serialization e) = "Serialization error: " <> e
error_text (deserialization e) = "Deserialization error: " <> e
error_text (memory_limit_exceeded requested max) =
    "Memory limit exceeded: requested "
    <> decimal requested
    <> " bytes, maximum allowed is "
    <> decimal max
    <> " bytes"
error_text (host_allocation_failed requested) =
    "Host allocation failed: could not allocate " <> decimal requested <> " bytes"
error_text (integer_overflow e) = "Integer overflow: " <> e

memory_limit_text :
    error_text (memory_limit_exceeded 20_000_000 10_000_000)
    ≡ "Memory limit exceeded: requested 20000000 bytes, maximum allowed is 10000000 bytes"
unfolding error_text
memory_limit_text = refl
