-- ===== src/UnitTests/Errors.antt =====
-- The tests of src/error.rs. That the errors may be sent between threads is the compiler's to check.
use ave_contract_sdk.Base.{◌≡◌, refl, Bool, true}
use ave_contract_sdk.Base.Text.{◌=s=◌}
use ave_contract_sdk.Sdk.Error.{
  serialization, deserialization, memory_limit_exceeded, host_allocation_failed, integer_overflow,
  error_text,
}

abbrev test_serialization_error_display : Bool
test_serialization_error_display =
    error_text (serialization "test error message") =s= "Serialization error: test error message"

abbrev test_deserialization_error_display : Bool
test_deserialization_error_display =
    error_text (deserialization "invalid format") =s= "Deserialization error: invalid format"

abbrev test_memory_limit_exceeded_error_display : Bool
test_memory_limit_exceeded_error_display =
    error_text (memory_limit_exceeded 20_000_000 10_000_000)
    =s= "Memory limit exceeded: requested 20000000 bytes, maximum allowed is 10000000 bytes"

abbrev test_host_allocation_failed_error_display : Bool
test_host_allocation_failed_error_display =
    error_text (host_allocation_failed 4096)
    =s= "Host allocation failed: could not allocate 4096 bytes"

abbrev test_integer_overflow_error_display : Bool
test_integer_overflow_error_display =
    error_text (integer_overflow "value too large for u32")
    =s= "Integer overflow: value too large for u32"

displays_pass :
    (test_serialization_error_display ≡ true)
    × (test_deserialization_error_display ≡ true)
    × (test_memory_limit_exceeded_error_display ≡ true)
    × (test_host_allocation_failed_error_display ≡ true)
    × (test_integer_overflow_error_display ≡ true)
unfolding error_text
displays_pass = (refl, refl, refl, refl, refl)
