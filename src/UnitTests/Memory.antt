-- ===== src/UnitTests/Memory.antt =====
-- The tests of src/runtime/tests.rs on the memory manager and on the staging.
use ave_contract_sdk.Base.{
  ℕ, ◌*◌, ◌-◌, ◌^◌, ◌≡◌, refl, Bool, true, false, ◌&&◌, List, [], ◌∷◌, replicate, ◌==◌,
}
use ave_contract_sdk.Base.Machine.{pos, negsuc}
use ave_contract_sdk.Base.Text.{◌=s=◌}
use ave_contract_sdk.Sdk.Wire.{frame}
use ave_contract_sdk.Runtime.Error.{
  ContractError, invalid_pointer, write_out_of_bounds, allocation_too_large, invalid_length,
  contract_error_text,
}
use ave_contract_sdk.Runtime.Config.{build, default}
use ave_contract_sdk.Runtime.Memory.{
  from_limits, default_manager, alloc, write_bytes, write_bytes_at, read_data, read_bytes,
  checked_guest_len, resize, grown,
}
use ave_contract_sdk.Runtime.Staging.{write_contract_data}
use ave_contract_sdk.UnitTests.{unwrap, unwrap_err, same_bytes}

abbrev is_too_large : ContractError → Bool
is_too_large (allocation_too_large size max) = true
is_too_large _ = false

abbrev is_out_of_bounds : ContractError → Bool
is_out_of_bounds (write_out_of_bounds offset size) = true
is_out_of_bounds _ = false

abbrev is_invalid_pointer : ContractError → Bool
is_invalid_pointer (invalid_pointer pointer) = true
is_invalid_pointer _ = false

abbrev memory_manager_alloc_and_read_write_round_trip : Bool
memory_manager_alloc_and_read_write_round_trip =
    let (allocated, m) = alloc 4 default_manager in
    unwrap allocated (λ ptr.
      let (written, m') = write_bytes ptr (1 ∷ 2 ∷ 3 ∷ 4 ∷ []) m in
      unwrap written (λ _.
        unwrap (read_data ptr m') (same_bytes (1 ∷ 2 ∷ 3 ∷ 4 ∷ []))
        && unwrap (read_bytes ptr 4 m') (same_bytes (1 ∷ 2 ∷ 3 ∷ 4 ∷ []))))

abbrev memory_manager_alloc_too_large_fails : Bool
memory_manager_alloc_too_large_fails =
    unwrap_err (alloc (2 * 1024 * 1024) (from_limits (build 512 2))).0 is_too_large

-- `matches!(err, ContractError::WriteOutOfBounds { offset: 4, size: 2 })`
abbrev is_four_of_two : ContractError → Bool
is_four_of_two (write_out_of_bounds offset size) = offset == 4 && size == 2
is_four_of_two _ = false

abbrev memory_manager_write_out_of_bounds_fails : Bool
memory_manager_write_out_of_bounds_fails =
    let (allocated, m) = alloc 2 default_manager in
    unwrap allocated (λ ptr. unwrap_err (write_bytes ptr (1 ∷ 2 ∷ 3 ∷ 4 ∷ []) m).0 is_four_of_two)

-- `matches!(err, ContractError::InvalidPointer { pointer: 9999 })`
abbrev is_invalid_9999 : ContractError → Bool
is_invalid_9999 (invalid_pointer pointer) = pointer == 9999
is_invalid_9999 _ = false

abbrev memory_manager_invalid_pointer_fails : Bool
memory_manager_invalid_pointer_fails = unwrap_err (read_data 9999 default_manager) is_invalid_9999

abbrev memory_manager_read_data_at_boundary : Bool
memory_manager_read_data_at_boundary =
    let (allocated, m) = alloc 8 default_manager in
    unwrap allocated (λ ptr.
      let (written, m') = write_bytes ptr (replicate 8 9) m in
      unwrap written (λ _.
        unwrap (read_data ptr m') (same_bytes (replicate 8 9))
        && unwrap_err (read_data (2 ^ 64 - 1) m') is_invalid_pointer))

abbrev memory_manager_write_bytes_at_respects_allocation_bounds : Bool
memory_manager_write_bytes_at_respects_allocation_bounds =
    let (allocated, m) = alloc 8 default_manager in
    unwrap allocated (λ ptr.
      let (first, m₁) = write_bytes_at ptr 0 (1 ∷ 2 ∷ 3 ∷ 4 ∷ []) m in
      unwrap first (λ _.
        let (second, m₂) = write_bytes_at ptr 4 (5 ∷ 6 ∷ 7 ∷ 8 ∷ []) m₁ in
        unwrap second (λ _.
          let (past, m₃) = write_bytes_at ptr 7 (9 ∷ 10 ∷ []) m₂ in
          unwrap (read_data ptr m₂) (same_bytes (1 ∷ 2 ∷ 3 ∷ 4 ∷ 5 ∷ 6 ∷ 7 ∷ 8 ∷ []))
          && unwrap_err past is_out_of_bounds
          && unwrap_err (write_bytes_at 9999 0 (1 ∷ []) m₃).0 is_invalid_pointer)))

abbrev checked_guest_len_accepts_zero_and_normal_values : Bool
checked_guest_len_accepts_zero_and_normal_values =
    unwrap (checked_guest_len (pos 0) 1024) (λ len. len == 0)
    && unwrap (checked_guest_len (pos 1024) 1024) (λ len. len == 1024)

-- `matches!(err, ContractError::InvalidLength { len: -1 })`
abbrev is_length_minus_one : ContractError → Bool
is_length_minus_one (invalid_length (negsuc n)) = n == 0
is_length_minus_one _ = false

abbrev checked_guest_len_rejects_negative : Bool
checked_guest_len_rejects_negative =
    unwrap_err (checked_guest_len (negsuc 0) 1024)
      (λ e. is_length_minus_one e && contract_error_text e =s= "invalid length: -1")

-- `matches!(err, ContractError::AllocationTooLarge { size: 2048, max: 1024 })`
abbrev is_2048_of_1024 : ContractError → Bool
is_2048_of_1024 (allocation_too_large size max) = size == 2048 && max == 1024
is_2048_of_1024 _ = false

abbrev checked_guest_len_rejects_above_cap : Bool
checked_guest_len_rejects_above_cap = unwrap_err (checked_guest_len (pos 2048) 1024) is_2048_of_1024

-- The round of the test's loop for one payload.
abbrev staged_as_borsh : List ℕ → Bool
staged_as_borsh payload =
    let (staged, m) = write_contract_data payload default_manager in
    unwrap staged (λ ptr. unwrap (read_data ptr m) (same_bytes (frame payload)))

abbrev write_contract_data_matches_borsh_encoding : Bool
write_contract_data_matches_borsh_encoding =
    staged_as_borsh []
    && staged_as_borsh (123 ∷ 125 ∷ [])
    && staged_as_borsh (123 ∷ 34 ∷ 97 ∷ 34 ∷ 58 ∷ 91 ∷ 49 ∷ 44 ∷ 50 ∷ 44 ∷ 51 ∷ 93 ∷ 125 ∷ [])
    && staged_as_borsh (replicate 1000 7)

manager_passes :
    (memory_manager_alloc_and_read_write_round_trip ≡ true)
    × (memory_manager_alloc_too_large_fails ≡ true)
    × (memory_manager_write_out_of_bounds_fails ≡ true)
    × (memory_manager_invalid_pointer_fails ≡ true)
    × (memory_manager_read_data_at_boundary ≡ true)
    × (memory_manager_write_bytes_at_respects_allocation_bounds ≡ true)
unfolding from_limits default build alloc resize grown write_bytes write_bytes_at read_data
    read_bytes
manager_passes = (refl, refl, refl, refl, refl, refl)

lengths_pass :
    (checked_guest_len_accepts_zero_and_normal_values ≡ true)
    × (checked_guest_len_rejects_negative ≡ true)
    × (checked_guest_len_rejects_above_cap ≡ true)
unfolding contract_error_text checked_guest_len
lengths_pass = (refl, refl, refl)

staging_passes : write_contract_data_matches_borsh_encoding ≡ true
unfolding from_limits default build alloc resize grown write_bytes_at read_data read_bytes
    write_contract_data
staging_passes = refl
