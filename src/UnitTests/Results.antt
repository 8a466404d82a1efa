-- ===== src/UnitTests/Results.antt =====
-- The tests of src/tests.rs on results and on single transfers, on the mock host.
use ave_contract_sdk.Base.{ℕ, ◌≡◌, refl, Bool, true, false, ◌&&◌, not, ◌==◌, [], ◌∷◌}
use ave_contract_sdk.Base.Machine.{pos, negsuc}
use ave_contract_sdk.Base.Text.{String, ◌=s=◌}
use ave_contract_sdk.Sdk.Error.{Error, deserialization}
use ave_contract_sdk.Sdk.Context.{new, accept, reject, init_default, accept_init, reject_init}
use ave_contract_sdk.Sdk.Extern.{Stop, error}
use ave_contract_sdk.Sdk.Transfer.{get_from_context, validate_host_len}
use ave_contract_sdk.Sdk.Mock.{
  MockHost, mock, hold, store_data, set_force_pointer_len, pointer_len, read_bytes_into_vec, reset,
  take_id,
}
use ave_contract_sdk.UnitTests.{unwrap, unwrap_err, same_bytes}

-- `TestState`, with its value as a natural number.
pub record TestState : Type 0 where
  pub value : ℕ
  pub name : String

abbrev state : TestState
state = record { value = 1; name = "test" }

abbrev test_contract_result_new : Bool
test_contract_result_new =
    let result = new (record state { value = 42 }) in
    result.state.value == 42 && not result.success && result.error =s= ""

abbrev test_contract_result_accept : Bool
test_contract_result_accept =
    let result = new state in
    let accepted = accept result in not result.success && accepted.success && accepted.error =s= ""

abbrev test_contract_result_reject : Bool
test_contract_result_reject =
    let result = reject "something went wrong" (new state) in
    not result.success && result.error =s= "something went wrong"

abbrev test_contract_init_check_accept : Bool
test_contract_init_check_accept =
    let check = accept_init init_default in not init_default.success && check.success

abbrev test_contract_init_check_reject : Bool
test_contract_init_check_reject =
    let check = reject_init "invalid state" init_default in
    not check.success && check.error =s= "invalid state"

results_pass :
    (test_contract_result_new ≡ true)
    × (test_contract_result_accept ≡ true)
    × (test_contract_result_reject ≡ true)
    × (test_contract_init_check_accept ≡ true)
    × (test_contract_init_check_reject ≡ true)
results_pass = (refl, refl, refl, refl, refl)

module _ (s : MockHost) where
  -- From whatever the thread's statics were.
  abbrev test_get_from_context_success : Bool
  test_get_from_context_success =
      let payload = 1 ∷ 2 ∷ 3 ∷ 4 ∷ 5 ∷ [] in
      let (stored, s') = store_data payload (hold s) in
      unwrap stored (λ ptr. unwrap (get_from_context mock ptr s').0 (same_bytes payload))

  -- `matches!`, on the whole message
  abbrev is_negative_length : Stop mock.Trap Error → Bool
  is_negative_length (error (deserialization msg)) = msg =s= "Invalid negative length from host"
  is_negative_length _ = false

  abbrev test_get_from_context_negative_len : Bool
  test_get_from_context_negative_len =
      let s' = set_force_pointer_len (negsuc 0) (hold s) in
      unwrap_err (get_from_context mock (pos 1234) s').0 is_negative_length

  transfers_pass :
      (test_get_from_context_success ≡ true) × (test_get_from_context_negative_len ≡ true)
  unfolding hold reset store_data take_id set_force_pointer_len get_from_context pointer_len
      validate_host_len read_bytes_into_vec
  transfers_pass = (refl, refl)
