-- ===== src/UnitTests/Counters.antt =====
-- The tests of example/src/lib.rs.
use ave_contract_sdk.Base.{◌≡◌, refl, Bool, true, false, ◌&&◌, not, ◌==◌}
use ave_contract_sdk.Base.Text.{◌=s=◌}
use ave_contract_sdk.Sdk.Context.{ContractResult, new, init_default}
use ave_contract_sdk.Example.Counters.{
  State, StateEvent, mod_one, mod_two, mod_three, mod_all, reset_all, init_logic, contract_logic,
}

abbrev initial_state : State
initial_state = record { one = 1; two = 2; three = 3 }

-- The result of the contract on that state.
abbrev after : StateEvent → Bool → ContractResult State
after event is_owner =
    contract_logic (record { event = event; is_owner = is_owner }) (new initial_state)

abbrev contract_test : Bool
contract_test = let result = after (mod_one 100) false in result.state.one == 100 && result.success

abbrev contract_test_mod_two : Bool
contract_test_mod_two =
    let result = after (mod_two 42) false in result.state.two == 42 && result.success

abbrev contract_test_mod_three_success : Bool
contract_test_mod_three_success =
    let result = after (mod_three 49) false in result.state.three == 49 && result.success

abbrev contract_test_fail : Bool
contract_test_fail =
    let result = after (mod_three 50) false in
    result.state.three == 3
    && result.error =s= "Can not change three value, 50 is a invalid value"
    && not result.success

abbrev contract_test_mod_all : Bool
contract_test_mod_all =
    let result = after (mod_all 10 20 30) false in
    result.state.one == 10 && result.state.two == 20 && result.state.three == 30 && result.success

abbrev contract_test_reset_all_owner_only : Bool
contract_test_reset_all_owner_only =
    let refused = after reset_all false in
    let result = after reset_all true in
    not refused.success
    && refused.state.one == 1
    && result.success
    && result.state.one == 0
    && result.state.two == 0
    && result.state.three == 0

abbrev init_test : Bool
init_test = let check = init_logic initial_state init_default in check.success

counters_pass :
    (contract_test ≡ true)
    × (contract_test_mod_two ≡ true)
    × (contract_test_mod_three_success ≡ true)
    × (contract_test_fail ≡ true)
    × (contract_test_mod_all ≡ true)
    × (contract_test_reset_all_owner_only ≡ true)
    × (init_test ≡ true)
unfolding contract_logic
counters_pass = (refl, refl, refl, refl, refl, refl, refl)
