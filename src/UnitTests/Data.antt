-- ===== src/UnitTests/Data.antt =====
-- The tests of example2/src/lib.rs.
use ave_contract_sdk.Base.{◌≡◌, refl, Bool, true, false, ◌&&◌}
use ave_contract_sdk.Base.Text.{◌=s=◌}
use ave_contract_sdk.Sdk.Context.{Context, new, init_default}
use ave_contract_sdk.Example.Data.{State, StateEvent, change_data, init_logic, contract_logic}

abbrev empty : State
empty = record { text = "" }

abbrev event_context : Context StateEvent
event_context = record { event = change_data "AveLedger"; is_owner = false }

abbrev contract_test : Bool
contract_test =
    let result = contract_logic event_context (new empty) in
    result.state.text =s= "AveLedger" && result.success

abbrev init_test : Bool
init_test =
    let state : State = record { text = "initial" } in
    let check = init_logic state init_default in check.success

data_pass : (contract_test ≡ true) × (init_test ≡ true)
unfolding contract_logic
data_pass = (refl, refl)
