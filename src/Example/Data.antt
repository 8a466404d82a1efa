-- ===== src/Example/Data.antt =====
-- example2/src/lib.rs: a contract of one text.
use ave_contract_sdk.Base.{ℕ}
use ave_contract_sdk.Base.Machine.{ℤ}
use ave_contract_sdk.Base.Text.{String}
use ave_contract_sdk.Base.Exec.{Exec}
use ave_contract_sdk.Sdk.Context.{Context, ContractResult, ContractInitCheck, accept, accept_init}
use ave_contract_sdk.Sdk.Wire.{Wire, Json}
use ave_contract_sdk.Sdk.Extern.{Extern}
use ave_contract_sdk.Sdk.Contract.{execute_contract, check_init_data}

pub record State : Type 0 where
  pub text : String

pub data StateEvent : Type 0 where
  change_data : String → StateEvent

abbrev pub init_logic : State → ContractInitCheck → ContractInitCheck
init_logic state contract_result = accept_init contract_result

abbrev pub changed : StateEvent → State → State
changed (change_data text) state = record { text = text }

unfoldable pub contract_logic : Context StateEvent → ContractResult State → ContractResult State
contract_logic context r = accept (record r { state = changed context.event r.state })

-- The exported functions.
module _ (x : Extern) (w : Wire) (state_json : Json State) where
  unfoldable pub main_function : Json StateEvent → ℤ → ℤ → ℤ → ℤ → Exec x.Trap x.State ℕ
  unfolding contract_logic
  main_function event_json state_ptr init_state_ptr event_ptr is_owner =
      execute_contract x w state_json event_json state_ptr init_state_ptr event_ptr is_owner
        contract_logic

  unfoldable pub init_check_function : ℤ → Exec x.Trap x.State ℕ
  init_check_function state_ptr = check_init_data x w state_json state_ptr init_logic
