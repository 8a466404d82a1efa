-- ===== src/Sdk/Contract.antt =====
-- src/lib.rs: the two entry points of a contract, `check_init_data` and `execute_contract`.
use ave_contract_sdk.Base.{ℕ, Bool, List, if◌then◌else◌, ◌==◌, not, false}
use ave_contract_sdk.Base.Machine.{ℤ, pos, negsuc}
use ave_contract_sdk.Base.Text.{String, ◌<>◌}
use ave_contract_sdk.Base.Result.{Result, map_err as map_failure}
use ave_contract_sdk.Base.Exec.{Exec, ◌>>=◌, ◌>>◌, pure, fail_if}
use ave_contract_sdk.Sdk.Error.{Error}
use ave_contract_sdk.Sdk.Context.{Context, ContractResult, ContractInitCheck, new, init_default}
use ave_contract_sdk.Sdk.Wire.{Wire, Json, ContractResultData}
use ave_contract_sdk.Sdk.Extern.{Extern, Stop, trap, error, try, map_err, recover}
use ave_contract_sdk.Sdk.Transfer.{read_and_parse, store}

abbrev pub owner_flag : ℕ
owner_flag = 1

-- `is_owner == OWNER_FLAG`
abbrev pub is_owner_flag : ℤ → Bool
is_owner_flag (pos n) = n == owner_flag
is_owner_flag (negsuc n) = false

abbrev pub err_init_rejected : String
err_init_rejected = "Error running init contract data"

abbrev pub err_event_rejected : String
err_event_rejected = "Error running contract event"

abbrev pub err_final_state_ser : String
err_final_state_ser = "Cannot serialize contract final state into JSON bytes"

abbrev pub err_return_init_result : String
err_return_init_result = "Cannot return init contract result"

abbrev pub err_return_result : String
err_return_result = "Cannot return contract result"

-- What `try_execute_contract` stores for the result that the callback left.
abbrev pub result_data : {State : Type 0} → List ℕ → ContractResult State → ContractResultData
result_data state_bytes r = record {
  final_state = state_bytes;
  success = r.success;
  error = if r.success then "" else err_event_rejected <> ": " <> r.error;
}

module _ (x : Extern) (w : Wire) where
  -- `store(&error_result).unwrap_or(0)`, of the error result whose borsh encoding is `encoded`.
  abbrev pub store_or_zero : Result String (List ℕ) → Exec x.Trap x.State ℕ
  store_or_zero encoded s =
      let (r, s') = store x encoded s in recover {E = Error} (λ _. pure 0) (λ t. t) r s'

  module _ {State : Type 0} (state_json : Json State) where
    unfoldable pub try_check_init_data :
        ℤ → (State → ContractInitCheck → ContractInitCheck) → Exec (Stop x.Trap String) x.State ℕ
    try_check_init_data state_ptr callback = do
      state ← read_and_parse x w state_json state_ptr "State"
      let contract_result = callback state init_default
      fail_if (not contract_result.success)
          (error (err_init_rejected <> ": " <> contract_result.error))
      map_err (λ _. err_return_init_result) (store x (w.encode_init w.init_ok))

    unfoldable pub check_init_data :
        ℤ → (State → ContractInitCheck → ContractInitCheck) → Exec x.Trap x.State ℕ
    unfolding try_check_init_data
    check_init_data state_ptr callback s =
        let (r, s') = try_check_init_data state_ptr callback s in
        recover (λ e. store_or_zero (w.encode_init (w.init_error e))) (λ t. t) r s'

    -- The current state, or the initial state where the current one cannot be read.
    unfoldable pub read_state : ℤ → ℤ → Exec (Stop x.Trap String) x.State State
    read_state state_ptr init_state_ptr s =
        let (r, s') = read_and_parse x w state_json state_ptr "State" s in
        recover
          (λ first.
            map_err (λ second. first <> "; fallback to init state also failed: " <> second)
              (read_and_parse x w state_json init_state_ptr "Init State"))
          trap r s'

    module _ {Event : Type 0} (event_json : Json Event) where
      unfoldable pub try_execute_contract :
          ℤ
          → ℤ
          → ℤ
          → ℤ
          → (Context Event → ContractResult State → ContractResult State)
          → Exec (Stop x.Trap String) x.State ℕ
      unfolding read_state
      try_execute_contract state_ptr init_state_ptr event_ptr is_owner callback = do
        state ← read_state state_ptr init_state_ptr
        event ← read_and_parse x w event_json event_ptr "Event"
        let context : Context Event = record { event = event; is_owner = is_owner_flag is_owner }
        let contract_result = callback context (new state)
        state_bytes ←
            try (map_failure (λ _. err_final_state_ser) (state_json.to_vec contract_result.state))
        map_err (λ _. err_return_result)
            (store x (w.encode_result (result_data state_bytes contract_result)))

      unfoldable pub execute_contract :
          ℤ
          → ℤ
          → ℤ
          → ℤ
          → (Context Event → ContractResult State → ContractResult State)
          → Exec x.Trap x.State ℕ
      unfolding try_execute_contract
      execute_contract state_ptr init_state_ptr event_ptr is_owner callback s =
          let (r, s') =
            try_execute_contract state_ptr init_state_ptr event_ptr is_owner callback s in
          recover (λ e. store_or_zero (w.encode_result (w.result_error e))) (λ t. t) r s'
