-- ===== src/Sdk/Steady/Entry.antt =====
-- src/lib.rs: the entry points keep a host as it should be, and trap as allowed, where their reads and
-- their stores do.
use ave_contract_sdk.Base.{ℕ, not, List}
use ave_contract_sdk.Base.Machine.{ℤ}
use ave_contract_sdk.Base.Text.{String, ◌<>◌}
use ave_contract_sdk.Base.Result.{Result, map_err as map_failure}
use ave_contract_sdk.Base.Exec.{pure, fail_if}
use ave_contract_sdk.Sdk.Error.{Error, error_text}
use ave_contract_sdk.Sdk.Context.{Context, ContractResult, ContractInitCheck, new, init_default}
use ave_contract_sdk.Sdk.Wire.{Wire, Json}
use ave_contract_sdk.Sdk.Extern.{Extern, error, try, map_err}
use ave_contract_sdk.Sdk.Transfer.{get_from_context, store, read_and_parse, deserialize}
use ave_contract_sdk.Sdk.Contract.{
  is_owner_flag, result_data, err_final_state_ser, err_init_rejected, read_state,
  try_execute_contract, execute_contract, try_check_init_data, check_init_data, store_or_zero,
}
use ave_contract_sdk.Sdk.Steady.{
  Steady, Ends, bind-Steady, try-Steady, fail_if-Steady, map_err-Steady, recover-Steady,
  recover-Ends, IsSome, IsSome-intro,
}

module _ (x : Extern) (P : x.Trap → Type 0) (Inv : x.State → Type 0) (w : Wire)
    (reads : (p : ℤ) → Steady P Inv (get_from_context x p))
    (stores : (encoded : Result String (List ℕ))
      → IsSome encoded
      → Steady P Inv (store x encoded)) where
  read_and_parse-Steady :
      {A : Type 0} (json : Json A) (p : ℤ) (name : String)
      → Steady P Inv (read_and_parse x w json p name)
  unfolding read_and_parse
  read_and_parse-Steady json p name =
      bind-Steady P Inv (map_err _ (get_from_context x p)) _
        (map_err-Steady P Inv _ (get_from_context x p) (reads p))
        (λ bytes.
          bind-Steady P Inv
            (try (
              map_failure (λ e. "Cannot deserialize " <> name <> ": " <> error_text e)
                (deserialize w bytes)))
            _
            (try-Steady P Inv (
              map_failure (λ e. "Cannot deserialize " <> name <> ": " <> error_text e)
                (deserialize w bytes)))
            (λ payload. try-Steady P Inv _))

  store_or_zero-Ends :
      (encoded : Result String (List ℕ)) → IsSome encoded → Ends P Inv (store_or_zero x w encoded)
  store_or_zero-Ends encoded h s i =
      let (i', stops) = stores encoded h s i in
      recover-Ends P Inv {E = Error} (λ _. pure 0) (store x encoded s).0 (store x encoded s).1 i'
        stops (λ _ s' i'. (i', tt))

  module _ {State : Type 0} (state_json : Json State) where
    try_check_init_data-Steady :
        (callback : State → ContractInitCheck → ContractInitCheck) (p : ℤ)
        → Steady P Inv (try_check_init_data x w state_json p callback)
    unfolding try_check_init_data
    try_check_init_data-Steady callback p =
        bind-Steady P Inv (read_and_parse x w state_json p "State") _
          (read_and_parse-Steady state_json p "State")
          (λ st.
            bind-Steady P Inv
              (fail_if (not (callback st init_default).success)
                (error (err_init_rejected <> ": " <> (callback st init_default).error)))
              _ (fail_if-Steady P Inv (not (callback st init_default).success) _)
              (λ u. map_err-Steady P Inv _ (store x (w.encode_init w.init_ok)) (
                stores (w.encode_init w.init_ok)
                  (IsSome-intro (w.encode_init w.init_ok) (w.encode_init-pos w.init_ok)))))

    pub check_init_data-Ends :
        (callback : State → ContractInitCheck → ContractInitCheck) (p : ℤ)
        → Ends P Inv (check_init_data x w state_json p callback)
    unfolding check_init_data
    check_init_data-Ends callback p s i =
        let (i', stops) = try_check_init_data-Steady callback p s i in
        recover-Ends P Inv (λ e. store_or_zero x w (w.encode_init (w.init_error e)))
          (try_check_init_data x w state_json p callback s).0
          (try_check_init_data x w state_json p callback s).1 i' stops
          (λ e.
            store_or_zero-Ends (w.encode_init (w.init_error e))
              (IsSome-intro (w.encode_init (w.init_error e)) (w.encode_init-pos (w.init_error e))))

    read_state-Steady : (p i : ℤ) → Steady P Inv (read_state x w state_json p i)
    unfolding read_state
    read_state-Steady p i s inv =
        let (inv', stops) = read_and_parse-Steady state_json p "State" s inv in
        recover-Steady P Inv _ (read_and_parse x w state_json p "State" s).0
          (read_and_parse x w state_json p "State" s).1 inv' stops
          (λ first.
            map_err-Steady P Inv _ (read_and_parse x w state_json i "Init State")
              (read_and_parse-Steady state_json i "Init State"))

    module _ {Event : Type 0} (event_json : Json Event)
        (callback : Context Event → ContractResult State → ContractResult State)
        (p i q owner : ℤ) where
      try_execute_contract-Steady :
          Steady P Inv (try_execute_contract x w state_json event_json p i q owner callback)
      unfolding try_execute_contract
      try_execute_contract-Steady =
          bind-Steady P Inv (read_state x w state_json p i) _ (read_state-Steady p i) (λ st.
            bind-Steady P Inv (read_and_parse x w event_json q "Event") _
              (read_and_parse-Steady event_json q "Event")
              (λ ev.
                let left =
                  callback (record { event = ev; is_owner = is_owner_flag owner }) (new st) in
                bind-Steady P Inv
                  (try (map_failure (λ _. err_final_state_ser) (state_json.to_vec left.state))) _
                  (try-Steady P Inv
                    (map_failure (λ _. err_final_state_ser) (state_json.to_vec left.state)))
                  (λ bytes.
                    map_err-Steady P Inv _ (store x (w.encode_result (result_data bytes left))) (
                      stores (w.encode_result (result_data bytes left)) (
                        IsSome-intro (w.encode_result (result_data bytes left))
                          (w.encode_result-pos (result_data bytes left)))))))

      pub execute_contract-Ends :
          Ends P Inv (execute_contract x w state_json event_json p i q owner callback)
      unfolding execute_contract
      execute_contract-Ends s inv =
          let (inv', stops) = try_execute_contract-Steady s inv in
          recover-Ends P Inv (λ e. store_or_zero x w (w.encode_result (w.result_error e)))
            (try_execute_contract x w state_json event_json p i q owner callback s).0
            (try_execute_contract x w state_json event_json p i q owner callback s).1 inv' stops
            (λ e. store_or_zero-Ends (w.encode_result (w.result_error e)) (
              IsSome-intro (w.encode_result (w.result_error e))
                (w.encode_result-pos (w.result_error e))))
