-- ===== src/Sdk/Traced/Protocol.antt =====
-- src/lib.rs: on any host, whatever it returns, a contract keeps to the protocol of its calls.
use ave_contract_sdk.Base.{
  ℕ, ◌-◌, ◌^◌, ◌<◌, ◌≡◌, refl, inl, inr, not, List, arith, length, ltb, replicate, length-replicate,
  Bool-cases,
}
use ave_contract_sdk.Base.Machine.{ℤ, pos, as_u32, as_i32}
use ave_contract_sdk.Base.Text.{String}
use ave_contract_sdk.Base.Result.{Result, map_err as map_failure, Result-cases}
use ave_contract_sdk.Base.Exec.{Exec}
use ave_contract_sdk.Sdk.Context.{Context, ContractResult, new}
use ave_contract_sdk.Sdk.Wire.{Wire, Json}
use ave_contract_sdk.Sdk.Extern.{Extern, Stop, trap, error, try, recover}
use ave_contract_sdk.Sdk.Transfer.{
  is_zero, validate_host_len, validate_serialized_len, serialize, deserialize, read_host_bytes,
  write_host_bytes, get_from_context, store, read_and_parse,
}
use ave_contract_sdk.Sdk.Contract.{
  is_owner_flag, result_data, err_final_state_ser, read_state, try_execute_contract,
  execute_contract, try_check_init_data, check_init_data, store_or_zero,
}
use ave_contract_sdk.Sdk.Bounds.{validate_host_len_iff}
use ave_contract_sdk.Sdk.Traced.{Call, traced, IsSafe, writes}
use ave_contract_sdk.Sdk.Traced.Runs.{
  Ends-from, Reads, Writes, bind-Writes, recover-Reads, map_err-Writes, Returned, recovered,
  fail_if-Reads,
}
use ave_contract_sdk.Base.Text.{◌<>◌}
use ave_contract_sdk.Base.Exec.{pure, fail_if}
use ave_contract_sdk.Sdk.Context.{ContractInitCheck, init_default}
use ave_contract_sdk.Sdk.Contract.{err_init_rejected}

module _ (x : Extern) where
  get_from_context-Reads : (p : ℤ) → Reads (get_from_context (traced x) p)
  unfolding get_from_context read_host_bytes
  get_from_context-Reads p (log, s) safe = elim (Result-cases (x.pointer_len p s).0) [
    | inl (n, e) ↦ elim (Result-cases (validate_host_len n)) [
      | inl (len, v) ↦
          let (given, small) = (validate_host_len_iff n len).0 v in
          let size : length (replicate {A = ℕ} len 0) ≡ len = length-replicate len 0 in
          rw (e, v)
            (
              (refl, rw size given, ground (arith, size, small), omega (arith, size, small), safe),
              refl,
            )
      | inr (failure, v) ↦ rw (e, v) (safe, refl)
    ]
    | inr (t, e) ↦ rw e (safe, refl)
  ]

  store-Writes : (encoded : Result String (List ℕ)) → Writes (store (traced x) encoded)
  unfolding store serialize write_host_bytes validate_serialized_len
  store-Writes encoded (log, s) safe = elim (Result-cases encoded) [
    | inl (bytes, b) ↦ elim (Bool-cases (ltb (2 ^ 31 - 1) (length bytes))) [
      | inl big ↦ rw (b, big) (safe, refl)
      | inr fits ↦ elim (Result-cases (x.alloc (length bytes) s).0) [
        | inl (raw, a) ↦ elim (Bool-cases (is_zero raw)) [
          | inl z ↦ rw (b, fits, a, z) (safe, refl)
          | inr nz ↦
              let len : as_i32 (length bytes) ≡ pos (length bytes) = ground (arith, fits) in
              let small : length bytes < 2 ^ 31 = ground (arith, fits) in
              let put =
                x.write_bytes (as_i32 (as_u32 raw)) bytes (as_i32 (length bytes))
                  (x.alloc (length bytes) s).1 in
              elim (Result-cases put.0) [
                | inl (u, r) ↦
                    rw (b, fits, a, nz, r) ((refl, nz, refl, len, small, safe), (refl, refl))
                | inr (t, r) ↦
                    rw (b, fits, a, nz, r) ((refl, nz, refl, len, small, safe), omega arith)
              ]
        ]
        | inr (t, a) ↦ rw (b, fits, a) (safe, omega arith)
      ]
    ]
    | inr (failure, b) ↦ rw b (safe, refl)
  ]

  module _ (w : Wire) where
    -- What is read is parsed without another call.
    read_and_parse_state :
        {A : Type 0} (json : Json A) (p : ℤ) (name : String) (t : List Call × x.State)
        → (read_and_parse (traced x) w json p name t).1 ≡ (get_from_context (traced x) p t).1
    unfolding read_and_parse deserialize
    read_and_parse_state json p name t = elim (Result-cases (get_from_context (traced x) p t).0) [
      | inl (bytes, e) ↦ elim (Result-cases (w.decode_data bytes)) [
        | inl (payload, g) ↦ rw (e, g) refl
        | inr (failure, g) ↦ rw (e, g) refl
      ]
      | inr (trap stop, e) ↦ rw e refl
      | inr (error failure, e) ↦ rw e refl
    ]

    read_and_parse-Reads :
        {A : Type 0} (json : Json A) (p : ℤ) (name : String)
        → Reads (read_and_parse (traced x) w json p name)
    read_and_parse-Reads json p name t safe =
        rw (read_and_parse_state json p name t) (get_from_context-Reads p t safe)

    module _ {State : Type 0} (state_json : Json State) where
      read_state-Reads : (p i : ℤ) → Reads (read_state (traced x) w state_json p i)
      unfolding read_state
      read_state-Reads p i =
          recover-Reads _ trap (read_and_parse (traced x) w state_json p "State")
            (read_and_parse-Reads state_json p "State")
            (λ first. read_and_parse-Reads state_json i "Init State")

      module _ {Event : Type 0} (event_json : Json Event)
          (callback : Context Event → ContractResult State → ContractResult State)
          (p i q owner : ℤ) where
        try_execute_contract-Writes :
            Writes (try_execute_contract (traced x) w state_json event_json p i q owner callback)
        unfolding try_execute_contract
        try_execute_contract-Writes =
            bind-Writes (read_state (traced x) w state_json p i) _ (read_state-Reads p i) (λ st.
              bind-Writes (read_and_parse (traced x) w event_json q "Event") _
                (read_and_parse-Reads event_json q "Event")
                (λ ev.
                  let left =
                    callback (record { event = ev; is_owner = is_owner_flag owner }) (new st) in
                  bind-Writes
                    (try (map_failure (λ _. err_final_state_ser) (state_json.to_vec left.state))) _
                    (λ t safe. (safe, refl))
                    (λ bytes.
                      map_err-Writes _ (store (traced x) (w.encode_result (result_data bytes left)))
                        (store-Writes (w.encode_result (result_data bytes left))))))

    store_or_zero-Returned :
        (encoded : Result String (List ℕ)) (log : List Call) (t : List Call × x.State)
        → IsSafe t.0
        → writes t.0 ≡ writes log
        → let (r, t') = store_or_zero (traced x) w encoded t in IsSafe t'.0 × Returned r log t'.0
    store_or_zero-Returned encoded log t safe same =
        let (safe', ends) = store-Writes encoded t safe in
        let ends' =
          Ends-from (store (traced x) encoded t).0 log t.0 (store (traced x) encoded t).1.0 same
            ends in
        recovered (λ _. pure 0) (store (traced x) encoded t).0 log (store (traced x) encoded t).1
          safe' ends' (λ _ unchanged. (safe', inl (refl, unchanged)))

    module _ {State : Type 0} (state_json : Json State) (p : ℤ)
        (callback : State → ContractInitCheck → ContractInitCheck) where
      try_check_init_data-Writes : Writes (try_check_init_data (traced x) w state_json p callback)
      unfolding try_check_init_data
      try_check_init_data-Writes =
          bind-Writes (read_and_parse (traced x) w state_json p "State") _
            (read_and_parse-Reads state_json p "State")
            (λ st.
              bind-Writes
                (fail_if (not (callback st init_default).success)
                  (error (err_init_rejected <> ": " <> (callback st init_default).error)))
                _ (fail_if-Reads (not (callback st init_default).success) _)
                (λ u.
                  map_err-Writes _ (store (traced x) (w.encode_init w.init_ok))
                    (store-Writes (w.encode_init w.init_ok))))

    -- An entry point that falls back to a report of its failure.
    reported :
        (m : Exec (Stop x.Trap String) (List Call × x.State) ℕ)
        (encoded : String → Result String (List ℕ))
        → Writes m
        → (t : List Call × x.State) → IsSafe t.0
        → let (r, t') =
            recover
              (λ e. store_or_zero (traced x) w (encoded e))
              (λ (stop : x.Trap). stop)
              (m t).0
              (m t).1 in
          IsSafe t'.0 × Returned r t.0 t'.0
    reported m encoded h t safe =
        let (safe', ends) = h t safe in
        recovered (λ e. store_or_zero (traced x) w (encoded e)) (m t).0 t.0 (m t).1 safe' ends
          (λ e same. store_or_zero-Returned (encoded e) t.0 (m t).1 safe' same)

    pub execute_contract-Returned :
        {State Event : Type 0} (state_json : Json State) (event_json : Json Event)
        (callback : Context Event → ContractResult State → ContractResult State) (p i q owner : ℤ)
        (t : List Call × x.State)
        → IsSafe t.0
        → let (r, t') =
            execute_contract (traced x) w state_json event_json p i q owner callback t in
          IsSafe t'.0 × Returned r t.0 t'.0
    unfolding execute_contract
    execute_contract-Returned state_json event_json callback p i q owner =
        reported (try_execute_contract (traced x) w state_json event_json p i q owner callback)
          (λ e. w.encode_result (w.result_error e))
          (try_execute_contract-Writes state_json event_json callback p i q owner)

    pub check_init_data-Returned :
        {State : Type 0} (state_json : Json State)
        (callback : State → ContractInitCheck → ContractInitCheck) (p : ℤ) (t : List Call × x.State)
        → IsSafe t.0
        → let (r, t') = check_init_data (traced x) w state_json p callback t in
          IsSafe t'.0 × Returned r t.0 t'.0
    unfolding check_init_data
    check_init_data-Returned state_json callback p =
        reported (try_check_init_data (traced x) w state_json p callback)
          (λ e. w.encode_init (w.init_error e)) (try_check_init_data-Writes state_json p callback)
