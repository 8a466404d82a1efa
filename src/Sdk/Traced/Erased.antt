-- ===== src/Sdk/Traced/Erased.antt =====
-- src/lib.rs: the record of the calls changes nothing of what a contract does.
use ave_contract_sdk.Base.{ℕ, ◌≡◌, refl, sym, ap, Bool, true, false, not, List}
use ave_contract_sdk.Base.Machine.{ℤ, as_u32, as_i32}
use ave_contract_sdk.Base.Text.{String, ◌<>◌}
use ave_contract_sdk.Base.Result.{Result, ok, err, map_err as map_failure}
use ave_contract_sdk.Base.Exec.{Exec, ◌>>=◌, pure, fail_if, continue}
use ave_contract_sdk.Sdk.Error.{serialization, error_text}
use ave_contract_sdk.Sdk.Context.{Context, ContractResult, ContractInitCheck, new, init_default}
use ave_contract_sdk.Sdk.Wire.{Wire, Json}
use ave_contract_sdk.Sdk.Extern.{
  Extern, Stop, trap, error, try, relabel, map_err, recover, call, trapping,
}
use ave_contract_sdk.Sdk.Transfer.{
  is_zero, serialize, validate_serialized_len, read_host_bytes, write_host_bytes, validate_host_len,
  get_from_context, store, read_and_parse, deserialize,
}
use ave_contract_sdk.Sdk.Contract.{
  is_owner_flag, result_data, err_final_state_ser, read_state, try_execute_contract,
  execute_contract, try_check_init_data, check_init_data, store_or_zero,
}
use ave_contract_sdk.Sdk.Traced.{Call, traced, noted}

-- A run with a record of the calls returns and leaves what the run without it does.
abbrev pub Erases : {E S A : Type 0} → Exec E (List Call × S) A → Exec E S A → Type 0
Erases {E} {S} m k = (t : List Call × S) → ((m t).0 ≡ (k t.1).0) × ((m t).1.1 ≡ (k t.1).1)

module _ {E S A B : Type 0} where
  continue-Erases :
      (r : Result E A) (f : A → Exec E (List Call × S) B) (g : A → Exec E S B)
      → ((a : A) → Erases (f a) (g a))
      → Erases (continue r f) (continue r g)
  continue-Erases (ok a) f g h t = h a t
  continue-Erases (err e) f g h t = (refl, refl)

  bind-Erases :
      (m : Exec E (List Call × S) A) (k : Exec E S A) (f : A → Exec E (List Call × S) B)
      (g : A → Exec E S B)
      → Erases m k
      → ((a : A) → Erases (f a) (g a))
      → Erases (m >>= f) (k >>= g)
  bind-Erases m k f g h i t =
      let (same, left) = h t in rw (sym same, sym left) (continue-Erases (m t).0 f g i (m t).1)

module _ {T E F S A : Type 0} (f : E → Exec F (List Call × S) A) (g : E → Exec F S A)
    (stop : T → F) where
  recovered-Erases :
      (r : Result (Stop T E) A)
      → ((e : E) → Erases (f e) (g e))
      → Erases (recover f stop r) (recover g stop r)
  recovered-Erases (ok a) h t = (refl, refl)
  recovered-Erases (err (trap x)) h t = (refl, refl)
  recovered-Erases (err (error e)) h t = h e t

  recover-Erases :
      (m : Exec (Stop T E) (List Call × S) A) (k : Exec (Stop T E) S A)
      → Erases m k
      → ((e : E) → Erases (f e) (g e))
      → Erases (λ t. recover f stop (m t).0 (m t).1) (λ s. recover g stop (k s).0 (k s).1)
  recover-Erases m k h i t =
      let (same, left) = h t in rw (sym same, sym left) (recovered-Erases (m t).0 i (m t).1)

map_err-Erases :
    {T E F S A : Type 0} (f : E → F) (m : Exec (Stop T E) (List Call × S) A)
    (k : Exec (Stop T E) S A)
    → Erases m k
    → Erases (map_err f m) (map_err f k)
map_err-Erases f m k h t = let (same, left) = h t in (ap (relabel f) same, left)

call-Erases :
    {T E S A : Type 0} (m : Exec T (List Call × S) A) (k : Exec T S A)
    → Erases m k
    → Erases (call {E = E} m) (call {E = E} k)
call-Erases m k h t = let (same, left) = h t in (ap trapping same, left)

pure_then :
    {T E S A B : Type 0} (r : Result E A) (f : A → Exec (Stop T E) (List Call × S) B)
    (g : A → Exec (Stop T E) S B)
    → ((a : A) → Erases (f a) (g a))
    → Erases (try r >>= f) (try r >>= g)
pure_then r f g h = bind-Erases (try r) (try r) f g (λ t. (refl, refl)) h

fail_if-Erases :
    {E S : Type 0} (b : Bool) (e : E) → Erases {E = E} {S = S} (fail_if b e) (fail_if b e)
fail_if-Erases true e t = (refl, refl)
fail_if-Erases false e t = (refl, refl)

noted-Erases :
    {T S A : Type 0} (call : A → Call) (log : List Call) (r : Result T A) (s : S)
    → ((noted call log (r, s)).0 ≡ r) × ((noted call log (r, s)).1.1 ≡ s)
noted-Erases call log (ok a) s = (refl, refl)
noted-Erases call log (err e) s = (refl, refl)

module _ (x : Extern) where
  get_from_context-Erases : (p : ℤ) → Erases (get_from_context (traced x) p) (get_from_context x p)
  unfolding get_from_context read_host_bytes
  get_from_context-Erases p =
      bind-Erases (call ((traced x).pointer_len p)) (call (x.pointer_len p)) _ _
        (call-Erases ((traced x).pointer_len p) (x.pointer_len p)
          (λ t. noted-Erases _ t.0 (x.pointer_len p t.1).0 (x.pointer_len p t.1).1))
        (λ n.
          bind-Erases (try (validate_host_len n)) (try (validate_host_len n)) _ _
            (λ t. (refl, refl)) (λ len t. (refl, refl)))

  store-Erases :
      (encoded : Result String (List ℕ)) → Erases (store (traced x) encoded) (store x encoded)
  unfolding store write_host_bytes
  store-Erases encoded =
      pure_then (map_failure (λ e. serialization (error_text e)) (serialize encoded)) _ _ (λ bytes.
        pure_then (validate_serialized_len bytes) _ _ (λ len.
          bind-Erases (call ((traced x).alloc len)) (call (x.alloc len)) _ _
            (call-Erases ((traced x).alloc len) (x.alloc len)
              (λ t. noted-Erases _ t.0 (x.alloc len t.1).0 (x.alloc len t.1).1))
            (λ raw.
              bind-Erases (fail_if (is_zero raw) _) (fail_if (is_zero raw) _) _ _
                (fail_if-Erases (is_zero raw) _)
                (λ u.
                  bind-Erases (call (write_host_bytes (traced x) (as_i32 (as_u32 raw)) bytes))
                    (call (write_host_bytes x (as_i32 (as_u32 raw)) bytes)) _ _ (λ t. (refl, refl))
                    (λ v t. (refl, refl))))))

  module _ (w : Wire) where
    read_and_parse-Erases :
        {A : Type 0} (json : Json A) (p : ℤ) (name : String)
        → Erases (read_and_parse (traced x) w json p name) (read_and_parse x w json p name)
    unfolding read_and_parse
    read_and_parse-Erases json p name =
        bind-Erases (map_err _ (get_from_context (traced x) p)) (map_err _ (get_from_context x p)) _
          _
          (map_err-Erases _ (get_from_context (traced x) p) (get_from_context x p)
            (get_from_context-Erases p))
          (λ bytes.
            pure_then
              (map_failure (λ e. "Cannot deserialize " <> name <> ": " <> error_text e)
                (deserialize w bytes))
              _ _ (λ payload t. (refl, refl)))

    store_or_zero-Erases :
        (encoded : Result String (List ℕ))
        → Erases (store_or_zero (traced x) w encoded) (store_or_zero x w encoded)
    store_or_zero-Erases encoded =
        recover-Erases (λ _. pure 0) (λ _. pure 0) _ (store (traced x) encoded) (store x encoded)
          (store-Erases encoded) (λ _ t. (refl, refl))

    module _ {State : Type 0} (state_json : Json State) where
      pub check_init_data-Erases :
          (callback : State → ContractInitCheck → ContractInitCheck) (p : ℤ)
          → Erases
              (check_init_data (traced x) w state_json p callback)
              (check_init_data x w state_json p callback)
      unfolding check_init_data try_check_init_data
      check_init_data-Erases callback p =
          recover-Erases _ _ (λ t. t) (try_check_init_data (traced x) w state_json p callback)
            (try_check_init_data x w state_json p callback)
            (bind-Erases (read_and_parse (traced x) w state_json p "State")
              (read_and_parse x w state_json p "State") _ _
              (read_and_parse-Erases state_json p "State")
              (λ st.
                bind-Erases (fail_if (not (callback st init_default).success) _)
                  (fail_if (not (callback st init_default).success) _) _ _
                  (fail_if-Erases (not (callback st init_default).success) _)
                  (λ u.
                    map_err-Erases _ (store (traced x) (w.encode_init w.init_ok))
                      (store x (w.encode_init w.init_ok))
                      (store-Erases (w.encode_init w.init_ok)))))
            (λ e. store_or_zero-Erases (w.encode_init (w.init_error e)))

      read_state-Erases :
          (p i : ℤ)
          → Erases (read_state (traced x) w state_json p i) (read_state x w state_json p i)
      unfolding read_state
      read_state-Erases p i =
          recover-Erases _ _ trap (read_and_parse (traced x) w state_json p "State")
            (read_and_parse x w state_json p "State") (read_and_parse-Erases state_json p "State")
            (λ first.
              map_err-Erases _ (read_and_parse (traced x) w state_json i "Init State")
                (read_and_parse x w state_json i "Init State")
                (read_and_parse-Erases state_json i "Init State"))

      module _ {Event : Type 0} (event_json : Json Event)
          (callback : Context Event → ContractResult State → ContractResult State)
          (p i q owner : ℤ) where
        pub execute_contract-Erases :
            Erases
              (execute_contract (traced x) w state_json event_json p i q owner callback)
              (execute_contract x w state_json event_json p i q owner callback)
        unfolding execute_contract try_execute_contract
        execute_contract-Erases =
            recover-Erases _ _ (λ t. t)
              (try_execute_contract (traced x) w state_json event_json p i q owner callback)
              (try_execute_contract x w state_json event_json p i q owner callback)
              (bind-Erases (read_state (traced x) w state_json p i) (read_state x w state_json p i)
                _ _ (read_state-Erases p i)
                (λ st.
                  bind-Erases (read_and_parse (traced x) w event_json q "Event")
                    (read_and_parse x w event_json q "Event") _ _
                    (read_and_parse-Erases event_json q "Event")
                    (λ ev.
                      let left =
                        callback (record { event = ev; is_owner = is_owner_flag owner }) (new st) in
                      pure_then
                        (map_failure (λ _. err_final_state_ser) (state_json.to_vec left.state)) _ _
                        (λ bytes.
                          map_err-Erases _
                            (store (traced x) (w.encode_result (result_data bytes left)))
                            (store x (w.encode_result (result_data bytes left)))
                            (store-Erases (w.encode_result (result_data bytes left)))))))
              (λ e. store_or_zero-Erases (w.encode_result (w.result_error e)))
