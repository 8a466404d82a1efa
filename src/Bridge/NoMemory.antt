-- ===== src/Bridge/NoMemory.antt =====
-- src/lib.rs on a host that has no memory for a result: the mock of src/externf.rs, with its
-- allocations forced to fail.
use ave_contract_sdk.Base.{
  ℕ, ◌-◌, ◌<◌, ◌^◌, ◌≡◌, refl, true, none, some, List, [], arith, overwrite, length, ◌⊎◌, inl, inr,
  ltb, replicate, length-replicate, Bool-cases, Option-cases,
}
use ave_contract_sdk.Base.Machine.{ℤ}
use ave_contract_sdk.Base.Text.{String, ◌<>◌, decimal}
use ave_contract_sdk.Base.Result.{Result, ok, err, Result-cases}
use ave_contract_sdk.Base.Exec.{Exec}
use ave_contract_sdk.Sdk.Error.{
  Error, serialization, deserialization, memory_limit_exceeded, integer_overflow,
  host_allocation_failed, error_text,
}
use ave_contract_sdk.Sdk.Context.{Context, ContractResult, new}
use ave_contract_sdk.Sdk.Wire.{Wire, Json}
use ave_contract_sdk.Sdk.Extern.{Stop, error}
use ave_contract_sdk.Sdk.Mock.{MockHost, Panic, mock, pointer_len, alloc, read_bytes_into_vec}
use ave_contract_sdk.Sdk.Transfer.{
  get_from_context, read_and_parse, deserialize, store, validate_host_len, read_host_bytes,
  validate_serialized_len, serialize, max_data_size,
}
use ave_contract_sdk.Sdk.Contract.{
  is_owner_flag, result_data, err_return_result, err_final_state_ser, read_state,
  try_execute_contract, execute_contract,
}

-- Every allocation fails; lengths are not forced, and are those of vectors that an `i32` can measure.
pub record IsFull (s : MockHost) : Type 0 where
  pub no_memory : s.force_alloc_zero ≡ true
  pub no_forced_len : s.force_pointer_len ≡ none
  pub small : (p : ℤ) (bytes : List ℕ) → s.host_memory p ≡ some bytes → length bytes < 2 ^ 31

-- A run that leaves the host as it was, and ends with a value or with an error value.
abbrev Returns : {E A : Type 0} → Exec (Stop Panic E) MockHost A → MockHost → Type 0
Returns {E} {A} m s = ((a : A) × (m s ≡ (ok a, s))) ⊎ ((e : E) × (m s ≡ (err (error e), s)))

module _ (s : MockHost) (full : IsFull s) where
  get_from_context-Returns : (p : ℤ) → Returns (get_from_context mock p) s
  unfolding get_from_context validate_host_len read_host_bytes pointer_len read_bytes_into_vec
  get_from_context-Returns p = elim (Option-cases (s.host_memory p)) [
    | inl e ↦ inl ([], ground (arith, e, full.no_forced_len))
    | inr (bytes, e) ↦ elim (Bool-cases (ltb max_data_size (length bytes))) [
      | inl big ↦ inr (
        memory_limit_exceeded (length bytes) max_data_size,
        ground (arith, e, full.no_forced_len, full.small p bytes e, big),
      )
      | inr fine ↦ inl (
        overwrite bytes (replicate (length bytes) 0),
        ground (
          arith,
          e,
          full.no_forced_len,
          full.small p bytes e,
          fine,
          length-replicate {A = ℕ} (length bytes) 0,
        ),
      )
    ]
  ]

  store_refuses :
      (encoded : Result String (List ℕ)) → (e : Error) × (store mock encoded s ≡ (err (error e), s))
  unfolding store serialize validate_serialized_len alloc
  store_refuses encoded = elim (Result-cases encoded) [
    | inl (bytes, e) ↦ elim (Bool-cases (ltb (2 ^ 31 - 1) (length bytes))) [
      | inl big ↦ (
        integer_overflow
            ("Serialized data too large: " <> decimal (length bytes) <> " bytes exceeds i32::MAX"),
        ground (arith, e, big),
      )
      | inr fine ↦ (host_allocation_failed (length bytes), ground (arith, e, fine, full.no_memory))
    ]
    | inr (msg, e) ↦ (serialization (error_text (serialization msg)), ground (arith, e))
  ]

  module _ (w : Wire) {State : Type 0} (state_json : Json State) where
    read_and_parse-Returns :
        {T : Type 0} (json : Json T) (p : ℤ) (name : String)
        → Returns (read_and_parse mock w json p name) s
    unfolding read_and_parse deserialize
    read_and_parse-Returns json p name = elim (get_from_context-Returns p) [
      | inl (bytes, e) ↦ elim (Result-cases (w.decode_data bytes)) [
        | inl (d, g) ↦ elim (Result-cases (json.from_slice d)) [
          | inl (t, h) ↦ inl (t, ground (arith, e, g, h))
          | inr (msg, h) ↦
              inr ("Cannot parse " <> name <> " from JSON bytes: " <> msg, ground (arith, e, g, h))
        ]
        | inr (msg, g) ↦ inr (
          "Cannot deserialize " <> name <> ": " <> error_text (deserialization msg),
          ground (arith, e, g),
        )
      ]
      | inr (failure, e) ↦
          inr (
            "Cannot read " <> name <> " from host memory: " <> error_text failure,
            ground (arith, e),
          )
    ]

    read_state-Returns : (p i : ℤ) → Returns (read_state mock w state_json p i) s
    unfolding read_state
    read_state-Returns p i = elim (read_and_parse-Returns state_json p "State") [
      | inl (t, e) ↦ inl (t, ground (arith, e))
      | inr (first, e) ↦ elim (read_and_parse-Returns state_json i "Init State") [
        | inl (t, g) ↦ inl (t, ground (arith, e, g))
        | inr (second, g) ↦
            inr (first <> "; fallback to init state also failed: " <> second, ground (arith, e, g))
      ]
    ]

    module _ {Event : Type 0} (event_json : Json Event)
        (callback : Context Event → ContractResult State → ContractResult State)
        (p i q owner : ℤ) where
      try_fails :
          (e : String) × (try_execute_contract mock w state_json event_json p i q owner callback s
            ≡ (err (error e), s))
      unfolding try_execute_contract
      try_fails = elim (read_state-Returns p i) [
        | inl (st, e) ↦ elim (read_and_parse-Returns event_json q "Event") [
          | inl (ev, g) ↦
              let left =
                callback (record { event = ev; is_owner = is_owner_flag owner }) (new st) in
              elim (Result-cases (state_json.to_vec left.state)) [
                | inl (bytes, h) ↦
                    let (failure, k) = store_refuses (w.encode_result (result_data bytes left)) in
                    (err_return_result, ground (arith, e, g, h, k))
                | inr (msg, h) ↦ (err_final_state_ser, ground (arith, e, g, h))
              ]
          | inr (msg, g) ↦ (msg, ground (arith, e, g))
        ]
        | inr (msg, e) ↦ (msg, ground (arith, e))
      ]

      -- On a mock host whose allocations fail, whatever vectors it holds that an `i32` can
      -- measure, and if no length is forced, a contract ends without a panic: it returns the null
      -- pointer, and leaves the host as it was.
      pub execute_contract_null :
          execute_contract mock w state_json event_json p i q owner callback s ≡ (ok 0, s)
      unfolding execute_contract
      execute_contract_null =
          let (msg, e) = try_fails in
          let (failure, g) = store_refuses (w.encode_result (w.result_error msg)) in rw (e, g) refl
