-- ===== src/Checks/Mocks.antt =====
-- The theorems on the mock host, and on the example contracts over it, at small inputs.
use ave_contract_sdk.Base.{
  ℕ, ◌<◌, ◌≡◌, refl, true, false, none, some, List, [], ◌∷◌, arith, length, if◌then◌else◌,
}
use ave_contract_sdk.Base.Machine.{pos}
use ave_contract_sdk.Base.Text.{String, ◌=s=◌}
use ave_contract_sdk.Base.Result.{Result, ok, err}
use ave_contract_sdk.Sdk.Wire.{Json, frame}
use ave_contract_sdk.Sdk.Contract.{execute_contract}
use ave_contract_sdk.Sdk.Transfer.{get_from_context}
use ave_contract_sdk.Sdk.Mock.Roundtrip.{get_from_context-store_data}
use ave_contract_sdk.Sdk.Mock.{
  MockHost, mock, reset, hold, take_id, store_data, get_data, set_force_alloc_zero,
}
use ave_contract_sdk.Runtime.Linker.{Caller}
use ave_contract_sdk.Runtime.Linker.Guest.{linked}
use ave_contract_sdk.Runtime.Memory.Blocks.{block}
use ave_contract_sdk.Bridge.Verdict.{verdict}
use ave_contract_sdk.Bridge.Entry.{HoldsAll}
use ave_contract_sdk.Bridge.Mocked.{NewData, mock_service, execute_contract_mocked}
use ave_contract_sdk.Bridge.NoMemory.{IsFull, execute_contract_null}
use ave_contract_sdk.Example.Counters.{State, StateEvent, mod_one, reset_all, main_function}
use ave_contract_sdk.Example.Data
use ave_contract_sdk.Example.Reports.{main_function_counts, main_function_changes}
use ave_contract_sdk.Checks.Host.{byte_memory, one_vector, small_wire, byte_json}
use ave_contract_sdk.Checks.Guest.{adds, started}
use ave_contract_sdk.Checks.Runs.{
  roomy_example, context_example, context_example-HasStaged, context_example-length, Fits-example,
}

abbrev untouched : MockHost
untouched = record {
  host_memory = λ p. none;
  next_id = 7;
  force_alloc_zero = false;
  force_pointer_len = none;
}

-- The host of a test that stores the three payloads.
abbrev held : List ℕ → List ℕ → List ℕ → MockHost
held a b d =
    (store_data (frame d) (store_data (frame b) (store_data (frame a) (hold untouched)).1).1).1

held-HoldsAll :
    (a b d : List ℕ)
    → length a < 1000
    → length b < 1000
    → length d < 1000
    → HoldsAll mock mock_service (pos 1000) (pos 1001) (pos 1002) a b d (held a b d)
unfolding store_data take_id hold reset
held-HoldsAll a b d small_a small_b small_d = record {
  state_held = record { held = refl; no_forced_len = refl; small = omega arith };
  init_held = record { held = refl; no_forced_len = refl; small = omega arith };
  event_held = record { held = refl; no_forced_len = refl; small = omega arith };
}

execute_contract_mocked_example :
    (at here : ℕ) × (t : MockHost) × (c' : Caller (List ℕ)) × (execute_contract mock small_wire
        byte_json byte_json
        (pos 1000)
        (pos 1001)
        (pos 1002)
        (pos 1)
        adds
        (held (2 ∷ []) (0 ∷ []) (5 ∷ []))
      ≡ (ok at, t))
    × (execute_contract
          (linked byte_memory one_vector)
          small_wire
          byte_json
          byte_json
          (pos 0)
          (pos 5)
          (pos 10)
          (pos 1)
          adds
          (started context_example)
        ≡ (ok here, c'))
    × (get_data (pos at) t ≡ some (1 ∷ 7 ∷ []))
    × (block c'.manager here ≡ some (1 ∷ 7 ∷ []))
unfolding verdict store_data take_id hold reset
execute_contract_mocked_example =
    execute_contract_mocked small_wire byte_json byte_json adds (pos 1) (2 ∷ []) (0 ∷ []) (5 ∷ [])
      (1 ∷ 7 ∷ []) byte_memory one_vector (started context_example) [] 0 5 10 (pos 1000) (pos 1001)
      (pos 1002) (held (2 ∷ []) (0 ∷ []) (5 ∷ [])) refl
      (held-HoldsAll (2 ∷ []) (0 ∷ []) (5 ∷ []) (omega arith) (omega arith) (omega arith))
      (record {
        ids_left = omega arith;
        not_null = omega arith;
        no_failure = refl;
        small = omega arith;
      })
      context_example-HasStaged refl roomy_example Fits-example
      (omega (arith, context_example-length))

-- The same, and no memory for a result.
abbrev full : MockHost
full = set_force_alloc_zero true (held (2 ∷ []) (0 ∷ []) (5 ∷ []))

full-IsFull : IsFull full
unfolding set_force_alloc_zero store_data take_id hold reset
full-IsFull = record {
  no_memory = refl;
  no_forced_len = refl;
  small = λ p bytes e. ground (arith, e);
}

execute_contract_null_example :
    execute_contract mock small_wire byte_json byte_json
      (pos 1000)
      (pos 1001)
      (pos 1002)
      (pos 1)
      adds
      full
    ≡ (ok 0, full)
execute_contract_null_example =
    execute_contract_null full full-IsFull small_wire byte_json byte_json adds (pos 1000) (pos 1001)
      (pos 1002) (pos 1)

abbrev pub state_of : List ℕ → Result String State
state_of (a ∷ b ∷ c ∷ []) = ok (record { one = a; two = b; three = c })
state_of _ = err "no counters"

-- Three counters, by a byte each.
abbrev pub counters_json : Json State
counters_json = record {
  to_vec = λ state. ok (state.one ∷ state.two ∷ state.three ∷ []);
  from_slice = state_of;
}

abbrev pub event_of : List ℕ → Result String StateEvent
event_of [] = ok reset_all
event_of (n ∷ ns) = ok (mod_one n)

abbrev pub events_json : Json StateEvent
events_json = record { to_vec = λ event. err "not written"; from_slice = event_of }

-- The owner resets the counters 1, 2 and 3.
main_function_counts_example :
    (ptr : ℕ) × (t : MockHost) × (main_function mock small_wire counters_json events_json
        (pos 1000)
        (pos 1001)
        (pos 1002)
        (pos 1)
        (held (1 ∷ 2 ∷ 3 ∷ []) [] [])
      ≡ (ok ptr, t))
    × NewData (1 ∷ 0 ∷ 0 ∷ 0 ∷ []) (held (1 ∷ 2 ∷ 3 ∷ []) [] []) ptr t
unfolding store_data take_id hold reset
main_function_counts_example =
    main_function_counts mock mock_service small_wire (pos 1000) (pos 1001) (pos 1002) (pos 1)
      (1 ∷ 2 ∷ 3 ∷ []) [] [] (0 ∷ 0 ∷ 0 ∷ []) (1 ∷ 0 ∷ 0 ∷ 0 ∷ []) (held (1 ∷ 2 ∷ 3 ∷ []) [] [])
      counters_json events_json (record { one = 1; two = 2; three = 3 }) reset_all
      (held-HoldsAll (1 ∷ 2 ∷ 3 ∷ []) [] [] (omega arith) (omega arith) (omega arith)) refl refl
      refl refl
      (record {
        ids_left = omega arith;
        not_null = omega arith;
        no_failure = refl;
        small = omega arith;
      })

-- A text that is empty or "a", by no byte or one.
abbrev text_of : List ℕ → String
text_of [] = ""
text_of (n ∷ ns) = "a"

abbrev text_json : Json Data.State
text_json = record {
  to_vec = λ state. ok (if state.text =s= "" then [] else 1 ∷ []);
  from_slice = λ bytes. ok (record { text = text_of bytes });
}

abbrev change_json : Json Data.StateEvent
change_json = record {
  to_vec = λ event. err "not written";
  from_slice = λ bytes. ok (Data.change_data (text_of bytes));
}

main_function_changes_example :
    (ptr : ℕ) × (t : MockHost) × (Data.main_function mock small_wire text_json change_json
        (pos 1000)
        (pos 1001)
        (pos 1002)
        (pos 0)
        (held [] [] (1 ∷ []))
      ≡ (ok ptr, t))
    × NewData (1 ∷ 1 ∷ []) (held [] [] (1 ∷ [])) ptr t
unfolding store_data take_id hold reset
main_function_changes_example =
    main_function_changes mock mock_service small_wire (pos 1000) (pos 1001) (pos 1002) (pos 0) []
      [] (1 ∷ []) (1 ∷ []) (1 ∷ 1 ∷ []) (held [] [] (1 ∷ [])) text_json change_json
      (record { text = "" }) "a"
      (held-HoldsAll [] [] (1 ∷ []) (omega arith) (omega arith) (omega arith)) refl refl refl refl
      (record {
        ids_left = omega arith;
        not_null = omega arith;
        no_failure = refl;
        small = omega arith;
      })

get_from_context-store_data_example :
    let (stored, s') = store_data (1 ∷ 2 ∷ 3 ∷ 4 ∷ 5 ∷ []) (hold untouched) in
    (stored ≡ ok (pos 1000))
    × (get_from_context mock (pos 1000) s' ≡ (ok (1 ∷ 2 ∷ 3 ∷ 4 ∷ 5 ∷ []), s'))
get_from_context-store_data_example =
    get_from_context-store_data untouched (1 ∷ 2 ∷ 3 ∷ 4 ∷ 5 ∷ []) (omega arith)
