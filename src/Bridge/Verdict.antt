-- ===== src/Bridge/Verdict.antt =====
-- What an event run is meant to give: the verdict of the contract's callback on the state that the
-- host passed, or else on the initial state, with no mention of memory or pointers.
use ave_contract_sdk.Base.{ℕ, Bool, List, if◌then◌else◌}
use ave_contract_sdk.Base.Text.{String, ◌<>◌}
use ave_contract_sdk.Base.Result.{Result, ok, err, map_err as map_failure, ◌>>=◌}
use ave_contract_sdk.Sdk.Context.{Context, ContractInitCheck, ContractResult, init_default, new}
use ave_contract_sdk.Sdk.Wire.{Wire, Json, ContractResultData}
use ave_contract_sdk.Runtime.Error.{RuntimeError, contract_execution_failed, serialization_error}
use ave_contract_sdk.Runtime.Execute.{ExecutionResult}

-- The parse of an argument, its error as the contract words it.
abbrev pub argument : {T : Type 0} → Json T → String → List ℕ → Result String T
argument json name d =
    map_failure (λ (e : String). "Cannot parse " <> name <> " from JSON bytes: " <> e)
      (json.from_slice d)

-- The first of two, or else the second; both errors if neither can be had.
abbrev pub or_else : {T : Type 0} → Result String T → Result String T → Result String T
or_else (ok a) second = ok a
or_else (err e) (ok a) = ok a
or_else (err e) (err f) = err (e <> "; fallback to init state also failed: " <> f)

module _ {State Event : Type 0} (state_json : Json State) (event_json : Json Event)
    (callback : Context Event → ContractResult State → ContractResult State) where
  -- The payloads are the JSON texts of the state, of the initial state and of the event.
  unfoldable pub verdict :
      (state init_state event : List ℕ) → Bool → Result String ContractResultData
  verdict state init_state event is_owner = do
    s ← or_else (argument state_json "State" state) (argument state_json "Init State" init_state)
    e ← argument event_json "Event" event
    let result = callback (record { event = e; is_owner = is_owner }) (new s)
    bytes ←
        map_failure (λ _. "Cannot serialize contract final state into JSON bytes")
          (state_json.to_vec result.state)
    ok (record {
      final_state = bytes;
      success = result.success;
      error = if result.success then "" else "Error running contract event" <> ": " <> result.error;
    })

-- What the contract reports: its verdict, or its failure as a rejection.
abbrev pub report : Wire → Result String ContractResultData → ContractResultData
report w (ok r) = r
report w (err e) = w.result_error e

-- What the host makes of a report.
abbrev pub accounted :
    {Value : Type 0} → Json Value → ContractResultData → Result RuntimeError (ExecutionResult Value)
accounted value_json r = do
  v ← map_failure (serialization_error "final state json") (value_json.from_slice r.final_state)
  ok (record { final_state = v; success = r.success; error = r.error })

-- What a contract's own check of an initial state is meant to give.
unfoldable pub init_verdict :
    {State : Type 0}
    → Json State
    → (State → ContractInitCheck → ContractInitCheck)
    → List ℕ
    → Result String (Unit {0})
init_verdict state_json callback state = do
  s ← argument state_json "State" state
  let check = callback s init_default
  if check.success then ok tt else err ("Error running init contract data" <> ": " <> check.error)

abbrev pub init_report : (w : Wire) → Result String (Unit {0}) → w.ContractInitCheckData
init_report w (ok u) = w.init_ok
init_report w (err e) = w.init_error e

abbrev pub init_accounted : Result String (Unit {0}) → Result RuntimeError (Unit {0})
init_accounted (ok u) = ok tt
init_accounted (err e) = err (contract_execution_failed e)
