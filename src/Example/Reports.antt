-- ===== src/Example/Reports.antt =====
-- What the example contracts report, from their payloads to their stored results.
use ave_contract_sdk.Base.{
  ℕ, ◌≡◌, refl, Bool, true, false, List, if◌then◌else◌, ◌==◌, not, arith, Bool-cases, inl, inr,
}
use ave_contract_sdk.Base.Machine.{ℤ}
use ave_contract_sdk.Base.Text.{String}
use ave_contract_sdk.Base.Result.{ok}
use ave_contract_sdk.Sdk.Context.{require_owner}
use ave_contract_sdk.Sdk.Wire.{Wire, Json, ContractResultData}
use ave_contract_sdk.Sdk.Extern.{Extern}
use ave_contract_sdk.Sdk.Contract.{is_owner_flag}
use ave_contract_sdk.Bridge.Service.{Service}
use ave_contract_sdk.Bridge.Verdict.{verdict}
use ave_contract_sdk.Bridge.Entry.{HoldsAll, execute_contract-Stores}
use ave_contract_sdk.Example.Counters.{
  State, StateEvent, mod_one, mod_two, mod_three, mod_all, reset_all, requested, contract_logic,
  main_function,
}
use ave_contract_sdk.Example.Data

-- What is reported of an event that is refused; no text for an event that is allowed.
abbrev pub refusal : Bool → StateEvent → String
refusal is_owner (mod_three n) =
    if n == 50
    then "Error running contract event: Can not change three value, 50 is a invalid value"
    else ""
refusal is_owner reset_all =
    if is_owner then "" else "Error running contract event: Only the owner can perform this action"
refusal _ _ = ""

abbrev pub is_allowed : Bool → StateEvent → Bool
is_allowed is_owner (mod_three n) = not (n == 50)
is_allowed is_owner reset_all = is_owner
is_allowed _ _ = true

-- The report on an event, the JSON text of the state after it being `bytes`.
abbrev pub counted : Bool → StateEvent → List ℕ → ContractResultData
counted is_owner event bytes = record {
  final_state = bytes;
  success = is_allowed is_owner event;
  error = refusal is_owner event;
}

module _ (w : Wire) (state_json : Json State) (event_json : Json StateEvent) where
  pub verdict_counts :
      (a b d bytes : List ℕ) (is_owner : Bool) (state : State) (event : StateEvent)
      → state_json.from_slice a ≡ ok state
      → event_json.from_slice d ≡ ok event
      → state_json.to_vec (requested is_owner event state) ≡ ok bytes
      → verdict state_json event_json contract_logic a b d is_owner
        ≡ ok (counted is_owner event bytes)
  unfolding verdict contract_logic require_owner
  verdict_counts a b d bytes is_owner state (mod_one n) p q r = ground (arith, p, q, r)
  verdict_counts a b d bytes is_owner state (mod_two n) p q r = ground (arith, p, q, r)
  verdict_counts a b d bytes is_owner state (mod_three n) p q r = elim (Bool-cases (n == 50)) [
    | inl e ↦ let kept : state_json.to_vec state ≡ ok bytes = rw e at r in rw (p, q, e, kept) refl
    | inr e ↦
        let set : state_json.to_vec (record state { three = n }) ≡ ok bytes = rw e at r in
        rw (p, q, e, set) refl
  ]
  verdict_counts a b d bytes is_owner state (mod_all i j k) p q r = ground (arith, p, q, r)
  verdict_counts a b d bytes true state reset_all p q r = ground (arith, p, q, r)
  verdict_counts a b d bytes false state reset_all p q r = ground (arith, p, q, r)

module _ (x : Extern) (service : Service x) (w : Wire) (sp ip ep owner : ℤ)
    (a b d bytes out : List ℕ) (s : x.State) where
  -- On any host that holds its arguments and has room for its report, the contract of the counters
  -- stores, for a state and an event that it can parse and a state after that has a JSON text, a
  -- report with that text: a success exactly where the event is allowed, and else the state as it was
  -- with the reason, which is the owner's guard for a reset and the forbidden value for a third
  -- counter of 50.
  pub main_function_counts :
      (state_json : Json State) (event_json : Json StateEvent) (state : State) (event : StateEvent)
      → HoldsAll x service sp ip ep a b d s
      → state_json.from_slice a ≡ ok state
      → event_json.from_slice d ≡ ok event
      → state_json.to_vec (requested (is_owner_flag owner) event state) ≡ ok bytes
      → w.encode_result (counted (is_owner_flag owner) event bytes) ≡ ok out
      → service.Room out s
      → (ptr : ℕ) × (s' : x.State) × (main_function x w state_json event_json sp ip ep owner s
          ≡ (ok ptr, s'))
        × service.Stores out s ptr s'
  unfolding main_function
  main_function_counts state_json event_json state event h p q r encoded room =
      execute_contract-Stores x service w state_json event_json sp ip ep a b d contract_logic owner
        s out h
        (rw
          (verdict_counts w state_json event_json a b d bytes (is_owner_flag owner) state event p q
            r)
          encoded)
        room

  -- On any host that holds its arguments and has room for its report, the contract of the text
  -- accepts every event that it can parse, over a state that it can parse, whoever sent it, and
  -- stores the JSON text of the event's text as its state.
  pub main_function_changes :
      (state_json : Json Data.State) (event_json : Json Data.StateEvent) (state : Data.State)
      (text : String)
      → HoldsAll x service sp ip ep a b d s
      → state_json.from_slice a ≡ ok state
      → event_json.from_slice d ≡ ok (Data.change_data text)
      → state_json.to_vec (record { text = text }) ≡ ok bytes
      → w.encode_result (record { final_state = bytes; success = true; error = "" }) ≡ ok out
      → service.Room out s
      → (ptr : ℕ) × (s' : x.State) × (Data.main_function x w state_json event_json sp ip ep owner s
          ≡ (ok ptr, s'))
        × service.Stores out s ptr s'
  unfolding Data.main_function Data.contract_logic verdict
  main_function_changes state_json event_json state text h p q r encoded room =
      execute_contract-Stores x service w state_json event_json sp ip ep a b d Data.contract_logic
        owner s out h (ground (arith, p, q, r, encoded)) room
