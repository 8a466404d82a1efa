-- ===== src/Example/Counters.antt =====
-- example/src/lib.rs: a contract of three counters.
use ave_contract_sdk.Base.{ℕ, ◌≡◌, ◌≢◌, ◌↔◌, refl, Bool, true, false, arith, if◌then◌else◌, ◌==◌}
use ave_contract_sdk.Base.Machine.{ℤ}
use ave_contract_sdk.Base.Exec.{Exec}
use ave_contract_sdk.Sdk.Context.{
  Context, ContractResult, ContractInitCheck, new, accept, reject, accept_init, require_owner,
}
use ave_contract_sdk.Sdk.Wire.{Wire, Json}
use ave_contract_sdk.Sdk.Extern.{Extern}
use ave_contract_sdk.Sdk.Contract.{execute_contract, check_init_data}

pub record State : Type 0 where
  pub one : ℕ
  pub two : ℕ
  pub three : ℕ

pub data StateEvent : Type 0 where
  mod_one : ℕ → StateEvent
  mod_two : ℕ → StateEvent
  mod_three : ℕ → StateEvent
  mod_all : ℕ → ℕ → ℕ → StateEvent
  reset_all : StateEvent

abbrev pub init_logic : State → ContractInitCheck → ContractInitCheck
init_logic state contract_result = accept_init contract_result

-- The `match` of `contract_logic`: the result, and whether the callback has returned in it.
abbrev pub handle :
    Context StateEvent → StateEvent → ContractResult State → Bool × ContractResult State
handle context (mod_one data') r = (false, record r { state = record r.state { one = data' } })
handle context (mod_two data') r = (false, record r { state = record r.state { two = data' } })
handle context (mod_three data') r =
    if data' == 50
    then (true, reject "Can not change three value, 50 is a invalid value" r)
    else (false, record r { state = record r.state { three = data' } })
handle context (mod_all one two three) r =
    (false, record r { state = record { one = one; two = two; three = three } })
handle context reset_all r =
    let (may, next) = require_owner context r in
    if may
    then (false, record next { state = record { one = 0; two = 0; three = 0 } })
    else (true, next)

unfoldable pub contract_logic : Context StateEvent → ContractResult State → ContractResult State
unfolding require_owner
contract_logic context r =
    let (has_returned, next) = handle context context.event r in
    if has_returned then next else accept next

-- The exported functions.
module _ (x : Extern) (w : Wire) (state_json : Json State) where
  unfoldable pub main_function : Json StateEvent → ℤ → ℤ → ℤ → ℤ → Exec x.Trap x.State ℕ
  unfolding contract_logic
  main_function event_json state_ptr init_state_ptr event_ptr is_owner =
      execute_contract x w state_json event_json state_ptr init_state_ptr event_ptr is_owner
        contract_logic

  unfoldable pub init_check_function : ℤ → Exec x.Trap x.State ℕ
  init_check_function state_ptr = check_init_data x w state_json state_ptr init_logic

-- The events that the contract takes.
abbrev pub IsAllowed : Bool → StateEvent → Type 0
IsAllowed is_owner (mod_three n) = n ≢ 50
IsAllowed is_owner reset_all = is_owner ≡ true
IsAllowed is_owner _ = Unit {0}

-- The state that an event asks for: the state as it was for an event that is not allowed.
abbrev pub requested : Bool → StateEvent → State → State
requested is_owner (mod_one n) state = record { one = n; two = state.two; three = state.three }
requested is_owner (mod_two n) state = record { one = state.one; two = n; three = state.three }
requested is_owner (mod_three n) state = record {
  one = state.one;
  two = state.two;
  three = if n == 50 then state.three else n;
}
requested is_owner (mod_all a b c) state = record { one = a; two = b; three = c }
requested is_owner reset_all state =
    if is_owner then record { one = 0; two = 0; three = 0 } else state

abbrev on : StateEvent → Bool → State → ContractResult State
unfolding contract_logic
on event is_owner state = contract_logic (record { event = event; is_owner = is_owner }) (new state)

accepts :
    (event : StateEvent) (is_owner : Bool) (state : State)
    → (((on event is_owner state).success ≡ true) ↔ IsAllowed is_owner event)
      × ((on event is_owner state).state ≡ requested is_owner event state)
unfolding contract_logic require_owner
accepts (mod_one n) is_owner state = ((λ h. tt, λ h. refl), refl)
accepts (mod_two n) is_owner state = ((λ h. tt, λ h. refl), refl)
accepts (mod_three n) is_owner state =
    ((λ h e. ground (arith, h, e), λ h. ground (arith, h)), ground arith)
accepts (mod_all a b c) is_owner state = ((λ h. tt, λ h. refl), refl)
accepts reset_all true state = ((λ h. refl, λ h. refl), refl)
accepts reset_all false state = ((λ h. h, λ h. h), refl)

-- A fresh result is accepted exactly for the events that are allowed, a reset being allowed to the
-- owner alone and a third counter of 50 to nobody; and its state is the one that the event asks for,
-- or the state as it was where the event is not allowed.
pub contract_logic_accepts :
    (context : Context StateEvent) (state : State)
    → (((contract_logic context (new state)).success ≡ true)
        ↔ IsAllowed context.is_owner context.event)
      × ((contract_logic context (new state)).state
          ≡ requested context.is_owner context.event state)
unfolding contract_logic require_owner
contract_logic_accepts context state = accepts context.event context.is_owner state
