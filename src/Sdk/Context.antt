-- ===== src/Sdk/Context.antt =====
-- src/lib.rs: what a contract's callbacks are given, and the results that they fill in. A callback
-- takes `&mut` its result: it is a function from the result before to the result after.
use ave_contract_sdk.Base.{Bool, true, false, if◌then◌else◌}
use ave_contract_sdk.Base.Text.{String}

pub record Context (Event : Type 0) : Type 0 where
  pub event : Event
  pub is_owner : Bool

pub record ContractResult (State : Type 0) : Type 0 where
  pub state : State
  pub success : Bool
  pub error : String

pub record ContractInitCheck : Type 0 where
  pub success : Bool
  pub error : String

-- `ContractResult::new`
abbrev pub new : {State : Type 0} → State → ContractResult State
new state = record { state = state; success = false; error = "" }

-- `ContractResult::accept`
abbrev pub accept : {State : Type 0} → ContractResult State → ContractResult State
accept result = record result { success = true }

-- `ContractResult::reject`
abbrev pub reject : {State : Type 0} → String → ContractResult State → ContractResult State
reject msg result = record result { success = false; error = msg }

-- `ContractInitCheck::default`
abbrev pub init_default : ContractInitCheck
init_default = record { success = false; error = "" }

-- `ContractInitCheck::accept`
abbrev pub accept_init : ContractInitCheck → ContractInitCheck
accept_init check = record check { success = true }

-- `ContractInitCheck::reject`
abbrev pub reject_init : String → ContractInitCheck → ContractInitCheck
reject_init msg check = record { success = false; error = msg }

-- `require_owner`: whether the callback may proceed, and the result that it goes on with.
unfoldable pub require_owner :
    {Event State : Type 0} → Context Event → ContractResult State → Bool × ContractResult State
require_owner context result =
    if context.is_owner
    then (true, result)
    else (false, reject "Only the owner can perform this action" result)
