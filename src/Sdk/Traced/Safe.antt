-- ===== src/Sdk/Traced/Safe.antt =====
-- src/lib.rs: on any host, whatever it returns, a contract keeps to the protocol of its calls.
use ave_contract_sdk.Base.{ℕ, ◌≡◌, sym, List, []}
use ave_contract_sdk.Base.Machine.{ℤ}
use ave_contract_sdk.Base.Exec.{Exec}
use ave_contract_sdk.Sdk.Context.{Context, ContractResult, ContractInitCheck}
use ave_contract_sdk.Sdk.Wire.{Wire, Json}
use ave_contract_sdk.Sdk.Extern.{Extern}
use ave_contract_sdk.Sdk.Contract.{execute_contract, check_init_data}
use ave_contract_sdk.Sdk.Traced.{Call, traced, IsSafe}
use ave_contract_sdk.Sdk.Traced.Runs.{Returned}
use ave_contract_sdk.Sdk.Traced.Protocol.{execute_contract-Returned, check_init_data-Returned}
use ave_contract_sdk.Sdk.Traced.Erased.{Erases, execute_contract-Erases, check_init_data-Erases}

at_start :
    {T S : Type 0} (m : Exec T (List Call × S) ℕ) (k : Exec T S ℕ) (s : S)
    → Erases m k
    → IsSafe (m ([], s)).1.0 × Returned (m ([], s)).0 [] (m ([], s)).1.0
    → (log : List Call) × (m ([], s) ≡ ((k s).0, (log, (k s).1)))
      × IsSafe log
      × Returned (k s).0 [] log
at_start m k s erases (safe, returned) =
    let (same, left) = erases ([], s) in
    ((m ([], s)).1.0, λ j. (same j, ((m ([], s)).1.0, left j)), safe, rw (sym same) returned)

module _ (x : Extern) (w : Wire) {State : Type 0} (state_json : Json State) where
  -- Whatever the host x returns, the calls that execute_contract makes of it are safe, and recording
  -- them changes nothing: each read is told the length of its buffer, which the host has just given for
  -- that pointer and which is within MAX_DATA_SIZE, and each write is of fewer than 2^31 bytes, to the
  -- memory, not null, that the host has just given for as many. If it returns, it has written once, last,
  -- at the pointer that it returns, or it has not written and returns 0; if it traps, it has written at
  -- most once.
  pub execute_contract-IsSafe :
      {Event : Type 0} (event_json : Json Event)
      (callback : Context Event → ContractResult State → ContractResult State) (p i q owner : ℤ)
      (s : x.State)
      → let (r, s') = execute_contract x w state_json event_json p i q owner callback s in
        (log : List Call) × (execute_contract
            (traced x)
            w
            state_json
            event_json
            p
            i
            q
            owner
            callback
            ([], s)
          ≡ (r, (log, s')))
        × IsSafe log
        × Returned r [] log
  execute_contract-IsSafe event_json callback p i q owner s =
      at_start (execute_contract (traced x) w state_json event_json p i q owner callback)
        (execute_contract x w state_json event_json p i q owner callback) s
        (execute_contract-Erases x w state_json event_json callback p i q owner)
        (execute_contract-Returned x w state_json event_json callback p i q owner ([], s) tt)

  -- The same of check_init_data, whatever the host x returns and whatever the callback finds.
  pub check_init_data-IsSafe :
      (callback : State → ContractInitCheck → ContractInitCheck) (p : ℤ) (s : x.State)
      → let (r, s') = check_init_data x w state_json p callback s in
        (log : List Call) × (check_init_data (traced x) w state_json p callback ([], s)
          ≡ (r, (log, s')))
        × IsSafe log
        × Returned r [] log
  check_init_data-IsSafe callback p s =
      at_start (check_init_data (traced x) w state_json p callback)
        (check_init_data x w state_json p callback) s
        (check_init_data-Erases x w state_json callback p)
        (check_init_data-Returned x w state_json callback p ([], s) tt)
