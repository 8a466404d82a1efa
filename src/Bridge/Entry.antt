-- ===== src/Bridge/Entry.antt =====
-- src/lib.rs: the entry points of a contract over any host that provides what they need.
use ave_contract_sdk.Base.{ℕ, ◌≡◌, refl, List, arith, inl, inr}
use ave_contract_sdk.Base.Machine.{ℤ}
use ave_contract_sdk.Base.Text.{String}
use ave_contract_sdk.Base.Result.{Result, ok, err, Result-cases}
use ave_contract_sdk.Sdk.Context.{Context, ContractResult, ContractInitCheck}
use ave_contract_sdk.Sdk.Wire.{Wire, Json, ContractResultData}
use ave_contract_sdk.Sdk.Extern.{Extern, error, failing}
use ave_contract_sdk.Sdk.Contract.{
  is_owner_flag, read_state, try_execute_contract, execute_contract, try_check_init_data,
  check_init_data,
}
use ave_contract_sdk.Bridge.Verdict.{argument, or_else, verdict, report, init_verdict, init_report}
use ave_contract_sdk.Bridge.Service.{Service, read_and_parse-Holds}

module _ (x : Extern) (service : Service x) (sp ip ep : ℤ) (a b d : List ℕ) where
  -- The host holds the three payloads.
  pub record HoldsAll (s : x.State) : Type 0 where
    pub state_held : service.Holds sp a s
    pub init_held : service.Holds ip b s
    pub event_held : service.Holds ep d s

module _ (x : Extern) (service : Service x) (w : Wire) {State Event : Type 0}
    (state_json : Json State) (event_json : Json Event) (sp ip ep : ℤ) (a b d : List ℕ) where
  -- The state, or else the initial state, is read.
  read_state-Holds :
      (s : x.State)
      → HoldsAll x service sp ip ep a b d s
      → (s' : x.State) × (read_state x w state_json sp ip s ≡ (
        failing (or_else (argument state_json "State" a) (argument state_json "Init State" b)),
        s',
      ))
        × service.Reads s s'
  unfolding read_state
  read_state-Holds s h =
      let (s₁, r₁, k₁) = read_and_parse-Holds x service w state_json sp a "State" s h.state_held in
      let (s₂, r₂, k₂) =
        read_and_parse-Holds x service w state_json ip b "Init State" s₁
          (service.Reads-Holds s s₁ ip b k₁ h.init_held) in
      elim (Result-cases (state_json.from_slice a)) [
        | inl (st, p) ↦ (s₁, ground (arith, r₁, p), k₁)
        | inr (e, p) ↦ elim (Result-cases (state_json.from_slice b)) [
          | inl (st, q) ↦ (s₂, ground (arith, r₁, r₂, p, q), service.Reads-trans s s₁ s₂ k₁ k₂)
          | inr (f, q) ↦ (s₂, ground (arith, r₁, r₂, p, q), service.Reads-trans s s₁ s₂ k₁ k₂)
        ]
      ]

  module _ (callback : Context Event → ContractResult State → ContractResult State)
      (owner : ℤ) where
    -- What the contract is to store.
    abbrev result : Result String ContractResultData
    result = verdict state_json event_json callback a b d (is_owner_flag owner)

    try_refused :
        (s : x.State) (msg : String)
        → HoldsAll x service sp ip ep a b d s
        → result ≡ err msg
        → (s' : x.State) × (try_execute_contract x w state_json event_json sp ip ep owner callback s
            ≡ (err (error msg), s'))
          × service.Reads s s'
    unfolding try_execute_contract verdict
    try_refused s msg h v =
        let (s₁, r₁, k₁) = read_state-Holds s h in
        let (s₂, r₂, k₂) =
          read_and_parse-Holds x service w event_json ep d "Event" s₁
            (service.Reads-Holds s s₁ ep d k₁ h.event_held) in
        elim (Result-cases
          (or_else (argument state_json "State" a) (argument state_json "Init State" b))) [
            | inl (st, p) ↦ elim (Result-cases (event_json.from_slice d)) [
              | inl (ev, q) ↦
                  (s₂, ground (arith, r₁, r₂, p, q, v), service.Reads-trans s s₁ s₂ k₁ k₂)
              | inr (y, q) ↦
                  (s₂, ground (arith, r₁, r₂, p, q, v), service.Reads-trans s s₁ s₂ k₁ k₂)
            ]
            | inr (y, p) ↦ (s₁, ground (arith, r₁, p, v), k₁)
          ]

    try_reported :
        (s : x.State) (r : ContractResultData) (out : List ℕ)
        → HoldsAll x service sp ip ep a b d s
        → result ≡ ok r
        → w.encode_result r ≡ ok out
        → service.Room out s
        → (ptr : ℕ) × (s' : x.State) × (try_execute_contract x w state_json event_json sp ip ep
              owner callback s
            ≡ (ok ptr, s'))
          × service.Stores out s ptr s'
    unfolding try_execute_contract verdict
    try_reported s r out h v encoded room =
        let (s₁, r₁, k₁) = read_state-Holds s h in
        let (s₂, r₂, k₂) =
          read_and_parse-Holds x service w event_json ep d "Event" s₁
            (service.Reads-Holds s s₁ ep d k₁ h.event_held) in
        let k = service.Reads-trans s s₁ s₂ k₁ k₂ in
        let (ptr, s₃, r₃, k₃) =
          service.put out s₂ (w.encode_result-pos r out encoded)
            (service.Reads-Room s s₂ out k room) in
        elim (Result-cases
          (or_else (argument state_json "State" a) (argument state_json "Init State" b))) [
            | inl (st, p) ↦ elim (Result-cases (event_json.from_slice d)) [
              | inl (ev, q) ↦ (
                ptr,
                s₃,
                ground (arith, r₁, r₂, r₃, p, q, v, encoded),
                service.Reads-Stores s s₂ s₃ out ptr k k₃,
              )
              | inr (y, q) ↦ (
                ptr,
                s₃,
                ground (arith, r₁, r₂, p, q, v),
                service.Reads-Stores s s₂ s₃ out ptr k k₃,
              )
            ]
            | inr (y, p) ↦
                (ptr, s₃, ground (arith, r₁, p, v), service.Reads-Stores s s₂ s₃ out ptr k k₃)
          ]

    -- Over any host that holds the arguments and has room for the report, `execute_contract` ends
    -- without a trap and stores the encoded report: the callback's verdict on the state, or on the
    -- initial state where the state cannot be parsed, or the reason why there is no verdict.
    pub execute_contract-Stores :
        (s : x.State) (out : List ℕ)
        → HoldsAll x service sp ip ep a b d s
        → w.encode_result (report w result) ≡ ok out
        → service.Room out s
        → (ptr : ℕ) × (s' : x.State) × (execute_contract x w state_json event_json sp ip ep owner
              callback s
            ≡ (ok ptr, s'))
          × service.Stores out s ptr s'
    unfolding execute_contract
    execute_contract-Stores s out h encoded room = elim (Result-cases result) [
      | inl (r, v) ↦
          let (ptr, s', g, k) = try_reported s r out h v (rw v at encoded) room in
          (ptr, s', rw g refl, k)
      | inr (msg, v) ↦
          let (s₁, g, k₁) = try_refused s msg h v in
          let reason : w.encode_result (w.result_error msg) ≡ ok out = rw v at encoded in
          let (ptr, s₂, r, k₂) =
            service.put out s₁ (w.encode_result-pos (w.result_error msg) out reason)
              (service.Reads-Room s s₁ out k₁ room) in
          (ptr, s₂, rw (g, reason, r) refl, service.Reads-Stores s s₁ s₂ out ptr k₁ k₂)
    ]

module _ (x : Extern) (service : Service x) (w : Wire) {State : Type 0} (state_json : Json State)
    (callback : State → ContractInitCheck → ContractInitCheck) (p : ℤ) (a : List ℕ) (s : x.State)
    (h : service.Holds p a s) where
  -- What the contract is to report.
  abbrev checked : Result String (Unit {0})
  checked = init_verdict state_json callback a

  init_refused :
      (msg : String)
      → checked ≡ err msg
      → (s' : x.State) × (try_check_init_data x w state_json p callback s ≡ (err (error msg), s'))
        × service.Reads s s'
  unfolding try_check_init_data init_verdict
  init_refused msg v =
      let (s₁, r₁, k₁) = read_and_parse-Holds x service w state_json p a "State" s h in
      elim (Result-cases (state_json.from_slice a)) [
        | inl (st, q) ↦ (s₁, ground (arith, r₁, q, v), k₁)
        | inr (e, q) ↦ (s₁, ground (arith, r₁, q, v), k₁)
      ]

  init_passed :
      (out : List ℕ)
      → checked ≡ ok tt
      → w.encode_init w.init_ok ≡ ok out
      → service.Room out s
      → (ptr : ℕ) × (s' : x.State) × (try_check_init_data x w state_json p callback s
          ≡ (ok ptr, s'))
        × service.Stores out s ptr s'
  unfolding try_check_init_data init_verdict
  init_passed out v encoded room =
      let (s₁, r₁, k₁) = read_and_parse-Holds x service w state_json p a "State" s h in
      let (ptr, s₂, r₂, k₂) =
        service.put out s₁ (w.encode_init-pos w.init_ok out encoded)
          (service.Reads-Room s s₁ out k₁ room) in
      let k = service.Reads-Stores s s₁ s₂ out ptr k₁ k₂ in
      elim (Result-cases (state_json.from_slice a)) [
        | inl (st, q) ↦ (ptr, s₂, ground (arith, r₁, r₂, q, v, encoded), k)
        | inr (e, q) ↦ (ptr, s₂, ground (arith, r₁, q, v), k)
      ]

  -- Over any host that holds the state and has room for the report, `check_init_data` ends without a
  -- trap and stores the encoded report: passed where the state can be parsed and the callback accepts
  -- it, or else the reason.
  pub check_init_data-Stores :
      (out : List ℕ)
      → w.encode_init (init_report w checked) ≡ ok out
      → service.Room out s
      → (ptr : ℕ) × (s' : x.State) × (check_init_data x w state_json p callback s ≡ (ok ptr, s'))
        × service.Stores out s ptr s'
  unfolding check_init_data
  check_init_data-Stores out encoded room = elim (Result-cases checked) [
    | inl (u, q) ↦
        let (ptr, s', g, k) = init_passed out q (rw q at encoded) room in (ptr, s', rw g refl, k)
    | inr (msg, q) ↦
        let (s₁, g, k₁) = init_refused msg q in
        let reason : w.encode_init (w.init_error msg) ≡ ok out = rw q at encoded in
        let (ptr, s₂, r, k₂) =
          service.put out s₁ (w.encode_init-pos (w.init_error msg) out reason)
            (service.Reads-Room s s₁ out k₁ room) in
        (ptr, s₂, rw (g, reason, r) refl, service.Reads-Stores s s₁ s₂ out ptr k₁ k₂)
  ]
