-- ===== src/Bridge/Agree/Validation.antt =====
-- src/runtime/contract_runtime.rs: machines must not differ in which modules they validate.
use mathlib.Core.List.{Perm}
use mathlib.Core.List.Perm
use ave_contract_sdk.Base.{[], ◌∷◌, ℕ, ◌+◌, ◌≡◌, refl, sym, ◌∙◌, inl, inr, List, length}
use ave_contract_sdk.Base.Text.{String}
use ave_contract_sdk.Base.Result.{Result, ok, err, Result-cases}
use ave_contract_sdk.Sdk.Context.{ContractInitCheck}
use ave_contract_sdk.Sdk.Wire.{Wire, Json}
use ave_contract_sdk.Runtime.Error.{RuntimeError, invalid_module, missing_imports}
use ave_contract_sdk.Runtime.Config.{limits_of_spec}
use ave_contract_sdk.Runtime.Memory.{from_limits}
use ave_contract_sdk.Runtime.Memory.Inv.{Fits}
use ave_contract_sdk.Runtime.Staging.Laws.{staged}
use ave_contract_sdk.Runtime.Imports.{
  Import, SetOrder, sdk_functions, check_loop, none_missing, check_imports,
}
use ave_contract_sdk.Runtime.Imports.Exact.{sdk_imports, check_imports_iff}
use ave_contract_sdk.Runtime.Validate.{validate, validate_inner}
use ave_contract_sdk.Bridge.Verdict.{init_verdict, init_report}
use ave_contract_sdk.Bridge.Init.{RunsInitCheck, validate_reports}
use ave_contract_sdk.Bridge.Agree.{Node}

abbrev pub imports_of : Node → List Import
imports_of n = n.engine.imports n.compiled

-- The same verdict, where the names that are missing have any order.
pub data SameVerdict
    : Result RuntimeError (Unit {0}) → Result RuntimeError (Unit {0}) → Type 0 where
  equal : {r r' : Result RuntimeError (Unit {0})} → r ≡ r' → SameVerdict r r'
  missing :
      {r r' : Result RuntimeError (Unit {0})} (names names' : List String)
      → r ≡ err (invalid_module (missing_imports names))
      → r' ≡ err (invalid_module (missing_imports names'))
      → Perm names names'
      → SameVerdict r r'

none_missing-SameVerdict :
    (o o' : SetOrder) (rest : List String)
    → SameVerdict (none_missing o rest) (none_missing o' rest)
none_missing-SameVerdict o o' [] = equal refl
none_missing-SameVerdict o o' (x ∷ xs) =
    missing (o.into_iter (x ∷ xs)) (o'.into_iter (x ∷ xs)) refl refl
      (Perm.trans (Perm.symm (o.into_iter-Perm (x ∷ xs))) (o'.into_iter-Perm (x ∷ xs)))

check_imports-SameVerdict :
    (o o' : SetOrder) (imports : List Import)
    → SameVerdict (check_imports o imports) (check_imports o' imports)
unfolding check_imports
check_imports-SameVerdict o o' imports = elim (Result-cases (check_loop imports sdk_functions)) [
  | inl (rest, e) ↦ rw e (none_missing-SameVerdict o o' rest)
  | inr (x, e) ↦ rw e (equal refl)
]

module _ (w : Wire) {State Value : Type 0} (state_json : Json State) (value_json : Json Value)
    (callback : State → ContractInitCheck → ContractInitCheck) (state : Value)
    (a out : List ℕ) where
  -- The machine's limits have room for the state and the report, and its engine runs the initial check,
  -- with fuel and linear memory enough, to the end that the contract's source gives it.
  pub record IsInitAble (n : Node) : Type 0 where
    pub fit : Fits (4 + length a) (from_limits (limits_of_spec n.spec))
    pub room : Fits (length out) (staged a (from_limits (limits_of_spec n.spec)))
    pub runs :
        RunsInitCheck n.lm n.heap w state_json callback n.engine n.compiled
          (staged a (from_limits (limits_of_spec n.spec)))
          0

  -- The validation of the module on a machine.
  abbrev pub validated : Node → Result RuntimeError (Unit {0})
  validated n = validate w value_json n.engine n.order (limits_of_spec n.spec) n.compiled state

  refused :
      (n : Node) (e : RuntimeError)
      → check_imports n.order (imports_of n) ≡ err e
      → validated n ≡ err e
  unfolding validate validate_inner
  refused n e h = rw h refl

  -- Let two machines find the same imports in a module, let the initial state have a JSON text and the
  -- report of its check an encoding, and let the machines, where those imports are the SDK's, have
  -- room for both and engines that run the check, with fuel and linear memory enough, to the end that
  -- the contract's source gives it. Then they give the same verdict on the module, the same error
  -- included, whatever their limits, their engines and the order of their hash sets; only the names of
  -- missing imports may come in another order.
  pub validate_agrees :
      (m n : Node)
      → imports_of m ≡ imports_of n
      → value_json.to_vec state ≡ ok a
      → w.encode_init (init_report w (init_verdict state_json callback a)) ≡ ok out
      → (Perm (imports_of m) sdk_imports → IsInitAble m × IsInitAble n)
      → SameVerdict (validated m) (validated n)
  validate_agrees m n same text encoded able =
      elim (Result-cases (check_imports m.order (imports_of m))) [
        | inl (u, e) ↦
            let exact = (check_imports_iff m.order (imports_of m)).0 e in
            let (f, g) = able exact in
            equal (
              validate_reports m.lm m.heap w state_json value_json callback m.engine m.compiled
                state m.spec a out m.order exact text f.fit encoded f.room f.runs
              ∙ sym (
                  validate_reports n.lm n.heap w state_json value_json callback n.engine n.compiled
                    state n.spec a out n.order (rw same at exact) text g.fit encoded g.room g.runs))
        | inr (x, e) ↦ elim (Result-cases (check_imports n.order (imports_of n))) [
          | inl (u, f) ↦
              let passes =
                (check_imports_iff m.order (imports_of m)).1
                  (rw same ((check_imports_iff n.order (imports_of n)).0 f)) in
              absurd (err_not_ok (sym e ∙ passes))
          | inr (y, f) ↦
              let both : SameVerdict (check_imports m.order (imports_of m))
                  (check_imports n.order (imports_of n)) =
                rw same (check_imports-SameVerdict m.order n.order (imports_of n)) in
              rw (refused m x e, refused n y f) (rw (e, f) at both)
        ]
      ]
    where
      err_not_ok : {x : RuntimeError} → ◌≡◌ {A = Result RuntimeError (Unit {0})} (err x) (ok tt) → ⊥
      err_not_ok h = cc
