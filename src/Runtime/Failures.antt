-- ===== src/Runtime/Failures.antt =====
-- src/runtime: what the errors of a call tell, from what those of its steps tell.
use ave_contract_sdk.Base.{
  Bool-cases, inl, inr, ltb, length, ◌^◌, ℕ, ◌≡◌, refl, Option, some, none, List,
}
use ave_contract_sdk.Base.Text.{String}
use ave_contract_sdk.Base.Result.{Result, ok, err, map_err as map_failure, ok_or}
use ave_contract_sdk.Base.Result
use ave_contract_sdk.Base.Exec.{Exec, continue, ◌>>=◌, lift, map_err}
use ave_contract_sdk.Sdk.Wire.{Json, to_le_bytes}
use ave_contract_sdk.Runtime.Error.{RuntimeError, ContractError, serialization_error}
use ave_contract_sdk.Runtime.Config.{WasmLimits}
use ave_contract_sdk.Runtime.Memory.{MemoryManager, from_limits, alloc, write_bytes_at}
use ave_contract_sdk.Runtime.Staging.{
  allocation_failed, payload_len, value_to_contract_data, write_contract_data, generate_context,
  generate_execution_context,
}

-- The error of a result, if it is one, is as P says.
abbrev pub Fails : {E A : Type 0} → (E → Type 0) → Result E A → Type 0
Fails P (ok a) = Unit {0}
Fails P (err e) = P e

pub Fails-map :
    {E A : Type 0} {P Q : E → Type 0}
    → ((e : E) → P e → Q e)
    → (r : Result E A) → Fails P r
    → Fails Q r
Fails-map f (ok a) h = tt
Fails-map f (err e) h = f e h

pub Fails-err :
    {E A : Type 0} (P : E → Type 0) (r : Result E A) {e : E} → Fails P r → r ≡ err e → P e
Fails-err P r h same = rw same at h

pub map_err-ok :
    {D E A : Type 0} (f : D → E) (r : Result D A) {a : A} → map_failure f r ≡ ok a → r ≡ ok a
map_err-ok f (ok a) h = cc
map_err-ok f (err d) h = cc

module _ {E : Type 0} (P : E → Type 0) where
  pub bind-Fails :
      {A B : Type 0} (r : Result E A) (f : A → Result E B)
      → Fails P r
      → ((a : A) → r ≡ ok a → Fails P (f a))
      → Fails P (Result.◌>>=◌ r f)
  bind-Fails (ok a) f h g = g a refl
  bind-Fails (err e) f h g = h

  pub map_err-Fails :
      {D A : Type 0} (f : D → E) (r : Result D A)
      → ((d : D) → r ≡ err d → P (f d))
      → Fails P (map_failure f r)
  map_err-Fails f (ok a) h = tt
  map_err-Fails f (err d) h = h d refl

  pub ok_or-Fails :
      {A : Type 0} (e : E) (found : Option A) → (found ≡ none → P e) → Fails P (ok_or e found)
  ok_or-Fails e none h = h refl
  ok_or-Fails e (some a) h = tt

  continue-Fails :
      {S A B : Type 0} (r : Result E A) (f : A → Exec E S B) (s : S)
      → Fails P r
      → ((a : A) (s' : S) → Fails P (f a s').0)
      → Fails P (continue r f s).0
  continue-Fails (ok a) f s h g = g a s
  continue-Fails (err e) f s h g = h

-- The errors of staging are of two kinds.
module _ (P : RuntimeError → Type 0)
    (unwritten : (context details : String) → P (serialization_error context details))
    (unallocated : (e : ContractError) → P (allocation_failed e)) where
  payload_len-Fails : (payload : List ℕ) → Fails P (payload_len payload)
  payload_len-Fails payload = elim (Bool-cases (ltb (length payload) (2 ^ 32))) [
    | inl fits ↦ rw fits tt
    | inr long ↦ rw long (unwritten _ _)
  ]

  write_contract_data-Fails :
      (payload : List ℕ) (m : MemoryManager) → Fails P (write_contract_data payload m).0
  unfolding write_contract_data
  write_contract_data-Fails payload m =
      continue-Fails P (payload_len payload) _ m (payload_len-Fails payload) (λ len m₁.
        continue-Fails P (map_err allocation_failed (alloc _) m₁).0 _ _
          (map_err-Fails P allocation_failed (alloc _ m₁).0 (λ e _. unallocated e))
          (λ ptr m₂.
            continue-Fails P
              (map_err allocation_failed (write_bytes_at ptr 0 (to_le_bytes len)) m₂).0 _ _
              (map_err-Fails P allocation_failed (write_bytes_at ptr 0 (to_le_bytes len) m₂).0
                (λ e _. unallocated e))
              (λ _ m₃.
                continue-Fails P (map_err allocation_failed (write_bytes_at ptr 4 payload) m₃).0 _ _
                  (map_err-Fails P allocation_failed (write_bytes_at ptr 4 payload m₃).0
                    (λ e _. unallocated e))
                  (λ _ m₄. tt))))

  module _ {Value : Type 0} (value_json : Json Value) where
    -- A value's data, written, and what follows.
    staged :
        {A : Type 0} (v : Value) (f : ℕ → Exec RuntimeError MemoryManager A) (m : MemoryManager)
        → ((p : ℕ) (m' : MemoryManager) → Fails P (f p m').0)
        → Fails P
            ((lift (value_to_contract_data value_json v)
                >>= (λ bytes. write_contract_data bytes >>= f))
              m).0
    staged v f m h =
        continue-Fails P (value_to_contract_data value_json v) _ m
          (map_err-Fails P (serialization_error "value to contract data") (value_json.to_vec v)
            (λ d _. unwritten _ d))
          (λ bytes m'.
            continue-Fails P (write_contract_data bytes m').0 f _
              (write_contract_data-Fails bytes m') h)

    pub generate_context-Fails :
        (v : Value) (limits : WasmLimits) → Fails P (generate_context value_json v limits).0
    unfolding generate_context
    generate_context-Fails v limits =
        continue-Fails P (value_to_contract_data value_json v) _ (from_limits limits)
          (map_err-Fails P (serialization_error "value to contract data") (value_json.to_vec v)
            (λ d _. unwritten _ d))
          (λ payload m. write_contract_data-Fails payload m)

    pub generate_execution_context-Fails :
        (a b c : Value) (limits : WasmLimits)
        → Fails P (generate_execution_context value_json a b c limits).0
    unfolding generate_execution_context
    generate_execution_context-Fails a b c limits =
        staged a _ (from_limits limits) (λ p m. staged b _ m (λ q m'. staged c _ m' (λ r m''. tt)))
