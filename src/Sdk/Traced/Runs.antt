-- ===== src/Sdk/Traced/Runs.antt =====
-- src/lib.rs: how the calls of a run of steps follow from those of its steps.
use ave_contract_sdk.Base.{
  ℕ, suc, ◌≤◌, ◌≡◌, refl, ◌∙◌, ◌⊎◌, inl, inr, Bool, true, false, List, arith,
}
use ave_contract_sdk.Base.Result.{Result, ok, err, Result-cases}
use ave_contract_sdk.Base.Exec.{Exec, fail_if, ◌>>=◌}
use ave_contract_sdk.Sdk.Extern.{Stop, trap, error, relabel, map_err, recover}
use ave_contract_sdk.Sdk.Traced.{Call, IsSafe, writes, IsLast}

-- How a call that may store a result ends: a pointer is that of the one write that it made; an error
-- has not written.
abbrev pub Ends : {T E : Type 0} → Result (Stop T E) ℕ → List Call → List Call → Type 0
Ends (ok ptr) log log' = (writes log' ≡ suc (writes log)) × IsLast ptr log'
Ends (err (error e)) log log' = writes log' ≡ writes log
Ends (err (trap t)) log log' = writes log' ≤ suc (writes log)

-- A run that makes safe calls and no write.
abbrev pub Reads : {T S E A : Type 0} → Exec (Stop T E) (List Call × S) A → Type 0
Reads {T} {S} m =
    (t : List Call × S) → IsSafe t.0 → IsSafe (m t).1.0 × (writes (m t).1.0 ≡ writes t.0)

-- A run that makes safe calls, one of them a write if it returns a pointer.
abbrev pub Writes : {T S E : Type 0} → Exec (Stop T E) (List Call × S) ℕ → Type 0
Writes {T} {S} m = (t : List Call × S) → IsSafe t.0 → IsSafe (m t).1.0 × Ends (m t).0 t.0 (m t).1.0

unwritten :
    {T E : Type 0} (e : Stop T E) (log log' : List Call)
    → writes log' ≡ writes log
    → Ends (err e) log log'
unwritten (trap t) log log' h = omega arith
unwritten (error e) log log' h = h

pub Ends-from :
    {T E : Type 0} (r : Result (Stop T E) ℕ) (a b c : List Call)
    → writes b ≡ writes a
    → Ends r b c
    → Ends r a c
Ends-from (ok ptr) a b c h (n, last) = (omega arith, last)
Ends-from (err (trap t)) a b c h n = omega arith
Ends-from (err (error e)) a b c h n = omega arith

module _ {T S : Type 0} where
  module _ {E A B : Type 0} where
    pub bind-Reads :
        (m : Exec (Stop T E) (List Call × S) A) (f : A → Exec (Stop T E) (List Call × S) B)
        → Reads m
        → ((a : A) → Reads (f a))
        → Reads (m >>= f)
    bind-Reads m f h g t safe =
        let (safe₁, same₁) = h t safe in
        elim (Result-cases (m t).0) [
          | inl (a, e) ↦ let (safe₂, same₂) = g a (m t).1 safe₁ in rw e (safe₂, same₂ ∙ same₁)
          | inr (x, e) ↦ rw e (safe₁, same₁)
        ]

  module _ {E A : Type 0} where
    pub bind-Writes :
        (m : Exec (Stop T E) (List Call × S) A) (f : A → Exec (Stop T E) (List Call × S) ℕ)
        → Reads m
        → ((a : A) → Writes (f a))
        → Writes (m >>= f)
    bind-Writes m f h g t safe =
        let (safe₁, same₁) = h t safe in
        elim (Result-cases (m t).0) [
          | inl (a, e) ↦
              let (safe₂, ends) = g a (m t).1 safe₁ in
              rw e (safe₂, Ends-from (f a (m t).1).0 t.0 (m t).1.0 (f a (m t).1).1.0 same₁ ends)
          | inr (x, e) ↦ rw e (safe₁, unwritten x t.0 (m t).1.0 same₁)
        ]

pub fail_if-Reads : {T S E : Type 0} (b : Bool) (e : Stop T E) → Reads {T = T} {S = S} (fail_if b e)
fail_if-Reads true e t safe = (safe, refl)
fail_if-Reads false e t safe = (safe, refl)

pub recover-Reads :
    {T S E F A : Type 0} (handler : E → Exec (Stop T F) (List Call × S) A) (stop : T → Stop T F)
    (m : Exec (Stop T E) (List Call × S) A)
    → Reads m
    → ((e : E) → Reads (handler e))
    → Reads (λ t. recover handler stop (m t).0 (m t).1)
recover-Reads handler stop m h g t safe =
    let (safe₁, same₁) = h t safe in
    elim (Result-cases (m t).0) [
      | inl (a, e) ↦ rw e (safe₁, same₁)
      | inr (trap x, e) ↦ rw e (safe₁, same₁)
      | inr (error x, e) ↦ let (safe₂, same₂) = g x (m t).1 safe₁ in rw e (safe₂, same₂ ∙ same₁)
    ]

Ends-relabel :
    {T E F : Type 0} (f : E → F) (r : Result (Stop T E) ℕ) (log log' : List Call)
    → Ends r log log'
    → Ends (relabel f r) log log'
Ends-relabel f (ok ptr) log log' h = h
Ends-relabel f (err (trap t)) log log' h = h
Ends-relabel f (err (error e)) log log' h = h

pub map_err-Writes :
    {T S E F : Type 0} (f : E → F) (m : Exec (Stop T E) (List Call × S) ℕ)
    → Writes m
    → Writes (map_err f m)
map_err-Writes f m h t safe =
    let (safe', ends) = h t safe in (safe', Ends-relabel f (m t).0 t.0 (m t).1.0 ends)

-- How an entry point ends: with the pointer of the one write that it made, or with the null pointer
-- and no write.
abbrev pub Returned : {T : Type 0} → Result T ℕ → List Call → List Call → Type 0
Returned (ok ptr) log log' =
    ((ptr ≡ 0) × (writes log' ≡ writes log)) ⊎ ((writes log' ≡ suc (writes log)) × IsLast ptr log')
Returned (err t) log log' = writes log' ≤ suc (writes log)

pub recovered :
    {T S E : Type 0} (handler : E → Exec T (List Call × S) ℕ) (r : Result (Stop T E) ℕ)
    (log : List Call) (t : List Call × S)
    → IsSafe t.0
    → Ends r log t.0
    → ((e : E)
        → writes t.0 ≡ writes log
        → IsSafe (handler e t).1.0 × Returned (handler e t).0 log (handler e t).1.0)
    → let (r', t') = recover handler (λ (stop : T). stop) r t in IsSafe t'.0 × Returned r' log t'.0
recovered handler (ok ptr) log t safe ends h = (safe, inr ends)
recovered handler (err (trap stop)) log t safe ends h = (safe, ends)
recovered handler (err (error e)) log t safe ends h = h e ends
