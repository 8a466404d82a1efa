-- ===== src/Base/Exec.antt =====
-- Calls that change a state and may fail: the state comes back beside the error too.
use ave_contract_sdk.Base.{Bool, true, false}
use ave_contract_sdk.Base.Result.{Result, ok, err, map_err as relabel}

abbrev pub Exec : Type 0 → Type 0 → Type 0 → Type 0
Exec E S A = S → Result E A × S

module _ {E S A : Type 0} where
  abbrev pub pure : A → Exec E S A
  pure a s = (ok a, s)

  abbrev pub raise : E → Exec E S A
  raise e s = (err e, s)

  abbrev pub lift : Result E A → Exec E S A
  lift r s = (r, s)

  -- A call through `&self`: it reads the state and leaves it.
  abbrev pub gets : (S → Result E A) → Exec E S A
  gets f s = (f s, s)

module _ {E S : Type 0} where
  -- `if test { return Err(e); }`
  abbrev pub fail_if : Bool → E → Exec E S (Unit {0})
  fail_if true e s = (err e, s)
  fail_if false e s = (ok tt, s)

  abbrev pub put : S → Exec E S (Unit {0})
  put s _ = (ok tt, s)

module _ {E S A B : Type 0} where
  abbrev pub continue : Result E A → (A → Exec E S B) → Exec E S B
  continue (ok a) f s = f a s
  continue (err e) f s = (err e, s)

  infixl 5 ◌>>=◌ ◌>>◌
  abbrev pub ◌>>=◌ : Exec E S A → (A → Exec E S B) → Exec E S B
  ◌>>=◌ m f s = continue (m s).0 f (m s).1

  abbrev pub ◌>>◌ : Exec E S A → Exec E S B → Exec E S B
  m >> k = m >>= λ _. k

-- `call.map_err(f)`
abbrev pub map_err : {E F S A : Type 0} → (E → F) → Exec E S A → Exec F S A
map_err f m s = (relabel f (m s).0, (m s).1)
