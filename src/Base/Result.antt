-- ===== src/Base/Result.antt =====
-- Rust's `Result<A, E>`, and `?` as the bind of a `do` block.
use ave_contract_sdk.Base.{◌≡◌, refl, Option, none, some, ◌⊎◌, inl, inr}

pub data Result (E A : Type 0) : Type 0 where
  ok : A → Result E A
  err : E → Result E A

infixl 5 ◌>>=◌ ◌>>◌
abbrev pub ◌>>=◌ : {E A B : Type 0} → Result E A → (A → Result E B) → Result E B
ok a >>= f = f a
err e >>= f = err e

abbrev pub ◌>>◌ : {E B : Type 0} → Result E (Unit {0}) → Result E B → Result E B
m >> k = m >>= λ _. k

abbrev pub map_err : {E F A : Type 0} → (E → F) → Result E A → Result F A
map_err f (ok a) = ok a
map_err f (err e) = err (f e)

abbrev pub map_ok : {E A B : Type 0} → (A → B) → Result E A → Result E B
map_ok f (ok a) = ok (f a)
map_ok f (err e) = err e

abbrev pub ok_or : {E A : Type 0} → E → Option A → Result E A
ok_or e none = err e
ok_or e (some a) = ok a

pub Result-cases :
    {E A : Type 0} (r : Result E A) → ((a : A) × (r ≡ ok a)) ⊎ ((e : E) × (r ≡ err e))
Result-cases (ok a) = inl (a, refl)
Result-cases (err e) = inr (e, refl)

-- A chain that succeeds has succeeded in its first step, and in the rest from there.
module _ {E A B : Type 0} where
  pub >>=-ok :
      (first : Result E A) (rest : A → Result E B) {end : B}
      → (first >>= rest) ≡ ok end
      → (middle : A) × (first ≡ ok middle) × (rest middle ≡ ok end)
  >>=-ok (err failure) rest chain = cc
  >>=-ok (ok middle) rest chain = (middle, refl, chain)
