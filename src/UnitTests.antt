-- ===== src/UnitTests.antt =====
-- The repository's unit tests of what needs no library: each is a Boolean run of the model by the
-- steps of the test, with its assertions, and each passes.
mod Errors
mod Results
mod Counters
mod Data
mod Memory
mod Limits
use ave_contract_sdk.Base.{ℕ, Bool, true, false, ◌&&◌, Option, none, some, List, [], ◌∷◌, ◌==◌}
use ave_contract_sdk.Base.Result.{Result, ok, err}

module _ {E A : Type 0} where
  -- `let a = r.unwrap();`, and what is asserted of it.
  abbrev pub unwrap : Result E A → (A → Bool) → Bool
  unwrap (ok a) test = test a
  unwrap (err e) test = false

  -- `let e = r.unwrap_err();`
  abbrev pub unwrap_err : Result E A → (E → Bool) → Bool
  unwrap_err (ok a) test = false
  unwrap_err (err e) test = test e

-- `assert_eq!` on vectors of bytes
abbrev pub same_bytes : List ℕ → List ℕ → Bool
same_bytes [] [] = true
same_bytes (x ∷ xs) (y ∷ ys) = x == y && same_bytes xs ys
same_bytes _ _ = false

-- `assert_eq!` on numbers that may be missing
abbrev pub same_number : Option ℕ → Option ℕ → Bool
same_number none none = true
same_number (some n) (some m) = n == m
same_number _ _ = false
