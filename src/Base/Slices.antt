-- ===== src/Base/Slices.antt =====
-- Slices of byte vectors, and of the vectors that a copy of a slice leaves.
use Prim.Native.Nat.{ℕ, zero, suc, ◌+◌, ◌≤◌}
use mathlib.Core.Path.{◌≡◌, refl, ap, sym, ◌∙◌}
use mathlib.Core.List.{List, [], ◌∷◌, ◌++◌}
use native.Mathlib.Omega.{arith}
use ave_contract_sdk.Base.Lists.{
  length, take, drop, overwrite, splice, slice, take_all, drop-append_left, take-append,
  overwrite_all,
}

suc-add : (m n : ℕ) → suc m + n ≡ suc (m + n)
suc-add m n = omega arith

module _ {ℓ} {A : Type ℓ} where
  take-overwrite :
      (xs ys : List A) → length xs ≤ length ys → take (length xs) (overwrite xs ys) ≡ xs
  take-overwrite [] ys h = refl
  take-overwrite (x ∷ xs) [] h = absurd (omega arith)
  take-overwrite (x ∷ xs) (y ∷ ys) h = ap (λ t. x ∷ t) (take-overwrite xs ys (omega arith))

  drop-overwrite : (n : ℕ) (xs ys : List A) → length xs ≤ n → drop n (overwrite xs ys) ≡ drop n ys
  drop-overwrite n [] ys h = refl
  drop-overwrite zero (x ∷ xs) ys h = absurd (omega arith)
  drop-overwrite (suc n) (x ∷ xs) [] h = refl
  drop-overwrite (suc n) (x ∷ xs) (y ∷ ys) h = drop-overwrite n xs ys (omega arith)

  -- A slice of a longer vector that lies in its front.
  pub slice-append :
      (p l : ℕ) (xs ys : List A) → p + l ≤ length xs → slice p l (xs ++ ys) ≡ slice p l xs
  slice-append zero l xs ys h = take-append l xs ys (omega arith)
  slice-append (suc p) l [] ys h = absurd (omega arith)
  slice-append (suc p) l (x ∷ xs) ys h = slice-append p l xs ys (omega arith)

  -- The bytes appended are the slice behind the old end.
  pub slice-append_right : (xs ys : List A) → slice (length xs) (length ys) (xs ++ ys) ≡ ys
  slice-append_right xs ys = ap (take (length ys)) (drop-append_left xs ys) ∙ take_all ys

  -- What was copied in is read back.
  pub slice-splice_self :
      (s : ℕ) (xs ys : List A)
      → s + length xs ≤ length ys
      → slice s (length xs) (splice s xs ys) ≡ xs
  slice-splice_self zero xs ys h = take-overwrite xs ys (omega arith)
  slice-splice_self (suc s) xs [] h = absurd (omega arith)
  slice-splice_self (suc s) xs (y ∷ ys) h = slice-splice_self s xs ys (omega arith)

  -- A copy leaves every slice before it and behind it as it was.
  pub slice-splice_before :
      (p l s : ℕ) (xs ys : List A) → p + l ≤ s → slice p l (splice s xs ys) ≡ slice p l ys
  slice-splice_before zero zero s xs ys h = refl
  slice-splice_before zero (suc l) zero xs ys h = absurd (omega arith)
  slice-splice_before zero (suc l) (suc s) xs [] h = refl
  slice-splice_before zero (suc l) (suc s) xs (y ∷ ys) h =
      ap (λ t. y ∷ t) (slice-splice_before zero l s xs ys (omega arith))
  slice-splice_before (suc p) l zero xs ys h = absurd (omega arith)
  slice-splice_before (suc p) l (suc s) xs [] h = refl
  slice-splice_before (suc p) l (suc s) xs (y ∷ ys) h =
      slice-splice_before p l s xs ys (omega arith)

  drop-splice : (n s : ℕ) (xs ys : List A) → s + length xs ≤ n → drop n (splice s xs ys) ≡ drop n ys
  drop-splice n zero xs ys h = drop-overwrite n xs ys (omega arith)
  drop-splice zero (suc s) xs ys h = absurd (omega arith)
  drop-splice (suc n) (suc s) xs [] h = refl
  drop-splice (suc n) (suc s) xs (y ∷ ys) h = drop-splice n s xs ys (omega arith)

  pub slice-splice_behind :
      (p l s : ℕ) (xs ys : List A) → s + length xs ≤ p → slice p l (splice s xs ys) ≡ slice p l ys
  slice-splice_behind p l s xs ys h = ap (take l) (drop-splice p s xs ys h)

  take-cast : {m n : ℕ} (xs : List A) → m ≡ n → take m xs ≡ take n xs
  take-cast xs e = ap (λ n. take n xs) e

  drop-cast : {m n : ℕ} (xs : List A) → m ≡ n → drop m xs ≡ drop n xs
  drop-cast xs e = ap (λ n. drop n xs) e

  drop-nil : (n : ℕ) → drop {A = A} n [] ≡ []
  drop-nil zero = refl
  drop-nil (suc n) = refl

  drop-drop-suc : (a b : ℕ) (x : A) (xs : List A) → drop (suc b + a) (x ∷ xs) ≡ drop (b + a) xs
  drop-drop-suc a b x xs = drop-cast (x ∷ xs) e
    where
      e : suc b + a ≡ suc (b + a)
      e = omega arith

  take-add : (a b : ℕ) (xs : List A) → take (a + b) xs ≡ take a xs ++ slice a b xs
  take-add zero b xs = take-cast xs (omega arith)
  take-add (suc a) zero [] = take-cast [] e
    where
      e : suc a + zero ≡ suc a
      e = omega arith
  take-add (suc a) (suc b) [] = take-cast [] e
    where
      e : suc a + suc b ≡ suc (a + suc b)
      e = omega arith
  take-add (suc a) b (x ∷ xs) = take-cast (x ∷ xs) e ∙ ap (λ t. x ∷ t) (take-add a b xs)
    where
      e : suc a + b ≡ suc (a + b)
      e = omega arith

  pub drop-drop : (a b : ℕ) (xs : List A) → drop a (drop b xs) ≡ drop (b + a) xs
  drop-drop a zero xs = drop-cast xs (omega arith)
  drop-drop zero (suc b) [] = sym (drop-nil (suc b + zero))
  drop-drop (suc a) (suc b) [] = sym (drop-nil (suc b + suc a))
  drop-drop a (suc b) (x ∷ xs) = drop-drop a b xs ∙ sym (drop-drop-suc a b x xs)

  -- A slice is two neighbouring slices.
  pub slice-add :
      (p a b : ℕ) (xs : List A) → slice p (a + b) xs ≡ slice p a xs ++ slice (p + a) b xs
  slice-add p a b xs =
      take-add a b (drop p xs) ∙ ap (λ t. slice p a xs ++ take b t) (drop-drop a p xs)

  splice-nil : (s : ℕ) (xs : List A) → splice s xs [] ≡ []
  splice-nil zero [] = refl
  splice-nil zero (x ∷ xs) = refl
  splice-nil (suc s) xs = refl

  splice-cast :
      {m n : ℕ} (p : ℕ) (xs ys : List A) → m ≡ n → drop p (splice m xs ys) ≡ drop p (splice n xs ys)
  splice-cast p xs ys e = ap (λ k. drop p (splice k xs ys)) e

  drop-splice_add :
      (p off : ℕ) (xs ys : List A) → drop p (splice (p + off) xs ys) ≡ splice off xs (drop p ys)
  drop-splice_add zero off xs ys = ap (λ n. splice n xs ys) e
    where
      e : zero + off ≡ off
      e = omega arith
  drop-splice_add (suc p) off xs [] =
      splice-cast (suc p) xs [] (suc-add p off) ∙ sym (splice-nil off xs)
  drop-splice_add (suc p) off xs (y ∷ ys) =
      splice-cast (suc p) xs (y ∷ ys) (suc-add p off) ∙ drop-splice_add p off xs ys

  take-overwrite_le :
      (n : ℕ) (xs ys : List A) → length xs ≤ n → take n (overwrite xs ys) ≡ overwrite xs (take n ys)
  take-overwrite_le n [] ys h = refl
  take-overwrite_le zero (x ∷ xs) ys h = absurd (omega arith)
  take-overwrite_le (suc n) (x ∷ xs) [] h = refl
  take-overwrite_le (suc n) (x ∷ xs) (y ∷ ys) h =
      ap (λ t. x ∷ t) (take-overwrite_le n xs ys (omega arith))

  take-splice :
      (n s : ℕ) (xs ys : List A)
      → s + length xs ≤ n
      → take n (splice s xs ys) ≡ splice s xs (take n ys)
  take-splice n zero xs ys h = take-overwrite_le n xs ys (omega arith)
  take-splice zero (suc s) xs ys h = absurd (omega arith)
  take-splice (suc n) (suc s) xs [] h = refl
  take-splice (suc n) (suc s) xs (y ∷ ys) h = ap (λ t. y ∷ t) (take-splice n s xs ys (omega arith))

  -- A copy inside a slice, read through that slice.
  pub slice-splice :
      (p l off : ℕ) (xs ys : List A)
      → off + length xs ≤ l
      → slice p l (splice (p + off) xs ys) ≡ splice off xs (slice p l ys)
  slice-splice p l off xs ys h =
      ap (take l) (drop-splice_add p off xs ys) ∙ take-splice l off xs (drop p ys) h

  -- A front and then a rest, copied over a vector of their joint length.
  pub splice-splice :
      (xs ys zs : List A)
      → length xs + length ys ≡ length zs
      → splice (length xs) ys (overwrite xs zs) ≡ xs ++ ys
  splice-splice [] ys zs h = overwrite_all ys zs (omega arith)
  splice-splice (x ∷ xs) ys [] h = absurd (omega arith)
  splice-splice (x ∷ xs) ys (z ∷ zs) h = ap (λ t. x ∷ t) (splice-splice xs ys zs (omega arith))
