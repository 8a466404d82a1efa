-- ===== src/Base/Bits.antt =====
-- Bit operations as arithmetic: a mask of one byte, and the union of two numbers that share no bit.
use Prim.Native.Nat.{bit_and, bit_or, bit_or-bitwise, digits}
use ave_contract_sdk.Base.{
  ℕ, zero, suc, ◌+◌, ◌*◌, ◌/◌, ◌%◌, ◌^◌, ◌≤◌, ◌<◌, max, ◌≡◌, refl, ap, Bool, true, ◌&&◌, arith,
  ◌==◌, ==_iff,
}

-- Every number below `n` passes.
holds_below : (ℕ → Bool) → ℕ → Bool
holds_below test zero = true
holds_below test (suc n) = holds_below test n && test n

holds_below_at : (test : ℕ → Bool) (n i : ℕ) → i < n → holds_below test n ≡ true → test i ≡ true
unfolding holds_below
holds_below_at test zero i h e = absurd (omega arith)
holds_below_at test (suc n) i h e = ground (arith, holds_below_at test n i)

-- The seven bits of a group, and the bit that says that more groups follow.
pub group_of : (b : ℕ) → b < 256 → bit_and b 0x7f ≡ b % 128
unfolding holds_below
group_of b h = (==_iff _ _).0 (holds_below_at (λ i. bit_and i 0x7f == i % 128) 256 b h refl)

pub more_of : (b : ℕ) → b < 256 → bit_and b 0x80 ≡ b / 128 * 128
unfolding holds_below
more_of b h = (==_iff _ _).0 (holds_below_at (λ i. bit_and i 0x80 == i / 128 * 128) 256 b h refl)

-- The operation counts digits to go; any count that is enough gives the same.
or_digits : ℕ → ℕ → ℕ → ℕ
or_digits = digits (λ b. b) max

or_digits-zero : (n b : ℕ) → or_digits n 0 b ≡ b
unfolding or_digits
or_digits-zero zero b = refl
or_digits-zero (suc n) b = refl

or_enough : (n k a b : ℕ) → a ≤ n → a ≤ k → or_digits n a b ≡ or_digits k a b
unfolding or_digits
or_enough n k zero b p q = omega (arith, or_digits-zero n b, or_digits-zero k b)
or_enough zero k (suc a) b p q = absurd (omega arith)
or_enough (suc n) zero (suc a) b p q = absurd (omega arith)
or_enough (suc n) (suc k) (suc a) b p q =
    omega (arith, or_enough n k (suc a / 2) (b / 2) (omega arith) (omega arith))

bit_or_zero : (b : ℕ) → bit_or 0 b ≡ b
bit_or_zero b = bit_or-bitwise 0 b

-- The lowest digit and the others.
bit_or_halves : (a b : ℕ) → bit_or a b ≡ bit_or (a / 2) (b / 2) * 2 + max (a % 2) (b % 2)
unfolding or_digits
bit_or_halves zero b = omega (arith, bit_or_zero b, bit_or_zero (b / 2))
bit_or_halves (suc a) b = omega (
  arith,
  bit_or-bitwise (suc a) b,
  bit_or-bitwise (suc a / 2) (b / 2),
  or_enough a (suc a / 2) (suc a / 2) (b / 2) (omega arith) (omega arith),
)

two_power : (s : ℕ) → 2 ^ suc s ≡ 2 ^ s * 2
two_power s = omega arith

-- A number below 2 ^ s, and a multiple of 2 ^ s, are joined by their sum.
pub bit_or_disjoint : (s r g : ℕ) → r < 2 ^ s → bit_or r (g * 2 ^ s) ≡ r + g * 2 ^ s
bit_or_disjoint zero r g h =
    let e : r ≡ 0 = omega arith in rw e (omega (arith, bit_or_zero (g * 1)))
bit_or_disjoint (suc s) r g h =
    let double : g * 2 ^ suc s ≡ g * 2 ^ s * 2 =
      omega (arith, ap (λ (t : ℕ). g * t) (two_power s)) in
    let half : g * 2 ^ suc s / 2 ≡ g * 2 ^ s = omega (arith, double) in
    omega (
      arith,
      double,
      two_power s,
      bit_or_halves r (g * 2 ^ suc s),
      ap (λ (t : ℕ). bit_or (r / 2) t) half,
      bit_or_disjoint s (r / 2) g (omega (arith, two_power s)),
    )
