-- ===== src/Base/Text.antt =====
-- Text, and the decimal form in which `Display` writes integers.
use Prim.Native.String.{String, slice}
use ave_contract_sdk.Base.{ℕ, zero, suc, ◌+◌, ◌/◌, ◌%◌, ◌≡◌, refl, ltb, if◌then◌else◌}
use ave_contract_sdk.Base.Machine.{ℤ, pos, negsuc}
pub use Prim.Native.String.{String, ◌++◌ as ◌<>◌}
pub use text.Mathlib.Text.{◌==◌ as ◌=s=◌}

digit : ℕ → String
digit d = slice "0123456789" d (d + 1)

-- The digits of `n` in front of `tail`. The fuel is at least the number of digits.
decimal_loop : ℕ → ℕ → String → String
unfolding digit
decimal_loop zero n tail = tail
decimal_loop (suc fuel) n tail =
    let more = decimal_loop fuel (n / 10) (digit (n % 10) <> tail) in
    if ltb n 10 then digit n <> tail else more

unfoldable pub decimal : ℕ → String
unfolding decimal_loop
decimal n = decimal_loop (suc n) n ""

unfoldable pub decimal_ℤ : ℤ → String
unfolding decimal
decimal_ℤ (pos n) = decimal n
decimal_ℤ (negsuc n) = "-" <> decimal (suc n)

decimal_runs : decimal 10_000_000 ≡ "10000000"
unfolding decimal
decimal_runs = refl
