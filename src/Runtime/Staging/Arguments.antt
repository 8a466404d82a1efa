-- ===== src/Runtime/Staging/Arguments.antt =====
-- The three arguments of an event, staged one behind the other in a fresh manager.
use ave_contract_sdk.Base.{ℕ, ◌+◌, ◌≤◌, ◌≡◌, refl, some, List, arith, length, if◌then◌else◌, ◌==◌}
use ave_contract_sdk.Base.Result.{Result, ok}
use ave_contract_sdk.Sdk.Wire.{Json, frame}
use ave_contract_sdk.Runtime.Error.{RuntimeError}
use ave_contract_sdk.Runtime.Config.{WasmLimits}
use ave_contract_sdk.Runtime.Memory.{MemoryManager, from_limits}
use ave_contract_sdk.Runtime.Memory.Inv.{IsValid, Fits}
use ave_contract_sdk.Runtime.Memory.Blocks.{block}
use ave_contract_sdk.Runtime.Staging.{generate_execution_context}
use ave_contract_sdk.Runtime.Staging.Laws.{
  staged, staged-IsValid, write_contract_data_fits, block-staged, length-staged, limits-staged,
}

-- The payloads are within the limits of `m`, when they are staged in this order.
pub record AllFit (a b c : List ℕ) (m : MemoryManager) : Type 0 where
  pub first : 4 + length a ≤ m.max_single_alloc
  pub second : 4 + length b ≤ m.max_single_alloc
  pub third : 4 + length c ≤ m.max_single_alloc
  pub total : 12 + length a + length b + length c ≤ m.max_total_memory

abbrev pub arguments : List ℕ → List ℕ → List ℕ → MemoryManager → MemoryManager
arguments a b c m = staged c (staged b (staged a m))

module _ (a b c : List ℕ) (m : MemoryManager) (v : IsValid m) (empty : length m.memory ≡ 0)
    (fit : AllFit a b c m) where
  Fits-first : Fits (4 + length a) m
  Fits-first = omega (arith, fit.first, fit.total)

  IsValid-first : IsValid (staged a m)
  IsValid-first = staged-IsValid a m v Fits-first

  Fits-second : Fits (4 + length b) (staged a m)
  Fits-second = omega (arith, fit.second, fit.total, length-staged a m, limits-staged a m)

  IsValid-second : IsValid (staged b (staged a m))
  IsValid-second = staged-IsValid b (staged a m) IsValid-first Fits-second

  Fits-third : Fits (4 + length c) (staged b (staged a m))
  Fits-third = omega (
    arith,
    fit.third,
    fit.total,
    length-staged a m,
    limits-staged a m,
    length-staged b (staged a m),
    limits-staged b (staged a m),
  )

  pub arguments-IsValid : IsValid (arguments a b c m)
  arguments-IsValid = staged-IsValid c (staged b (staged a m)) IsValid-second Fits-third

  pub length-arguments : length (arguments a b c m).memory ≡ 12 + length a + length b + length c
  length-arguments = omega (
    arith,
    length-staged a m,
    length-staged b (staged a m),
    length-staged c (staged b (staged a m)),
  )

  -- What each pointer addresses.
  pub block-arguments_at :
      (q : ℕ)
      → block (arguments a b c m) q ≡ (
          if q == 8 + length a + length b
          then some (frame c)
          else if q == 4 + length a
          then some (frame b)
          else if q == 0
          then some (frame a)
          else block m q)
  block-arguments_at q = ground (
    arith,
    empty,
    length-staged a m,
    length-staged b (staged a m),
    block-staged a m v Fits-first q,
    block-staged b (staged a m) IsValid-first Fits-second q,
    block-staged c (staged b (staged a m)) IsValid-second Fits-third q,
  )

  -- After three payloads that fit were staged in a valid manager with no memory in use, the three
  -- pointers address their frames: the length prefix and the payload.
  pub block-arguments :
      (block (arguments a b c m) 0 ≡ some (frame a))
      × (block (arguments a b c m) (4 + length a) ≡ some (frame b))
      × (block (arguments a b c m) (8 + length a + length b) ≡ some (frame c))
  block-arguments = (
    ground (arith, block-arguments_at 0),
    ground (arith, block-arguments_at (4 + length a)),
    ground (arith, block-arguments_at (8 + length a + length b)),
  )

same_pointers :
    {p q r p' q' r' : ℕ} (m : MemoryManager)
    → p ≡ p'
    → q ≡ q'
    → r ≡ r'
    → ◌≡◌ {A = Result RuntimeError (ℕ × ℕ × ℕ) × MemoryManager}
        (ok (p, q, r), m)
        (ok (p', q', r'), m)
same_pointers m e f g = λ i. (ok (e i, f i, g i), m)

-- Where the three values of an event have JSON texts that fit the limits, they are staged in this
-- order, one behind the other: the state at 0, the initial state behind its length prefix and
-- bytes, and the event behind those.
pub generate_execution_context_fits :
    {Value : Type 0} (value_json : Json Value) (state init_state event : Value) (a b c : List ℕ)
    (limits : WasmLimits)
    → value_json.to_vec state ≡ ok a
    → value_json.to_vec init_state ≡ ok b
    → value_json.to_vec event ≡ ok c
    → IsValid (from_limits limits)
    → AllFit a b c (from_limits limits)
    → generate_execution_context value_json state init_state event limits
      ≡ (ok (0, 4 + length a, 8 + length a + length b), arguments a b c (from_limits limits))
unfolding generate_execution_context
generate_execution_context_fits value_json state init_state event a b c limits ea eb ec v fit =
    rw
      (
        ea,
        write_contract_data_fits a m v (Fits-first a b c m v empty fit),
        eb,
        write_contract_data_fits b (staged a m) (IsValid-first a b c m v empty fit)
            (Fits-second a b c m v empty fit),
        ec,
        write_contract_data_fits c (staged b (staged a m)) (IsValid-second a b c m v empty fit)
            (Fits-third a b c m v empty fit),
      )
      (same_pointers (arguments a b c m) empty (omega (arith, length-staged a m, empty))
        (omega (arith, length-staged a m, length-staged b (staged a m), empty)))
  where
    m : MemoryManager
    m = from_limits limits

    empty : length m.memory ≡ 0
    empty = unfold from_limits in refl
