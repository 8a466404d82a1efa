-- ===== src/Sdk/Traced.antt =====
-- src/lib.rs: the calls that a contract makes of its host, in the order in which it makes them, and
-- what they have to keep to.
pub mod Runs
pub mod Protocol
pub mod Erased
pub mod Safe
use ave_contract_sdk.Base.{ℕ, suc, ◌^◌, ◌≤◌, ◌<◌, ◌≡◌, false, List, [], ◌∷◌, length}
use ave_contract_sdk.Base.Machine.{ℤ, pos, as_u32, as_i32}
use ave_contract_sdk.Base.Result.{Result, ok, err}
use ave_contract_sdk.Base.Exec.{Exec}
use ave_contract_sdk.Sdk.Extern.{Extern}
use ave_contract_sdk.Sdk.Transfer.{max_data_size, is_zero}

-- A call with what it returned, or with the length of the buffer behind a pointer that it was given.
pub data Call : Type 0 where
  asked : (pointer returned : ℤ) → Call
  read : (pointer : ℤ) (buffer : ℕ) (len : ℤ) → Call
  allocated : (len : ℕ) (returned : ℤ) → Call
  wrote : (pointer : ℤ) (buffer : ℕ) (len : ℤ) → Call

-- The call, the latest first, if it returned.
abbrev noted :
    {T S A : Type 0} → (A → Call) → List Call → Result T A × S → Result T A × (List Call × S)
noted call log (ok a, s) = (ok a, (call a ∷ log, s))
noted call log (err e, s) = (err e, (log, s))

-- Any host, with a record of the calls. A call with a buffer counts also if it traps.
abbrev pub traced : Extern → Extern
traced x = record {
  Trap = x.Trap;
  State = List Call × x.State;
  read_bytes = λ p buffer len (log, s).
      let (r, s') = x.read_bytes p buffer len s in (r, (read p (length buffer) len ∷ log, s'));
  pointer_len = λ p (log, s). noted (asked p) log (x.pointer_len p s);
  alloc = λ len (log, s). noted (allocated len) log (x.alloc len s);
  write_bytes = λ p bytes len (log, s).
      let (r, s') = x.write_bytes p bytes len s in (r, (wrote p (length bytes) len ∷ log, s'));
}

-- A read is told the length of its buffer, which is the length that the host has just given for the
-- same pointer, and within MAX_DATA_SIZE. A write is told the length of its bytes, for which the host
-- has just given the memory at its pointer.
abbrev pub IsSafe : List Call → Type 0
IsSafe [] = Unit {0}
IsSafe (asked p n ∷ log) = IsSafe log
IsSafe (allocated n p ∷ log) = IsSafe log
IsSafe (read p size len ∷ asked q n ∷ log) =
    (p ≡ q) × (n ≡ pos size) × (len ≡ pos size) × (size ≤ max_data_size) × IsSafe log
IsSafe (wrote p size len ∷ allocated n q ∷ log) =
    (p ≡ as_i32 (as_u32 q))
    × (is_zero q ≡ false)
    × (n ≡ size)
    × (len ≡ pos size)
    × (size < 2 ^ 31)
    × IsSafe log
IsSafe (_ ∷ log) = ⊥

abbrev pub writes : List Call → ℕ
writes [] = 0
writes (wrote p size len ∷ log) = suc (writes log)
writes (_ ∷ log) = writes log

-- The latest call was a write at this pointer.
abbrev pub IsLast : ℕ → List Call → Type 0
IsLast ptr (wrote p size len ∷ log) = p ≡ as_i32 ptr
IsLast ptr _ = ⊥
