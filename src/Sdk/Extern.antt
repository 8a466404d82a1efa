-- ===== src/Sdk/Extern.antt =====
-- src/externf.rs: the functions that the host gives to a contract. A call may trap, which ends the
-- contract's run at once. `read_bytes` is given the buffer at `dst_ptr` and returns the buffer after
-- the call; `write_bytes` is given the bytes at `src_ptr`.
use ave_contract_sdk.Base.{ℕ, List}
use ave_contract_sdk.Base.Machine.{ℤ}
use ave_contract_sdk.Base.Result.{Result, ok, err}
use ave_contract_sdk.Base.Exec.{Exec}

pub record Extern : Type 1 where
  pub Trap : Type 0
  pub State : Type 0
  pub read_bytes : ℤ → List ℕ → ℤ → Exec Trap State (List ℕ)
  pub pointer_len : ℤ → Exec Trap State ℤ
  pub alloc : ℕ → Exec Trap State ℤ
  pub write_bytes : ℤ → List ℕ → ℤ → Exec Trap State (Unit {0})

-- How a function of the SDK stops early: by a trap of the host, or by an error that it returns.
pub data Stop (T E : Type 0) : Type 0 where
  trap : T → Stop T E
  error : E → Stop T E

module _ {T E A : Type 0} where
  abbrev pub trapping : Result T A → Result (Stop T E) A
  trapping (ok a) = ok a
  trapping (err t) = err (trap t)

  abbrev pub failing : Result E A → Result (Stop T E) A
  failing (ok a) = ok a
  failing (err e) = err (error e)

module _ {T E S A : Type 0} where
  -- A call of the host.
  abbrev pub call : Exec T S A → Exec (Stop T E) S A
  call m s = (trapping (m s).0, (m s).1)

  -- `result?`
  abbrev pub try : Result E A → Exec (Stop T E) S A
  try r s = (failing r, s)

module _ {T E F A : Type 0} where
  abbrev pub relabel : (E → F) → Result (Stop T E) A → Result (Stop T F) A
  relabel f (ok a) = ok a
  relabel f (err (trap t)) = err (trap t)
  relabel f (err (error e)) = err (error (f e))

-- `call.map_err(f)`: a trap is no error value, and passes.
abbrev pub map_err : {T E F S A : Type 0} → (E → F) → Exec (Stop T E) S A → Exec (Stop T F) S A
map_err f m s = (relabel f (m s).0, (m s).1)

-- `match m { Ok(a) => a, Err(e) => handler(e) }`
abbrev pub recover :
    {T E F S A : Type 0} → (E → Exec F S A) → (T → F) → Result (Stop T E) A → Exec F S A
recover handler stop (ok a) s = (ok a, s)
recover handler stop (err (trap t)) s = (err (stop t), s)
recover handler stop (err (error e)) s = handler e s
