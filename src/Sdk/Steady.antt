-- ===== src/Sdk/Steady.antt =====
-- src/lib.rs: what the entry points keep of a host, and how they can trap, follows from what their
-- reads and their stores do.
pub mod Entry
use ave_contract_sdk.Base.{ℕ, ◌<◌, ◌≡◌, Bool, true, false, not, List, length, inl, inr}
use ave_contract_sdk.Base.Machine.{ℤ}
use ave_contract_sdk.Base.Text.{String, ◌<>◌}
use ave_contract_sdk.Base.Result.{Result, ok, err, map_err as map_failure, Result-cases}
use ave_contract_sdk.Base.Exec.{Exec, ◌>>=◌, continue, pure, fail_if}
use ave_contract_sdk.Sdk.Error.{Error, error_text}
use ave_contract_sdk.Sdk.Context.{Context, ContractResult, ContractInitCheck, new, init_default}
use ave_contract_sdk.Sdk.Wire.{Wire, Json}
use ave_contract_sdk.Sdk.Extern.{Extern, Stop, trap, error, try, relabel, map_err, recover}
use ave_contract_sdk.Sdk.Transfer.{get_from_context, store, read_and_parse, deserialize}
use ave_contract_sdk.Sdk.Contract.{
  is_owner_flag, result_data, err_final_state_ser, err_init_rejected, read_state,
  try_execute_contract, execute_contract, try_check_init_data, check_init_data, store_or_zero,
}

-- A trap is one of those that are allowed.
abbrev pub Traps : {T A : Type 0} → (T → Type 0) → Result T A → Type 0
Traps P (ok a) = Unit {0}
Traps P (err t) = P t

abbrev pub Stops : {T E A : Type 0} → (T → Type 0) → Result (Stop T E) A → Type 0
Stops P (err (trap t)) = P t
Stops P _ = Unit {0}

module _ {T S : Type 0} (P : T → Type 0) (Inv : S → Type 0) where
  -- A run from a state that is as it should be leaves one, and traps as allowed.
  abbrev pub Steady : {E A : Type 0} → Exec (Stop T E) S A → Type 0
  Steady m = (s : S) → Inv s → Inv (m s).1 × Stops P (m s).0

  abbrev pub Ends : {A : Type 0} → Exec T S A → Type 0
  Ends m = (s : S) → Inv s → Inv (m s).1 × Traps P (m s).0

  module _ {E : Type 0} where
    continue-Steady :
        {A B : Type 0} (r : Result (Stop T E) A) (f : A → Exec (Stop T E) S B) (s : S)
        → Inv s
        → Stops P r
        → ((a : A) → Steady (f a))
        → Inv (continue r f s).1 × Stops P (continue r f s).0
    continue-Steady (ok a) f s i h g = g a s i
    continue-Steady (err (trap t)) f s i h g = (i, h)
    continue-Steady (err (error e)) f s i h g = (i, tt)

    pub bind-Steady :
        {A B : Type 0} (m : Exec (Stop T E) S A) (f : A → Exec (Stop T E) S B)
        → Steady m
        → ((a : A) → Steady (f a))
        → Steady (m >>= f)
    bind-Steady m f h g s i =
        let (i', stops) = h s i in continue-Steady (m s).0 f (m s).1 i' stops g

    pub try-Steady : {A : Type 0} (r : Result E A) → Steady {E = E} (try r)
    try-Steady (ok a) s i = (i, tt)
    try-Steady (err e) s i = (i, tt)

    pub fail_if-Steady : (b : Bool) (e : E) → Steady {E = E} (fail_if b (error e))
    fail_if-Steady true e s i = (i, tt)
    fail_if-Steady false e s i = (i, tt)

  module _ {E F A : Type 0} where
    relabel-Stops : (f : E → F) (r : Result (Stop T E) A) → Stops P r → Stops P (relabel f r)
    relabel-Stops f (ok a) h = tt
    relabel-Stops f (err (trap t)) h = h
    relabel-Stops f (err (error e)) h = tt

    pub map_err-Steady :
        (f : E → F) (m : Exec (Stop T E) S A) → Steady {E = E} m → Steady {E = F} (map_err f m)
    map_err-Steady f m h s i = let (i', stops) = h s i in (i', relabel-Stops f (m s).0 stops)

    pub recover-Steady :
        (f : E → Exec (Stop T F) S A) (r : Result (Stop T E) A) (s : S)
        → Inv s
        → Stops P r
        → ((e : E) → Steady {E = F} (f e))
        → Inv (recover f trap r s).1 × Stops P (recover f trap r s).0
    recover-Steady f (ok a) s i h g = (i, tt)
    recover-Steady f (err (trap t)) s i h g = (i, h)
    recover-Steady f (err (error e)) s i h g = g e s i

  module _ {E A : Type 0} where
    pub recover-Ends :
        (f : E → Exec T S A) (r : Result (Stop T E) A) (s : S)
        → Inv s
        → Stops P r
        → ((e : E) → Ends (f e))
        → Inv (recover f (λ (t : T). t) r s).1 × Traps P (recover f (λ (t : T). t) r s).0
    recover-Ends f (ok a) s i h g = (i, tt)
    recover-Ends f (err (trap t)) s i h g = (i, h)
    recover-Ends f (err (error e)) s i h g = g e s i

-- The encoding, if there is one, has a byte at least.
abbrev pub IsSome : Result String (List ℕ) → Type 0
IsSome (ok bytes) = 0 < length bytes
IsSome (err e) = Unit {0}

pub IsSome-intro :
    (r : Result String (List ℕ)) → ((bytes : List ℕ) → r ≡ ok bytes → 0 < length bytes) → IsSome r
IsSome-intro (ok bytes) h = h bytes (λ i. ok bytes)
IsSome-intro (err e) h = tt
