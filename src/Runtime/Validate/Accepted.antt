-- ===== src/Runtime/Validate/Accepted.antt =====
-- What `validate` has established of a module that it accepts.
use mathlib.Core.List.{Perm}
use ave_contract_sdk.Base.{ℕ, ◌≡◌, true, Option, none, some, List, arith, Bool-cases, inl, inr}
use ave_contract_sdk.Base.Result.{ok, ok_or, map_err as map_failure, >>=-ok, Result-cases}
use ave_contract_sdk.Sdk.Wire.{Wire, Json}
use ave_contract_sdk.Runtime.Config.{WasmLimits, max_fuel_compilation}
use ave_contract_sdk.Runtime.Memory.{MemoryManager, read_data}
use ave_contract_sdk.Runtime.Staging.{generate_context}
use ave_contract_sdk.Runtime.Imports.{SetOrder, check_imports}
use ave_contract_sdk.Runtime.Imports.Exact.{sdk_imports, check_imports_iff}
use ave_contract_sdk.Runtime.Failures.{map_err-ok}
use ave_contract_sdk.Runtime.Engine.{Engine, Finished}
use ave_contract_sdk.Runtime.Validate.{check_init_result, run_init_check, validate_inner, validate}

module _ {E A : Type 0} where
  ok_or-eq-ok : (e : E) (o : Option A) {a : A} → ok_or e o ≡ ok a → o ≡ some a
  ok_or-eq-ok e none h = ground (arith, h)
  ok_or-eq-ok e (some a) h = ground (arith, h)

module _ (w : Wire) where
  -- The pointer addresses a block that is the encoding of a passed check.
  pub record Passed (manager : MemoryManager) (ptr : ℕ) : Type 0 where
    pub payload : List ℕ
    pub check : w.ContractInitCheckData
    pub at_pointer : read_data ptr manager ≡ ok payload
    pub decoded : w.decode_init payload ≡ ok check
    pub success : w.init_success check ≡ true

  pub check_init_result-Passed :
      (manager : MemoryManager) (ptr : ℕ)
      → check_init_result w manager ptr ≡ ok tt
      → Passed manager ptr
  unfolding check_init_result
  check_init_result-Passed manager ptr h = elim (Result-cases (read_data ptr manager)) [
    | inl (payload, r) ↦ elim (Result-cases (w.decode_init payload)) [
      | inl (check, d) ↦ elim (Bool-cases (w.init_success check)) [
        | inl s ↦ record {
          payload = payload;
          check = check;
          at_pointer = r;
          decoded = d;
          success = s;
        }
        | inr s ↦ ground (arith, r, d, s, h)
      ]
      | inr (e, d) ↦ ground (arith, r, d, h)
    ]
    | inr (e, r) ↦ ground (arith, r, h)
  ]

  module _ {Value : Type 0} (value_json : Json Value) (engine : Engine) (limits : WasmLimits)
      (compiled : engine.Module) (s : Value) where
    -- The module's initial check was run on the staged state, and ended like this.
    pub record Ran (finished : Finished) : Type 0 where
      pub instance : engine.Instance
      pub main : ℕ → ℕ → ℕ → ℕ → Finished
      pub init_check : ℕ → Finished
      pub state_ptr : ℕ
      pub staged : (generate_context value_json s limits).0 ≡ ok state_ptr
      pub instantiated :
          engine.instantiate compiled (generate_context value_json s limits).1 max_fuel_compilation
          ≡ ok instance
      pub main_found : engine.main_function instance ≡ some main
      pub init_found : engine.init_check_function instance ≡ some init_check
      pub is_finished : init_check state_ptr ≡ finished

    pub record Accepted : Type 0 where
      pub exact : Perm (engine.imports compiled) sdk_imports
      pub finished : Finished
      pub ran : Ran finished
      pub result_ptr : ℕ
      pub returned : finished.call_result ≡ ok result_ptr
      pub passed : Passed finished.manager result_ptr

    pub run_init_check-Ran :
        (finished : Finished)
        → run_init_check w value_json engine limits compiled s ≡ ok finished
        → Ran finished
    unfolding run_init_check
    run_init_check-Ran finished h =
        let (state_ptr, staged, h₁) = >>=-ok (generate_context value_json s limits).0 _ h in
        let (_u, _fuelled, h₂) =
          >>=-ok (map_failure _ (engine.set_fuel max_fuel_compilation)) _ h₁ in
        let (instance, i, h₃) =
          >>=-ok
            (map_failure _ (
              engine.instantiate compiled (generate_context value_json s limits).1
                max_fuel_compilation))
            _ h₂ in
        let (main, m, h₄) = >>=-ok (ok_or _ (engine.main_function instance)) _ h₃ in
        let (init_check, c, h₅) = >>=-ok (ok_or _ (engine.init_check_function instance)) _ h₄ in
        record {
          instance = instance;
          main = main;
          init_check = init_check;
          state_ptr = state_ptr;
          staged = staged;
          instantiated = map_err-ok _ _ i;
          main_found = ok_or-eq-ok _ _ m;
          init_found = ok_or-eq-ok _ _ c;
          is_finished = cc;
        }

    -- A module passes validation only if its imports are, in some order, exactly the functions of the
    -- SDK with their types, it exports both entry points, and its own check of the initial state ran
    -- to its end and left the host the encoding of a passed check.
    pub validate-Accepted :
        (order : SetOrder) → validate w value_json engine order limits compiled s ≡ ok tt → Accepted
    unfolding validate validate_inner
    validate-Accepted order h =
        let (_u, imports_ok, h₁) = >>=-ok (check_imports order (engine.imports compiled)) _ h in
        let (finished, ran, h₂) =
          >>=-ok (run_init_check w value_json engine limits compiled s) _ h₁ in
        let (ptr, r, h₃) = >>=-ok (map_failure _ finished.call_result) _ h₂ in
        record {
          exact = (check_imports_iff order (engine.imports compiled)).0 imports_ok;
          finished = finished;
          ran = run_init_check-Ran finished ran;
          result_ptr = ptr;
          returned = map_err-ok _ _ r;
          passed = check_init_result-Passed finished.manager ptr h₃;
        }
