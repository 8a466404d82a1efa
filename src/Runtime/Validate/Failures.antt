-- ===== src/Runtime/Validate/Failures.antt =====
-- src/runtime/contract_runtime.rs: what an error of `validate` tells of the module and of the run.
use ave_contract_sdk.Base.{ℕ, ◌≡◌, refl, false, Bool-cases, ◌⊎◌, none, inl, inr, List}
use ave_contract_sdk.Base.Text.{String}
use ave_contract_sdk.Base.Result.{ok, err, map_err as map_failure, ok_or, ◌>>=◌}
use ave_contract_sdk.Sdk.Wire.{Wire, Json}
use ave_contract_sdk.Runtime.Error.{
  RuntimeError, invalid_module, serialization_error, fuel_limit_error, instantiation_failed,
  entry_point_not_found, contract_execution_failed,
}
use ave_contract_sdk.Runtime.Config.{WasmLimits, max_fuel_compilation}
use ave_contract_sdk.Runtime.Memory.{read_data}
use ave_contract_sdk.Runtime.Imports.{SetOrder, check_imports}
use ave_contract_sdk.Runtime.Imports.Blame.{Blames, check_imports-Fails}
use ave_contract_sdk.Runtime.Staging.{allocation_failed, generate_context}
use ave_contract_sdk.Runtime.Engine.{Engine, Finished, CallError, chain_text}
use ave_contract_sdk.Runtime.Failures.{
  Fails, Fails-err, map_err-ok, bind-Fails, map_err-Fails, ok_or-Fails, generate_context-Fails,
}
use ave_contract_sdk.Runtime.Validate.{check_init_result, run_init_check, validate_inner, validate}

module _ (w : Wire) {Value : Type 0} (value_json : Json Value) (engine : Engine)
    (limits : WasmLimits) (compiled : engine.Module) (s : Value) where
  -- The initial check refused the state, in a report that the host could read.
  pub record Refused (text : String) : Type 0 where
    pub finished : Finished
    pub ran : run_init_check w value_json engine limits compiled s ≡ ok finished
    pub ptr : ℕ
    pub returned : finished.call_result ≡ ok ptr
    pub bytes : List ℕ
    pub at_pointer : read_data ptr finished.manager ≡ ok bytes
    pub check : w.ContractInitCheckData
    pub decoded : w.decode_init bytes ≡ ok check
    pub success : w.init_success check ≡ false
    pub message : w.init_message check ≡ text

  pub record Trapped (text : String) : Type 0 where
    pub finished : Finished
    pub ran : run_init_check w value_json engine limits compiled s ≡ ok finished
    pub error : CallError
    pub called : finished.call_result ≡ err error
    pub message : chain_text error ≡ text

  -- What each error of a validation tells. An invalid module has an import to blame.
  abbrev pub Tells : RuntimeError → Type 0
  Tells (invalid_module kind) = Blames (engine.imports compiled) kind
  Tells (fuel_limit_error text) = engine.set_fuel max_fuel_compilation ≡ err text
  Tells (instantiation_failed text) =
      engine.instantiate compiled (generate_context value_json s limits).1 max_fuel_compilation
      ≡ err text
  Tells (entry_point_not_found function) =
      (instance : engine.Instance) × (engine.instantiate compiled
          (generate_context value_json s limits).1 max_fuel_compilation
        ≡ ok instance)
      × (((function ≡ "main_function") × (engine.main_function instance ≡ none))
          ⊎ ((function ≡ "init_check_function") × (engine.init_check_function instance ≡ none)))
  Tells (contract_execution_failed text) = Trapped text ⊎ Refused text
  Tells (serialization_error context details) = Unit {0}
  Tells (RuntimeError.memory_allocation_failed details) = Unit {0}
  Tells _ = ⊥

  entry_points-Fails :
      (instance : engine.Instance) (ptr : ℕ)
      → engine.instantiate compiled (generate_context value_json s limits).1 max_fuel_compilation
        ≡ ok instance
      → Fails Tells (
          ok_or (entry_point_not_found "main_function") (engine.main_function instance) >>= (λ main.
            ok_or
              (entry_point_not_found "init_check_function")
              (engine.init_check_function instance)
            >>= (λ entry. ok (entry ptr))))
  entry_points-Fails instance ptr made =
      bind-Fails Tells
        (ok_or (entry_point_not_found "main_function") (engine.main_function instance)) _
        (ok_or-Fails Tells (entry_point_not_found "main_function") (engine.main_function instance)
          (λ missing. (instance, made, inl (refl, missing))))
        (λ main _.
          bind-Fails Tells
            (ok_or (entry_point_not_found "init_check_function")
              (engine.init_check_function instance))
            _
            (ok_or-Fails Tells (entry_point_not_found "init_check_function")
              (engine.init_check_function instance)
              (λ missing. (instance, made, inr (refl, missing))))
            (λ entry _. tt))

  run_init_check-Fails : Fails Tells (run_init_check w value_json engine limits compiled s)
  unfolding run_init_check
  run_init_check-Fails =
      bind-Fails Tells (generate_context value_json s limits).0 _
        (generate_context-Fails Tells (λ c d. tt) (λ e. tt) value_json s limits)
        (λ ptr _.
          bind-Fails Tells (map_failure fuel_limit_error (engine.set_fuel max_fuel_compilation)) _
            (map_err-Fails Tells fuel_limit_error (engine.set_fuel max_fuel_compilation) (λ t e. e))
            (λ u _.
              bind-Fails Tells
                (map_failure instantiation_failed
                  (engine.instantiate compiled _ max_fuel_compilation))
                _
                (map_err-Fails Tells instantiation_failed
                  (engine.instantiate compiled _ max_fuel_compilation) (λ t e. e))
                (λ instance made. entry_points-Fails instance ptr (
                  map_err-ok instantiation_failed
                    (engine.instantiate compiled _ max_fuel_compilation) made))))

  check_init_result-Fails :
      (finished : Finished) (ptr : ℕ)
      → run_init_check w value_json engine limits compiled s ≡ ok finished
      → finished.call_result ≡ ok ptr
      → Fails Tells (check_init_result w finished.manager ptr)
  unfolding check_init_result
  check_init_result-Fails finished ptr ran returned =
      bind-Fails Tells (map_failure allocation_failed (read_data ptr finished.manager)) _
        (map_err-Fails Tells allocation_failed (read_data ptr finished.manager) (λ e _. tt))
        (λ bytes read.
          bind-Fails Tells
            (map_failure (serialization_error "init check result") (w.decode_init bytes)) _
            (map_err-Fails Tells (serialization_error "init check result") (w.decode_init bytes)
              (λ e _. tt))
            (λ check decoded. elim (Bool-cases (w.init_success check)) [
              | inl passed ↦ rw passed tt
              | inr failed ↦ rw failed (
                  inr (record {
                    finished = finished;
                    ran = ran;
                    ptr = ptr;
                    returned = returned;
                    bytes = bytes;
                    at_pointer = map_err-ok allocation_failed (read_data ptr finished.manager) read;
                    check = check;
                    decoded =
                        map_err-ok (serialization_error "init check result") (w.decode_init bytes)
                          decoded;
                    success = failed;
                    message = refl;
                  }))
            ]))

  validate-Fails :
      (order : SetOrder) → Fails Tells (validate w value_json engine order limits compiled s)
  unfolding validate validate_inner
  validate-Fails order =
      bind-Fails Tells (check_imports order (engine.imports compiled)) _
        (check_imports-Fails order Tells (engine.imports compiled) (λ kind h. h))
        (λ u _.
          bind-Fails Tells (run_init_check w value_json engine limits compiled s) _
            run_init_check-Fails
            (λ finished ran.
              bind-Fails Tells
                (map_failure (λ e. contract_execution_failed (chain_text e)) finished.call_result) _
                (map_err-Fails Tells (λ e. contract_execution_failed (chain_text e))
                  finished.call_result
                  (λ e called. inl (record {
                    finished = finished;
                    ran = ran;
                    error = e;
                    called = called;
                    message = refl;
                  })))
                (λ ptr returned. check_init_result-Fails finished ptr ran (
                  map_err-ok (λ e. contract_execution_failed (chain_text e)) finished.call_result
                    returned))))

  -- An error of validate tells what is wrong: an invalid module names an import that is wrong, while all
  -- those before it are functions of the SDK, each once, or the names whose addition makes the imports
  -- exactly those of the SDK; an entry point that was not found is missing on an instance that was made; a
  -- failed execution is a trap of the initial check, with its text, or its refusal of the state, with the
  -- message of a report that was read back. Otherwise the error is the engine's own, or of an encoding or
  -- of the host's memory; a validation never ends in out_of_fuel or in an error of compilation.
  pub validate-Tells :
      (order : SetOrder) (e : RuntimeError)
      → validate w value_json engine order limits compiled s ≡ err e
      → Tells e
  validate-Tells order e failed =
      Fails-err Tells (validate w value_json engine order limits compiled s) (validate-Fails order)
        failed
