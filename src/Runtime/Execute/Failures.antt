-- ===== src/Runtime/Execute/Failures.antt =====
-- src/runtime/contract_runtime.rs: what an error of `execute` tells of the run.
use ave_contract_sdk.Base.{ℕ, ◌≡◌, refl, Bool, Option, none, inl, inr}
use ave_contract_sdk.Base.Text.{String}
use ave_contract_sdk.Base.Result.{Result, ok, err, map_err as map_failure, ok_or, Result-cases}
use ave_contract_sdk.Sdk.Wire.{Wire, Json}
use ave_contract_sdk.Runtime.Error.{
  RuntimeError, serialization_error, fuel_limit_error, instantiation_failed, entry_point_not_found,
  out_of_fuel, contract_execution_failed,
}
use ave_contract_sdk.Runtime.Config.{WasmLimits, max_fuel}
use ave_contract_sdk.Runtime.Memory.{read_data}
use ave_contract_sdk.Runtime.Staging.{allocation_failed, generate_execution_context}
use ave_contract_sdk.Runtime.Engine.{Engine, Finished, CallError, out_of_fuel_trap, other_error}
use ave_contract_sdk.Runtime.Metrics.{Prometheus, ContractMetrics}
use ave_contract_sdk.Runtime.Failures.{
  Fails, Fails-err, map_err-ok, bind-Fails, map_err-Fails, ok_or-Fails,
  generate_execution_context-Fails,
}
use ave_contract_sdk.Runtime.Execute.{
  run_main, conclude, get_execution_result, execute_inner, execute, fuel_of,
}

module _ (w : Wire) {Value : Type 0} (value_json : Json Value) (engine : Engine)
    (limits : WasmLimits) (compiled : engine.Module) (state init_state event : Value)
    (is_owner : Bool) where
  -- What each error of an execution tells: which call of the engine failed, and how. The errors of
  -- encodings and of the host's memory tell of no call of the engine, and the others do not occur.
  abbrev pub Tells : RuntimeError → Type 0
  Tells (fuel_limit_error text) = engine.set_fuel max_fuel ≡ err text
  Tells (instantiation_failed text) =
      engine.instantiate compiled
        (generate_execution_context value_json state init_state event limits).1 max_fuel
      ≡ err text
  Tells (entry_point_not_found function) =
      (function ≡ "main_function")
      × (instance : engine.Instance) × (engine.instantiate compiled
            (generate_execution_context value_json state init_state event limits).1 max_fuel
          ≡ ok instance)
      × (engine.main_function instance ≡ none)
  Tells (out_of_fuel consumed) =
      (finished : Finished) × (text : String) × (run_main value_json engine limits compiled state
          init_state event is_owner
        ≡ ok finished)
      × (finished.call_result ≡ err (out_of_fuel_trap text))
      × (consumed ≡ fuel_of finished)
  Tells (contract_execution_failed text) =
      (finished : Finished) × (run_main value_json engine limits compiled state init_state event
          is_owner
        ≡ ok finished)
      × (finished.call_result ≡ err (other_error text))
  Tells (serialization_error context details) = Unit {0}
  Tells (RuntimeError.memory_allocation_failed details) = Unit {0}
  Tells _ = ⊥

  run_main-Fails :
      Fails Tells (run_main value_json engine limits compiled state init_state event is_owner)
  unfolding run_main
  run_main-Fails =
      bind-Fails Tells (generate_execution_context value_json state init_state event limits).0 _
        (generate_execution_context-Fails Tells (λ c d. tt) (λ e. tt) value_json state init_state
          event limits)
        (λ ptrs _.
          bind-Fails Tells (map_failure fuel_limit_error (engine.set_fuel max_fuel)) _
            (map_err-Fails Tells fuel_limit_error (engine.set_fuel max_fuel) (λ t e. e))
            (λ u _.
              bind-Fails Tells
                (map_failure instantiation_failed (engine.instantiate compiled _ max_fuel)) _
                (map_err-Fails Tells instantiation_failed (engine.instantiate compiled _ max_fuel)
                  (λ t e. e))
                (λ instance made.
                  bind-Fails Tells
                    (ok_or (entry_point_not_found "main_function") (engine.main_function instance))
                    _
                    (ok_or-Fails Tells (entry_point_not_found "main_function")
                      (engine.main_function instance)
                      (λ missing. (
                        refl,
                        instance,
                        map_err-ok instantiation_failed (engine.instantiate compiled _ max_fuel)
                            made,
                        missing,
                      )))
                    (λ entry _. tt))))

  get_execution_result-Fails :
      (finished : Finished) (ptr : ℕ)
      → Fails Tells (get_execution_result w value_json finished.manager ptr)
  unfolding get_execution_result
  get_execution_result-Fails finished ptr =
      bind-Fails Tells (map_failure allocation_failed (read_data ptr finished.manager)) _
        (map_err-Fails Tells allocation_failed (read_data ptr finished.manager) (λ e _. tt))
        (λ memory _.
          bind-Fails Tells
            (map_failure (serialization_error "execution result") (w.decode_result memory)) _
            (map_err-Fails Tells (serialization_error "execution result") (w.decode_result memory)
              (λ e _. tt))
            (λ result _.
              bind-Fails Tells
                (map_failure (serialization_error "final state json")
                  (value_json.from_slice result.final_state))
                _
                (map_err-Fails Tells (serialization_error "final state json")
                  (value_json.from_slice result.final_state) (λ e _. tt))
                (λ left _. tt)))

  conclude-Fails :
      (finished : Finished) (called : Result CallError ℕ)
      → finished.call_result ≡ called
      → run_main value_json engine limits compiled state init_state event is_owner ≡ ok finished
      → Fails Tells (conclude w value_json finished called)
  unfolding conclude
  conclude-Fails finished (ok ptr) same ran =
      bind-Fails Tells (get_execution_result w value_json finished.manager ptr) _
        (get_execution_result-Fails finished ptr) (λ r _. tt)
  conclude-Fails finished (err (out_of_fuel_trap text)) same ran = (finished, text, ran, same, refl)
  conclude-Fails finished (err (other_error text)) same ran = (finished, ran, same)

  module _ (p : Prometheus) where
    execute-Fails :
        (elapsed : p.Float) (metrics : Option (ContractMetrics p))
        → Fails Tells
            (execute p w value_json engine limits compiled state init_state event is_owner elapsed
              metrics).0
    unfolding execute execute_inner
    execute-Fails elapsed metrics =
        elim (Result-cases
          (run_main value_json engine limits compiled state init_state event is_owner)) [
            | inl (finished, ran) ↦ rw ran (conclude-Fails finished finished.call_result refl ran)
            | inr (e, ran) ↦ rw ran (rw ran at run_main-Fails)
          ]

    -- An error of execute tells what happened: it ran out of fuel only if the engine's call ended in that
    -- trap, and it says how much of MAX_FUEL was gone; it failed as a contract only if the call ended in
    -- another error, with that error's text; the entry point that was not found is main_function, on an
    -- instance that was made; the texts of a fuel limit and of an instantiation are the engine's. Otherwise
    -- it is an error of an encoding or of the host's memory: no error of compilation or of validation
    -- occurs.
    pub execute-Tells :
        (elapsed : p.Float) (metrics : Option (ContractMetrics p)) (e : RuntimeError)
        → (execute p w value_json engine limits compiled state init_state event is_owner elapsed
            metrics).0
          ≡ err e
        → Tells e
    execute-Tells elapsed metrics e failed =
        Fails-err Tells
          (execute p w value_json engine limits compiled state init_state event is_owner elapsed
            metrics).0
          (execute-Fails elapsed metrics) failed
