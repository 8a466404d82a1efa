-- ===== src/Runtime/Validate/Executable.antt =====
-- src/runtime/contract_runtime.rs: what `validate` promises to `execute`.
use ave_contract_sdk.Base.{ℕ, ◌≡◌, sym, ◌∙◌, Bool, Option, none, some}
use ave_contract_sdk.Base.Text.{String}
use ave_contract_sdk.Base.Result.{ok, err}
use ave_contract_sdk.Sdk.Wire.{Wire, Json}
use ave_contract_sdk.Runtime.Error.{entry_point_not_found}
use ave_contract_sdk.Runtime.Config.{WasmLimits}
use ave_contract_sdk.Runtime.Memory.{MemoryManager}
use ave_contract_sdk.Runtime.Imports.{SetOrder}
use ave_contract_sdk.Runtime.Engine.{Engine, Finished}
use ave_contract_sdk.Runtime.Metrics.{Prometheus, ContractMetrics}
use ave_contract_sdk.Runtime.Execute.{execute}
use ave_contract_sdk.Runtime.Execute.Failures.{execute-Tells}
use ave_contract_sdk.Runtime.Validate.{validate}
use ave_contract_sdk.Runtime.Validate.Accepted.{validate-Accepted}

-- WebAssembly's exports are a module's: an instance has those that any other instance has.
pub record HasStaticExports (engine : Engine) : Type 0 where
  pub static :
      (compiled : engine.Module) (m m' : MemoryManager) (fuel fuel' : ℕ) (i i' : engine.Instance)
      → engine.instantiate compiled m fuel ≡ ok i
      → engine.instantiate compiled m' fuel' ≡ ok i'
      → engine.main_function i ≡ none
      → engine.main_function i' ≡ none

-- A module that one runtime has validated, on any state and under any limits, is never refused by
-- execute for want of an entry point, on any arguments, under any limits and with any metrics.
pub execute-validated :
    (engine : Engine) (w : Wire) {Value : Type 0} (value_json : Json Value) (p : Prometheus)
    (limits limits' : WasmLimits) (compiled : engine.Module) (s state init_state event : Value)
    (order : SetOrder) (is_owner : Bool) (elapsed : p.Float) (metrics : Option (ContractMetrics p))
    (function : String)
    → HasStaticExports engine
    → validate w value_json engine order limits compiled s ≡ ok tt
    → ¬ (
        (execute p w value_json engine limits' compiled state init_state event is_owner elapsed
          metrics).0
        ≡ err (entry_point_not_found function))
execute-validated engine w value_json p limits limits' compiled s state init_state event order
      is_owner elapsed metrics function exports validated failed =
    let ran = (validate-Accepted w value_json engine limits compiled s order validated).ran in
    let (_main, instance, made, missing) =
      execute-Tells w value_json engine limits' compiled state init_state event is_owner p elapsed
        metrics (entry_point_not_found function) failed in
    let gone : engine.main_function ran.instance ≡ none =
      exports.static compiled _ _ _ _ instance ran.instance made ran.instantiated missing in
    some_ne_none (sym ran.main_found ∙ gone)
  where
    some_ne_none : {f : ℕ → ℕ → ℕ → ℕ → Finished} → some f ≡ none → ⊥
    some_ne_none h = cc
