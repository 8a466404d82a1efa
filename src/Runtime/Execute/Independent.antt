-- ===== src/Runtime/Execute/Independent.antt =====
-- The result of an event does not depend on the metrics.
use ave_contract_sdk.Base.{◌≡◌, refl, Option, none}
use ave_contract_sdk.Base.Result.{Result, ok, err}
use ave_contract_sdk.Sdk.Wire.{Wire, Json}
use ave_contract_sdk.Runtime.Error.{RuntimeError}
use ave_contract_sdk.Runtime.Config.{WasmLimits}
use ave_contract_sdk.Runtime.Engine.{Engine, Finished}
use ave_contract_sdk.Runtime.Metrics.{Prometheus, ContractMetrics}
use ave_contract_sdk.Runtime.Execute.{run_main, settle, execute_inner, execute}
use ave_contract_sdk.Runtime.Execute.Session.{Request, Outcome, execute_one}

module _ (p : Prometheus) (w : Wire) {Value : Type 0} (value_json : Json Value) (engine : Engine)
    (limits : WasmLimits) where
  settle_result :
      (ran : Result RuntimeError Finished) (metrics : Option (ContractMetrics p))
      → (settle p w value_json ran metrics).0 ≡ (settle p w value_json ran none).0
  settle_result (ok finished) metrics = refl
  settle_result (err e) metrics = refl

  -- The result of one event on a runtime of its own, without metrics.
  abbrev pub alone : Request engine.Module Value p.Float → Outcome Value
  alone q = (execute_one p w value_json engine limits q none).0

  pub execute_one-alone :
      (q : Request engine.Module Value p.Float) (metrics : Option (ContractMetrics p))
      → (execute_one p w value_json engine limits q metrics).0 ≡ alone q
  unfolding execute execute_inner
  execute_one-alone q metrics =
      settle_result
        (run_main value_json engine limits q.compiled q.state q.init_state q.event q.is_owner)
        metrics
