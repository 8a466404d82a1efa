-- ===== src/Runtime/Execute/Stats.antt =====
-- The statistics that `execute` returns.
use ave_contract_sdk.Base.{ℕ, ◌≡◌, refl, Bool, Option, arith, inl, inr}
use ave_contract_sdk.Base.Result.{Result, ok, err, >>=-ok, Result-cases}
use ave_contract_sdk.Sdk.Wire.{Wire, Json}
use ave_contract_sdk.Runtime.Config.{WasmLimits}
use ave_contract_sdk.Runtime.Engine.{Engine, Finished, CallError}
use ave_contract_sdk.Runtime.Metrics.{Prometheus, ContractMetrics}
use ave_contract_sdk.Runtime.Execute.{
  ExecutionResult, ExecutionStats, fuel_of, bytes_of, get_execution_result, conclude, run_main,
  execute_inner, execute,
}

module _ (w : Wire) {Value : Type 0} (value_json : Json Value) where
  -- The statistics and the result are those of one finished call, which returned a pointer.
  pub record Accounts (finished : Finished) (ptr : ℕ) (r : ExecutionResult Value)
      (s : ExecutionStats) : Type 0 where
    pub returned : finished.call_result ≡ ok ptr
    pub read : get_execution_result w value_json finished.manager ptr ≡ ok r
    pub fuel : s.fuel_consumed ≡ fuel_of finished
    pub bytes : s.memory_bytes ≡ bytes_of finished

  conclude-Accounts :
      (finished : Finished) (call : Result CallError ℕ) (r : ExecutionResult Value)
      (s : ExecutionStats)
      → finished.call_result ≡ call
      → conclude w value_json finished call ≡ ok (r, s)
      → (ptr : ℕ) × Accounts finished ptr r s
  unfolding conclude
  conclude-Accounts finished (ok ptr) r s c h =
      let (found, e, rest) = >>=-ok (get_execution_result w value_json finished.manager ptr) _ h in
      (
        ptr,
        record {
          returned = c;
          read = ground (arith, e, rest);
          fuel = ground (arith, rest);
          bytes = ground (arith, rest);
        },
      )
  conclude-Accounts finished (err e) r s c h = ground (arith, h)

module _ (p : Prometheus) (w : Wire) {Value : Type 0} (value_json : Json Value) (engine : Engine)
    (limits : WasmLimits) (compiled : engine.Module) (state init_state event : Value) (owner : Bool)
    (elapsed : p.Float) (metrics : Option (ContractMetrics p)) where
  -- Where `execute` succeeds, the guest's call ended with a pointer, the result is what the host reads
  -- there, and the statistics are those of that call.
  pub execute-Accounts :
      (r : ExecutionResult Value) (s : ExecutionStats)
      → (execute p w value_json engine limits compiled state init_state event owner elapsed
          metrics).0
        ≡ ok (r, s)
      → (finished : Finished) × (ptr : ℕ) × (run_main value_json engine limits compiled state
            init_state event owner
          ≡ ok finished)
        × Accounts w value_json finished ptr r s
  unfolding execute execute_inner
  execute-Accounts r s h =
      elim (Result-cases
        (run_main value_json engine limits compiled state init_state event owner)) [
          | inl (finished, ran) ↦
              let (ptr, account) =
                conclude-Accounts w value_json finished finished.call_result r s refl
                  (rw ran at h) in
              (finished, ptr, ran, account)
          | inr (e, ran) ↦ ground (arith, ran, h)
        ]
