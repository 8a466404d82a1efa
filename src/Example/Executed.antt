-- ===== src/Example/Executed.antt =====
-- example/src/lib.rs, executed by the runtime of src/runtime/contract_runtime.rs.
use ave_contract_sdk.Base.{ℕ, ◌+◌, ◌≡◌, refl, ◌∙◌, Bool, Option, List, length}
use ave_contract_sdk.Base.Result.{ok, map_ok}
use ave_contract_sdk.Sdk.Wire.{Wire, Json}
use ave_contract_sdk.Runtime.Config.{ResolvedMachineSpec, limits_of_spec}
use ave_contract_sdk.Runtime.Memory.Inv.{Fits}
use ave_contract_sdk.Runtime.Linker.{LinearMemory}
use ave_contract_sdk.Runtime.Linker.Guest.{GuestHeap}
use ave_contract_sdk.Runtime.Staging.Arguments.{AllFit}
use ave_contract_sdk.Runtime.Engine.{Engine}
use ave_contract_sdk.Runtime.Metrics.{Prometheus, ContractMetrics}
use ave_contract_sdk.Runtime.Execute.{execute}
use ave_contract_sdk.Bridge.Event.{RunsContract, fresh, context, flag, execute_reports}
use ave_contract_sdk.Example.Counters.{State, StateEvent, requested, contract_logic}
use ave_contract_sdk.Example.Reports.{counted, is_allowed, refusal, verdict_counts}

module _ (lm : LinearMemory) (heap : GuestHeap lm) (w : Wire) (state_json : Json State)
    (event_json : Json StateEvent) {Value : Type 0} (value_json : Json Value) (engine : Engine)
    (compiled : engine.Module) (before init after submitted : Value) (is_owner : Bool)
    (spec : Option ResolvedMachineSpec) (a b d bytes out : List ℕ) (p : Prometheus)
    (elapsed : p.Float) (metrics : Option (ContractMetrics p)) where
  -- Let a machine run the counters' module, with fuel and linear memory enough, to the end that the
  -- contract's source gives it, with the JSON texts and the report within its limits; let the texts of
  -- the state and of the event be ones that the contract parses, and the text of the state after be
  -- that of a value of the host. Then `execute` returns that value, as a success exactly where the
  -- event is allowed, and else, the state being as it was, with the reason of the refusal.
  pub execute_counts_event :
      (state : State) (event : StateEvent)
      → (value_json.to_vec before ≡ ok a)
        × (value_json.to_vec init ≡ ok b)
        × (value_json.to_vec submitted ≡ ok d)
      → state_json.from_slice a ≡ ok state
      → event_json.from_slice d ≡ ok event
      → state_json.to_vec (requested is_owner event state) ≡ ok bytes
      → value_json.from_slice bytes ≡ ok after
      → (fit : AllFit a b d (fresh spec)) → w.encode_result (counted is_owner event bytes) ≡ ok out
      → Fits (length out) (context a b d spec fit)
      → RunsContract lm heap w state_json event_json contract_logic engine compiled
          (context a b d spec fit)
          0
          (4 + length a)
          (8 + length a + length b)
          (flag is_owner)
      → map_ok
          (λ result. result.0)
          (execute p w value_json engine
            (limits_of_spec spec)
            compiled
            before
            init
            submitted
            is_owner
            elapsed
            metrics).0
        ≡ ok (record {
          final_state = after;
          success = is_allowed is_owner event;
          error = refusal is_owner event;
        })
  execute_counts_event state event texts parsed sent text told fit encoded room runs =
      let v =
        verdict_counts w state_json event_json a b d bytes is_owner state event parsed sent text in
      execute_reports lm heap w state_json event_json value_json contract_logic engine compiled
        before init submitted is_owner spec a b d out p elapsed metrics texts fit (rw v encoded)
        room runs
      ∙ rw (v, told) refl
