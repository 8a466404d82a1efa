-- ===== src/Bridge/Agree.antt =====
-- src/runtime/config.rs: machines differ in their limits, and must not differ in their verdicts.
pub mod Validation
use ave_contract_sdk.Base.{ℕ, ◌+◌, ◌≡◌, sym, ◌∙◌, Bool, Option, List, length}
use ave_contract_sdk.Base.Result.{Result, ok, map_ok}
use ave_contract_sdk.Sdk.Context.{Context, ContractResult}
use ave_contract_sdk.Sdk.Wire.{Wire, Json}
use ave_contract_sdk.Runtime.Config.{ResolvedMachineSpec, limits_of_spec}
use ave_contract_sdk.Runtime.Error.{RuntimeError}
use ave_contract_sdk.Runtime.Memory.Inv.{Fits}
use ave_contract_sdk.Runtime.Linker.{LinearMemory}
use ave_contract_sdk.Runtime.Linker.Guest.{GuestHeap}
use ave_contract_sdk.Runtime.Staging.Arguments.{AllFit}
use ave_contract_sdk.Runtime.Imports.{SetOrder}
use ave_contract_sdk.Runtime.Engine.{Engine}
use ave_contract_sdk.Runtime.Metrics.{Prometheus, ContractMetrics}
use ave_contract_sdk.Runtime.Execute.{ExecutionResult, execute}
use ave_contract_sdk.Bridge.Verdict.{verdict, report}
use ave_contract_sdk.Bridge.Event.{RunsContract, fresh, context, flag, execute_reports}

-- A machine with its wasmtime, the order of its hash sets, its copy of the contract's module, and its
-- metrics.
pub record Node : Type 1 where
  pub spec : Option ResolvedMachineSpec
  pub lm : LinearMemory
  pub heap : GuestHeap lm
  pub engine : Engine
  pub order : SetOrder
  pub compiled : engine.Module
  pub prometheus : Prometheus
  pub metrics : Option (ContractMetrics prometheus)
  pub elapsed : prometheus.Float

module _ (w : Wire) {State Event Value : Type 0} (state_json : Json State) (event_json : Json Event)
    (value_json : Json Value)
    (callback : Context Event → ContractResult State → ContractResult State)
    (state init_state event : Value) (is_owner : Bool) (a b d out : List ℕ) where
  -- The machine's limits have room for the arguments and the report, and its engine runs the module,
  -- with fuel and linear memory enough, to the end that the contract's source gives it.
  pub record IsAble (n : Node) : Type 0 where
    pub fit : AllFit a b d (fresh n.spec)
    pub room : Fits (length out) (context a b d n.spec fit)
    pub runs :
        RunsContract n.lm n.heap w state_json event_json callback n.engine n.compiled
          (context a b d n.spec fit)
          0
          (4 + length a)
          (8 + length a + length b)
          (flag is_owner)

  -- The result of the event on a machine.
  abbrev pub executed : Node → Result RuntimeError (ExecutionResult Value)
  executed n =
      map_ok (λ result. result.0)
        (execute n.prometheus w value_json n.engine (limits_of_spec n.spec) n.compiled state
          init_state event is_owner n.elapsed n.metrics).0

  -- Let the host's values have these JSON texts, and the contract's report an encoding. Then two
  -- machines that have room for the texts and for the report, and whose engines run the module, with
  -- fuel and linear memory enough, to the end that the contract's source gives it, agree on the result
  -- of the event, whatever their limits, their engines and their metrics.
  pub execute_agrees :
      (m n : Node)
      → (value_json.to_vec state ≡ ok a)
        × (value_json.to_vec init_state ≡ ok b)
        × (value_json.to_vec event ≡ ok d)
      → w.encode_result (report w (verdict state_json event_json callback a b d is_owner)) ≡ ok out
      → IsAble m
      → IsAble n
      → executed m ≡ executed n
  execute_agrees m n texts encoded f g =
      execute_reports m.lm m.heap w state_json event_json value_json callback m.engine m.compiled
        state init_state event is_owner m.spec a b d out m.prometheus m.elapsed m.metrics texts
        f.fit encoded f.room f.runs
      ∙ sym (
          execute_reports n.lm n.heap w state_json event_json value_json callback n.engine
            n.compiled state init_state event is_owner n.spec a b d out n.prometheus n.elapsed
            n.metrics texts g.fit encoded g.room g.runs)
