-- ===== src/Bridge/Event.antt =====
-- `execute` of src/runtime/contract_runtime.rs on a module that was built from `execute_contract`
-- of src/lib.rs: an event from the host's values to the host's values.
mod Start
pub use Start.{fresh, RunsContract, flag, context, context-HasStaged}
use ave_contract_sdk.Bridge.Event.Start.{empty, pointer_kept, flag_kept}
use ave_contract_sdk.Base.{
  inl, inr, ℕ, ◌+◌, ◌≤◌, ◌≡◌, refl, Bool, Option, some, List, arith, length, if◌then◌else◌,
}
use ave_contract_sdk.Base.Machine.{pos, as_i32}
use ave_contract_sdk.Base.Result.{ok, map_ok, Result-cases}
use ave_contract_sdk.Sdk.Context.{Context, ContractResult}
use ave_contract_sdk.Sdk.Wire.{Wire, Json, ContractResultData}
use ave_contract_sdk.Sdk.Contract.{execute_contract}
use ave_contract_sdk.Runtime.Config.{ResolvedMachineSpec, limits_of_spec, max_fuel}
use ave_contract_sdk.Runtime.Memory.{MemoryManager, from_limits}
use ave_contract_sdk.Runtime.Memory.Inv.{IsValid, Fits, from_limits-IsValid}
use ave_contract_sdk.Runtime.Memory.Blocks.{read_data-block}
use ave_contract_sdk.Runtime.Linker.{LinearMemory, Caller}
use ave_contract_sdk.Runtime.Linker.Guest.{GuestHeap, linked}
use ave_contract_sdk.Runtime.Staging.Arguments.{
  AllFit, arguments, arguments-IsValid, length-arguments, block-arguments,
  generate_execution_context_fits,
}
use ave_contract_sdk.Runtime.Engine.{Engine, Finished}
use ave_contract_sdk.Runtime.Metrics.{Prometheus, ContractMetrics}
use ave_contract_sdk.Runtime.Execute.{
  get_execution_result, conclude, run_main, execute_inner, execute,
}
use ave_contract_sdk.Bridge.Store.{stored, stored-IsValid, block-stored}
use ave_contract_sdk.Bridge.Verdict.{verdict, report, accounted}
use ave_contract_sdk.Bridge.Guest.{HasStaged, execute_contract_served}

module _ (w : Wire) {Value : Type 0} (value_json : Json Value) where
  -- The host reads the report that the contract stored.
  get_execution_result_stored :
      (m : MemoryManager) (r : ContractResultData) (out : List ℕ)
      → IsValid m
      → Fits (length out) m
      → w.encode_result r ≡ ok out
      → get_execution_result w value_json (stored out m) (length m.memory) ≡ accounted value_json r
  unfolding get_execution_result
  get_execution_result_stored m r out v f encoded =
      let h = w.encode_result-pos r out encoded in
      ground (
        arith,
        read_data-block (length m.memory) (stored out m) (stored-IsValid out m v f h),
        block-stored out m v f h (length m.memory),
        w.decode_result-encode_result r out encoded,
      )

  -- Of a call that has returned, the result is what is read at the pointer.
  conclude_result :
      (finished : Finished) (ptr : ℕ)
      → map_ok (λ result. result.0) (conclude w value_json finished (ok ptr))
        ≡ get_execution_result w value_json finished.manager ptr
  unfolding conclude
  conclude_result finished ptr =
      elim (Result-cases (get_execution_result w value_json finished.manager ptr)) [
        | inl (r, e) ↦ rw e refl
        | inr (x, e) ↦ rw e refl
      ]

module _ (lm : LinearMemory) (heap : GuestHeap lm) (w : Wire) {State Event Value : Type 0}
    (state_json : Json State) (event_json : Json Event) (value_json : Json Value)
    (callback : Context Event → ContractResult State → ContractResult State) (engine : Engine)
    (compiled : engine.Module) (state init_state event : Value) (is_owner : Bool)
    (spec : Option ResolvedMachineSpec) (a b d out : List ℕ) where
  -- What the contract reports for these payloads.
  abbrev pub reported : ContractResultData
  reported = report w (verdict state_json event_json callback a b d is_owner)

  -- The guest's call has returned, and its store holds the report.
  run_main-reported :
      (texts : (value_json.to_vec state ≡ ok a)
        × (value_json.to_vec init_state ≡ ok b)
        × (value_json.to_vec event ≡ ok d))
      (fit : AllFit a b d (fresh spec))
      → w.encode_result reported ≡ ok out
      → Fits (length out) (context a b d spec fit)
      → RunsContract lm heap w state_json event_json callback engine compiled
          (context a b d spec fit)
          0
          (4 + length a)
          (8 + length a + length b)
          (flag is_owner)
      → (finished : Finished) × (run_main value_json engine
            (limits_of_spec spec)
            compiled
            state
            init_state
            event
            is_owner
          ≡ ok finished)
        × (finished.call_result ≡ ok (length (context a b d spec fit).memory))
        × (finished.manager ≡ stored out (context a b d spec fit))
  unfolding run_main
  run_main-reported (ta, tb, td) fit encoded f r =
      let m = context a b d spec fit in
      let (mem, ran) =
        execute_contract_served lm heap w state_json event_json 0 (4 + length a)
          (8 + length a + length b) a b d callback (pos (flag is_owner))
          (record { manager = m; export = some r.memory }) r.memory out
          (context-HasStaged a b d spec fit) refl r.roomy (ground (arith, encoded)) f
          (omega (
            arith,
            length-arguments a b d (fresh spec) (from_limits-IsValid spec) (empty a b d spec fit)
                fit,
          )) in
      let kept : execute_contract (linked lm heap) w state_json event_json (as_i32 0)
            (as_i32 (4 + length a)) (as_i32 (8 + length a + length b)) (as_i32 (flag is_owner))
            callback (record { manager = m; export = some r.memory })
          ≡ (ok (length m.memory), record { manager = stored out m; export = some mem }) =
        rw
          (
            pointer_kept a b d spec fit (4 + length a) (omega arith),
            pointer_kept a b d spec fit (8 + length a + length b) (omega arith),
            flag_kept a b d spec fit is_owner,
          )
          ran in
      let (returned, left) =
        r.runs (length m.memory) (record { manager = stored out m; export = some mem }) kept in
      (
        r.entry 0 (4 + length a) (8 + length a + length b) (flag is_owner),
        rw
            (
              generate_execution_context_fits value_json state init_state event a b d
                  (limits_of_spec spec) ta tb td (from_limits-IsValid spec) fit,
              r.fuelled,
              r.instantiated,
              r.entry_found,
            )
            refl,
        returned,
        left,
      )

  -- Let the host's values have these JSON texts, let the texts, the report and its encoding fit the
  -- limits of the machine, and let the engine run the module, with fuel and linear memory enough, to
  -- the end that `execute_contract` gives it. Then `execute` gives the callback's verdict on the
  -- state, or on the initial state where the contract cannot parse the state; or, as a rejection, the
  -- reason why there is no verdict; or an error where the reported final state is no JSON value of the
  -- host.
  pub execute_reports :
      (p : Prometheus) (elapsed : p.Float) (metrics : Option (ContractMetrics p))
      → (value_json.to_vec state ≡ ok a)
        × (value_json.to_vec init_state ≡ ok b)
        × (value_json.to_vec event ≡ ok d)
      → (fit : AllFit a b d (fresh spec)) → w.encode_result reported ≡ ok out
      → Fits (length out) (context a b d spec fit)
      → RunsContract lm heap w state_json event_json callback engine compiled
          (context a b d spec fit)
          0
          (4 + length a)
          (8 + length a + length b)
          (flag is_owner)
      → map_ok
          (λ result. result.0)
          (execute p w value_json engine
            (limits_of_spec spec)
            compiled
            state
            init_state
            event
            is_owner
            elapsed
            metrics).0
        ≡ accounted value_json reported
  unfolding execute execute_inner
  execute_reports p elapsed metrics texts fit encoded f r =
      let m = context a b d spec fit in
      let (finished, ran, returned, left) = run_main-reported texts fit encoded f r in
      let read =
        get_execution_result_stored w value_json m reported out
          (arguments-IsValid a b d (fresh spec) (from_limits-IsValid spec) (empty a b d spec fit)
            fit)
          f encoded in
      rw (ran, returned, conclude_result w value_json finished (length m.memory), left, read) refl
