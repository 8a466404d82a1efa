-- ===== src/Bridge/Init.antt =====
-- `validate` of src/runtime/contract_runtime.rs on a module that was built from `check_init_data`
-- of src/lib.rs: an initial state from the host's value to the host's verdict.
use mathlib.Core.List.{Perm}
use ave_contract_sdk.Base.{ℕ, ◌≤◌, ◌+◌, ◌<◌, ◌≡◌, refl, Option, some, List, arith, length}
use ave_contract_sdk.Base.Machine.{pos, as_i32}
use ave_contract_sdk.Base.Text.{String}
use ave_contract_sdk.Base.Result.{Result, ok, err}
use ave_contract_sdk.Sdk.Context.{ContractInitCheck}
use ave_contract_sdk.Sdk.Wire.{Wire, Json, frame}
use ave_contract_sdk.Sdk.Contract.{check_init_data}
use ave_contract_sdk.Runtime.Config.{ResolvedMachineSpec, limits_of_spec, max_fuel_compilation}
use ave_contract_sdk.Runtime.Memory.{MemoryManager, from_limits}
use ave_contract_sdk.Runtime.Memory.Inv.{IsValid, Fits, from_limits-IsValid}
use ave_contract_sdk.Runtime.Memory.Blocks.{block, read_data-block}
use ave_contract_sdk.Runtime.Linker.{LinearMemory, Caller}
use ave_contract_sdk.Runtime.Linker.Guest.{GuestHeap, linked}
use ave_contract_sdk.Runtime.Staging.{generate_context}
use ave_contract_sdk.Runtime.Staging.Laws.{
  staged, staged-IsValid, write_contract_data_fits, block-staged, length-staged,
}
use ave_contract_sdk.Runtime.Imports.{SetOrder}
use ave_contract_sdk.Runtime.Imports.Exact.{sdk_imports, check_imports_iff}
use ave_contract_sdk.Runtime.Engine.{Engine, Finished}
use ave_contract_sdk.Runtime.Validate.{check_init_result, run_init_check, validate_inner, validate}
use ave_contract_sdk.Bridge.Store.{stored, stored-IsValid, block-stored}
use ave_contract_sdk.Bridge.Entry.{check_init_data-Stores}
use ave_contract_sdk.Bridge.Linked.{linked_service}
use ave_contract_sdk.Bridge.Guest.{NewBlock-result}
use ave_contract_sdk.Bridge.Verdict.{init_verdict, init_report, init_accounted}

module _ (lm : LinearMemory) (heap : GuestHeap lm) (w : Wire) {State : Type 0}
    (state_json : Json State) (callback : State → ContractInitCheck → ContractInitCheck) (p : ℕ)
    (a : List ℕ) (c : Caller lm.Mem) (mem : lm.Mem) (v : IsValid c.manager)
    (ex : c.export ≡ some mem) (roomy : c.manager.max_single_alloc ≤ heap.capacity)
    (at : block c.manager p ≡ some (frame a)) where
  check_init_data_served :
      (out : List ℕ)
      → w.encode_init (init_report w (init_verdict state_json callback a)) ≡ ok out
      → Fits (length out) c.manager
      → 0 < length c.manager.memory
      → (mem' : lm.Mem) × (check_init_data (linked lm heap) w state_json (pos p) callback c ≡ (
        ok (length c.manager.memory),
        record { manager = stored out c.manager; export = some mem' },
      ))
  check_init_data_served out encoded f some_bytes =
      let (ptr, c', r, stands) =
        check_init_data-Stores (linked lm heap) (linked_service lm heap) w state_json callback
          (pos p) a c
          (record {
            at = p;
            is_at = refl;
            valid = v;
            roomy = roomy;
            mem = mem;
            exported = ex;
            held = at;
          })
          out encoded
          (record {
            valid = v;
            roomy = roomy;
            mem = mem;
            exported = ex;
            fits = f;
            not_null = some_bytes;
          }) in
      NewBlock-result lm (check_init_data (linked lm heap) w state_json (pos p) callback) ok c c'
        out ptr r stands

module _ (lm : LinearMemory) (heap : GuestHeap lm) (w : Wire) {State : Type 0}
    (state_json : Json State) (callback : State → ContractInitCheck → ContractInitCheck) where
  -- wasmtime instantiates the module over this manager, finds its entry points, and runs the initial
  -- check on this argument, with fuel and linear memory enough, to the end that the contract's source
  -- gives it. The contract's own allocator has room for every vector that is no longer than the
  -- manager's largest allocation.
  pub record RunsInitCheck (engine : Engine) (compiled : engine.Module) (m : MemoryManager) (p : ℕ)
      : Type 0 where
    pub instance : engine.Instance
    pub main : ℕ → ℕ → ℕ → ℕ → Finished
    pub entry : ℕ → Finished
    pub memory : lm.Mem
    pub roomy : m.max_single_alloc ≤ heap.capacity
    pub fuelled : engine.set_fuel max_fuel_compilation ≡ ok tt
    pub instantiated : engine.instantiate compiled m max_fuel_compilation ≡ ok instance
    pub main_found : engine.main_function instance ≡ some main
    pub entry_found : engine.init_check_function instance ≡ some entry
    pub runs :
        (ptr : ℕ) (c : Caller lm.Mem)
        → check_init_data
            (linked lm heap)
            w
            state_json
            (as_i32 p)
            callback
            (record { manager = m; export = some memory })
          ≡ (ok ptr, c)
        → ((entry p).call_result ≡ ok ptr) × ((entry p).manager ≡ c.manager)

module _ (w : Wire) where
  -- The host reads the check that the contract stored.
  check_init_result_stored :
      (m : MemoryManager) (r : Result String (Unit {0})) (out : List ℕ)
      → IsValid m
      → Fits (length out) m
      → w.encode_init (init_report w r) ≡ ok out
      → check_init_result w (stored out m) (length m.memory) ≡ init_accounted r
  unfolding check_init_result
  check_init_result_stored m (ok u) out v f encoded =
      let h = w.encode_init-pos w.init_ok out encoded in
      ground (
        arith,
        read_data-block (length m.memory) (stored out m) (stored-IsValid out m v f h),
        block-stored out m v f h (length m.memory),
        w.decode_init-encode_init w.init_ok out encoded,
        w.init_ok-success,
      )
  check_init_result_stored m (err e) out v f encoded =
      let h = w.encode_init-pos (w.init_error e) out encoded in
      ground (
        arith,
        read_data-block (length m.memory) (stored out m) (stored-IsValid out m v f h),
        block-stored out m v f h (length m.memory),
        w.decode_init-encode_init (w.init_error e) out encoded,
        w.init_error-success e,
        w.init_error-message e,
      )

module _ (lm : LinearMemory) (heap : GuestHeap lm) (w : Wire) {State Value : Type 0}
    (state_json : Json State) (value_json : Json Value)
    (callback : State → ContractInitCheck → ContractInitCheck) (engine : Engine)
    (compiled : engine.Module) (state : Value) (spec : Option ResolvedMachineSpec)
    (a out : List ℕ) where
  abbrev fresh : MemoryManager
  fresh = from_limits (limits_of_spec spec)

  -- The check that the contract is to report.
  abbrev checked : Result String (Unit {0})
  checked = init_verdict state_json callback a

  empty : length fresh.memory ≡ 0
  empty = unfold from_limits in refl

  -- The state is staged at the pointer 0.
  generate_context-Fits :
      value_json.to_vec state ≡ ok a
      → Fits (4 + length a) fresh
      → generate_context value_json state (limits_of_spec spec) ≡ (ok 0, staged a fresh)
  unfolding generate_context
  generate_context-Fits text fit =
      rw (text, write_contract_data_fits a fresh (from_limits-IsValid spec) fit)
        (λ i. (ok (empty i), staged a fresh))

  -- The initial check has returned, and its store holds the report.
  run_init_check_reported :
      value_json.to_vec state ≡ ok a
      → (f : Fits (4 + length a) fresh) → w.encode_init (init_report w checked) ≡ ok out
      → Fits (length out) (staged a fresh)
      → RunsInitCheck lm heap w state_json callback engine compiled (staged a fresh) 0
      → (finished : Finished) × (run_init_check w value_json engine
            (limits_of_spec spec)
            compiled
            state
          ≡ ok finished)
        × (finished.call_result ≡ ok (length (staged a fresh).memory))
        × (finished.manager ≡ stored out (staged a fresh))
  unfolding run_init_check
  run_init_check_reported text fit encoded f r =
      let v = from_limits-IsValid spec in
      let valid = staged-IsValid a fresh v fit in
      let (mem, ran) =
        check_init_data_served lm heap w state_json callback 0 a
          (record { manager = staged a fresh; export = some r.memory }) r.memory valid refl r.roomy
          (ground (arith, empty, block-staged a fresh v fit 0)) out encoded f
          (omega (arith, length-staged a fresh)) in
      let (returned, left) =
        r.runs (length (staged a fresh).memory)
          (record { manager = stored out (staged a fresh); export = some mem }) ran in
      (
        r.entry 0,
        rw (generate_context-Fits text fit, r.fuelled, r.instantiated, r.main_found, r.entry_found)
            refl,
        returned,
        left,
      )

  -- Let a module have exactly the SDK's imports, let the initial state's JSON text and the encoded
  -- report fit the limits of the machine, and let the engine run the initial check, with fuel and
  -- linear memory enough, to the end that `check_init_data` gives it. Then `validate` passes where the
  -- contract parses the state and its callback accepts it, and otherwise fails with the parse error or
  -- the callback's reason.
  pub validate_reports :
      (order : SetOrder)
      → Perm (engine.imports compiled) sdk_imports
      → value_json.to_vec state ≡ ok a
      → (f : Fits (4 + length a) fresh) → w.encode_init (init_report w checked) ≡ ok out
      → Fits (length out) (staged a fresh)
      → RunsInitCheck lm heap w state_json callback engine compiled (staged a fresh) 0
      → validate w value_json engine order (limits_of_spec spec) compiled state
        ≡ init_accounted checked
  unfolding validate validate_inner
  validate_reports order imports text fit encoded f r =
      let (finished, ran, returned, left) = run_init_check_reported text fit encoded f r in
      rw
        (
          (check_imports_iff order (engine.imports compiled)).1 imports,
          ran,
          returned,
          left,
          check_init_result_stored w (staged a fresh) checked out
              (staged-IsValid a fresh (from_limits-IsValid spec) fit) f encoded,
        )
        refl
