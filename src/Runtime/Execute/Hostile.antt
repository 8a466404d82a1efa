-- ===== src/Runtime/Execute/Hostile.antt =====
-- `execute` of src/runtime/contract_runtime.rs on a module that does whatever it can.
use ave_contract_sdk.Base.{
  ℕ, ◌+◌, ◌*◌, ◌%◌, ◌^◌, ◌≤◌, ◌<◌, ◌≡◌, Bool, max, Option-cases, if◌then◌else◌, inl, inr, Option,
  none, some, List, length, arith,
}
use ave_contract_sdk.Base.Result.{Result, ok, map_err as map_failure, ok_or, >>=-ok, Result-cases}
use ave_contract_sdk.Sdk.Wire.{Wire, Json, ContractResultData}
use ave_contract_sdk.Runtime.Error.{
  RuntimeError, fuel_limit_error, instantiation_failed, entry_point_not_found,
}
use ave_contract_sdk.Runtime.Config.{ResolvedMachineSpec, limits_of_spec, max_fuel, wasm_page_bytes}
use ave_contract_sdk.Runtime.Memory.{MemoryManager, from_limits, read_data}
use ave_contract_sdk.Runtime.Memory.Inv.{IsValid, from_limits-IsValid}
use ave_contract_sdk.Runtime.Memory.Blocks.{block}
use ave_contract_sdk.Runtime.Linker.{LinearMemory, Caller}
use ave_contract_sdk.Runtime.Linker.Safe.{Keeps, Keeps-refl, Keeps-trans, Reach, Reach-Keeps}
use ave_contract_sdk.Runtime.Linker.Live.{read_data-found}
use ave_contract_sdk.Runtime.Staging.{generate_execution_context}
use ave_contract_sdk.Runtime.Staging.Safe.{generate_execution_context-Keeps}
use ave_contract_sdk.Runtime.Failures.{map_err-ok}
use ave_contract_sdk.Runtime.Engine.{Engine, Finished}
use ave_contract_sdk.Runtime.Metrics.{Prometheus, ContractMetrics}
use ave_contract_sdk.Runtime.Execute.{
  ExecutionResult, ExecutionStats, fuel_of, bytes_of, get_execution_result, run_main, execute,
}
use ave_contract_sdk.Runtime.Execute.Stats.{execute-Accounts}

-- wasmtime's isolation: code that it runs reaches the host's data by the linked imports only. What it
-- calls, in which order, with which arguments, and what it returns, is free.
pub record IsSandbox (lm : LinearMemory) (engine : Engine) : Type 0 where
  pub confined :
      (compiled : engine.Module) (m : MemoryManager) (fuel : ℕ) (instance : engine.Instance)
      (entry : ℕ → ℕ → ℕ → ℕ → Finished) (p q r o : ℕ)
      → engine.instantiate compiled m fuel ≡ ok instance
      → engine.main_function instance ≡ some entry
      → (c c' : Caller lm.Mem) × (c.manager ≡ m)
        × Reach lm c c'
        × ((entry p q r o).manager ≡ c'.manager)

ok_or-ok : {E A : Type 0} (e : E) (o : Option A) (a : A) → ok_or e o ≡ ok a → o ≡ some a
ok_or-ok e none a h = cc
ok_or-ok e (some b) a h = cc

same_manager :
    (f g : Finished) (m : MemoryManager)
    → ◌≡◌ {A = Result RuntimeError Finished} (ok f) (ok g)
    → f.manager ≡ m
    → g.manager ≡ m
same_manager f g m h e = cc

module _ (lm : LinearMemory) where
  pub confined-Keeps :
      (start m last : MemoryManager) (c c' : Caller lm.Mem)
      → Keeps start m
      → c.manager ≡ m
      → Reach lm c c'
      → last ≡ c'.manager
      → Keeps start last
  confined-Keeps start m last c c' k same reach left =
      let valid : IsValid c.manager = rw same k.valid in
      rw left (Keeps-trans start c.manager c'.manager (rw same k) (Reach-Keeps lm c c' valid reach))

module _ (lm : LinearMemory) (engine : Engine) (sandbox : IsSandbox lm engine) {Value : Type 0}
    (value_json : Json Value) (spec : Option ResolvedMachineSpec) (compiled : engine.Module)
    (state init_state event : Value) (owner : Bool) where
  -- However the guest ends, the host's manager is valid, and has kept its limits and what was staged.
  run_main-Keeps :
      (finished : Finished)
      → run_main value_json engine (limits_of_spec spec) compiled state init_state event owner
        ≡ ok finished
      → let staged =
          (generate_execution_context value_json state init_state event (limits_of_spec spec)).1 in
        Keeps (from_limits (limits_of_spec spec)) staged × Keeps staged finished.manager
  unfolding run_main
  run_main-Keeps finished h =
      let (ptrs, m) =
        generate_execution_context value_json state init_state event (limits_of_spec spec) in
      let k =
        generate_execution_context-Keeps value_json state init_state event (limits_of_spec spec)
          (from_limits-IsValid spec) in
      let ((p, q, r), staged, h₁) = >>=-ok ptrs _ h in
      let (_u, fuelled, h₂) =
        >>=-ok (map_failure fuel_limit_error (engine.set_fuel max_fuel)) _ h₁ in
      let (instance, made, h₃) =
        >>=-ok (map_failure instantiation_failed (engine.instantiate compiled m max_fuel)) _ h₂ in
      let (entry, entered, h₄) =
        >>=-ok (ok_or (entry_point_not_found "main_function") (engine.main_function instance)) _
          h₃ in
      let (c, c', same, reach, left) =
        sandbox.confined compiled m max_fuel instance entry p q r (if owner then 1 else 0)
          (map_err-ok instantiation_failed (engine.instantiate compiled m max_fuel) made)
          (ok_or-ok (entry_point_not_found "main_function") (engine.main_function instance) entry
            entered) in
      (
        k,
        confined-Keeps lm m m finished.manager c c' (Keeps-refl m k.valid) same reach
            (same_manager (entry p q r (if owner then 1 else 0)) finished c'.manager h₄ left),
      )

module _ (w : Wire) {Value : Type 0} (value_json : Json Value) where
  -- The result is decoded from the block that the manager has at this pointer.
  pub record IsDecoded (m : MemoryManager) (ptr limit : ℕ) (r : ExecutionResult Value)
      : Type 0 where
    pub bytes : List ℕ
    pub decoded : ContractResultData
    pub at_pointer : block m ptr ≡ some bytes
    pub some_bytes : 0 < length bytes
    pub within_limit : length bytes ≤ limit
    pub decodes : w.decode_result bytes ≡ ok decoded
    pub parsed : value_json.from_slice decoded.final_state ≡ ok r.final_state
    pub same_success : r.success ≡ decoded.success
    pub same_error : r.error ≡ decoded.error

  get_execution_result-IsDecoded :
      (m : MemoryManager) (ptr : ℕ) (r : ExecutionResult Value)
      → IsValid m
      → get_execution_result w value_json m ptr ≡ ok r
      → IsDecoded m ptr m.max_single_alloc r
  unfolding get_execution_result
  get_execution_result-IsDecoded m ptr r v h = elim (Result-cases (read_data ptr m)) [
    | inl (bytes, e) ↦
        let (found, positive, within) = read_data-found ptr bytes m v e in
        elim (Result-cases (w.decode_result bytes)) [
          | inl (decoded, f) ↦ elim (Result-cases (value_json.from_slice decoded.final_state)) [
            | inl (value, g) ↦ record {
              bytes = bytes;
              decoded = decoded;
              at_pointer = found;
              some_bytes = positive;
              within_limit = within;
              decodes = f;
              parsed = ground (arith, e, f, g, h);
              same_success = ground (arith, e, f, g, h);
              same_error = ground (arith, e, f, g, h);
            }
            | inr (x, g) ↦ ground (arith, e, f, g, h)
          ]
          | inr (x, f) ↦ ground (arith, e, f, h)
        ]
    | inr (x, e) ↦ ground (arith, e, h)
  ]

-- The fuel that is gone and the fuel that is left make up the budget. Where the store cannot tell what
-- is left, or tells more than the budget, all of it counts as gone, or none.
abbrev pub IsConsumed : Option ℕ → ℕ → Type 0
IsConsumed none consumed = consumed ≡ max_fuel
IsConsumed (some left) consumed = consumed + left ≡ max max_fuel left

-- The bytes of this many pages, in 64 bits; none where the guest exports no memory.
abbrev pub IsSize : Option ℕ → ℕ → Type 0
IsSize none bytes = bytes ≡ 0
IsSize (some pages) bytes = bytes ≡ pages * wasm_page_bytes % 2 ^ 64

fuel_of-IsConsumed : (finished : Finished) → IsConsumed finished.fuel_left (fuel_of finished)
fuel_of-IsConsumed finished = elim (Option-cases finished.fuel_left) [
  | inl e ↦ rw e (omega arith)
  | inr (left, e) ↦ rw e (omega arith)
]

bytes_of-IsSize : (finished : Finished) → IsSize finished.memory_pages (bytes_of finished)
bytes_of-IsSize finished = elim (Option-cases finished.memory_pages) [
  | inl e ↦ rw e (omega arith)
  | inr (pages, e) ↦ rw e (omega arith)
]

module _ (lm : LinearMemory) (engine : Engine) (p : Prometheus) (w : Wire) {Value : Type 0}
    (value_json : Json Value) (spec : Option ResolvedMachineSpec) (compiled : engine.Module)
    (state init_state event : Value) (owner : Bool) (elapsed : p.Float)
    (metrics : Option (ContractMetrics p)) where
  -- Whatever a module does in wasmtime's sandbox, and whatever pointer it returns, 0 included: where
  -- `execute` succeeds, the guest's call has returned a pointer. The host's manager is then valid, under
  -- the limits that it was staged with, and tracks every block that was staged, at its pointer and with
  -- its length. The result is decoded from the block that the manager has at the returned pointer,
  -- which is not empty and no longer than the machine's limit of an allocation. The fuel reported as
  -- consumed and the fuel that the store has left make up the budget; all of it is consumed where the
  -- store cannot tell what is left, and none where it has more. The memory reported is that of the
  -- guest's pages, in 64 bits, and 0 where it exports no memory.
  pub execute_hostile :
      (r : ExecutionResult Value) (stats : ExecutionStats)
      → IsSandbox lm engine
      → (execute p w value_json engine
          (limits_of_spec spec)
          compiled
          state
          init_state
          event
          owner
          elapsed
          metrics).0
        ≡ ok (r, stats)
      → (finished : Finished) × (ptr : ℕ) × (run_main value_json engine
            (limits_of_spec spec)
            compiled
            state
            init_state
            event
            owner
          ≡ ok finished)
        × (finished.call_result ≡ ok ptr)
        × Keeps
            (generate_execution_context value_json state init_state event (limits_of_spec spec)).1
            finished.manager
        × IsDecoded w value_json finished.manager ptr
            (from_limits (limits_of_spec spec)).max_single_alloc
            r
        × IsConsumed finished.fuel_left stats.fuel_consumed
        × IsSize finished.memory_pages stats.memory_bytes
  execute_hostile r stats sandbox h =
      let (finished, ptr, ran, account) =
        execute-Accounts p w value_json engine (limits_of_spec spec) compiled state init_state event
          owner elapsed metrics r stats h in
      let (staged, k) =
        run_main-Keeps lm engine sandbox value_json spec compiled state init_state event owner
          finished ran in
      (
        finished,
        ptr,
        ran,
        account.returned,
        k,
        rw (← staged.same_single, ← k.same_single)
            (get_execution_result-IsDecoded w value_json finished.manager ptr r k.valid
              account.read),
        rw account.fuel (fuel_of-IsConsumed finished),
        rw account.bytes (bytes_of-IsSize finished),
      )
