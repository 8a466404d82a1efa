-- ===== src/Runtime/Validate/Hostile.antt =====
-- `validate` of src/runtime/contract_runtime.rs on a module that does whatever it can.
use ave_contract_sdk.Base.{ap, sym, ◌∙◌, ℕ, ◌≤◌, ◌<◌, ◌≡◌, true, Option, some, length, List}
use ave_contract_sdk.Base.Result.{ok, map_err as map_failure, >>=-ok}
use ave_contract_sdk.Sdk.Wire.{Wire, Json}
use ave_contract_sdk.Runtime.Config.{ResolvedMachineSpec, limits_of_spec}
use ave_contract_sdk.Runtime.Memory.{MemoryManager, from_limits}
use ave_contract_sdk.Runtime.Memory.Inv.{IsValid, from_limits-IsValid}
use ave_contract_sdk.Runtime.Memory.Blocks.{block}
use ave_contract_sdk.Runtime.Failures.{map_err-ok}
use ave_contract_sdk.Runtime.Imports.{SetOrder, check_imports}
use ave_contract_sdk.Runtime.Linker.{LinearMemory, Caller}
use ave_contract_sdk.Runtime.Linker.Safe.{Keeps, Keeps-refl, Reach}
use ave_contract_sdk.Runtime.Linker.Live.{read_data-found}
use ave_contract_sdk.Runtime.Staging.{generate_context}
use ave_contract_sdk.Runtime.Staging.Safe.{generate_context-Keeps}
use ave_contract_sdk.Runtime.Engine.{Engine, Finished}
use ave_contract_sdk.Runtime.Execute.Hostile.{confined-Keeps}
use ave_contract_sdk.Runtime.Validate.{check_init_result, run_init_check, validate_inner, validate}
use ave_contract_sdk.Runtime.Validate.Accepted.{Ran, check_init_result-Passed, run_init_check-Ran}

-- wasmtime's isolation, of the initial check: it reaches the host's data by the linked imports only.
-- What it calls, in which order, with which arguments, and what it returns, is free.
pub record IsInitSandbox (lm : LinearMemory) (engine : Engine) : Type 0 where
  pub confined :
      (compiled : engine.Module) (m : MemoryManager) (fuel : ℕ) (instance : engine.Instance)
      (entry : ℕ → Finished) (p : ℕ)
      → engine.instantiate compiled m fuel ≡ ok instance
      → engine.init_check_function instance ≡ some entry
      → (c c' : Caller lm.Mem) × (c.manager ≡ m) × Reach lm c c' × ((entry p).manager ≡ c'.manager)

module _ (w : Wire) where
  -- A passed check is decoded from the block that the manager has at this pointer.
  pub record IsPassed (m : MemoryManager) (ptr limit : ℕ) : Type 0 where
    pub bytes : List ℕ
    pub check : w.ContractInitCheckData
    pub at_pointer : block m ptr ≡ some bytes
    pub some_bytes : 0 < length bytes
    pub within_limit : length bytes ≤ limit
    pub decodes : w.decode_init bytes ≡ ok check
    pub success : w.init_success check ≡ true

  check_init_result-IsPassed :
      (m : MemoryManager) (ptr : ℕ)
      → IsValid m
      → check_init_result w m ptr ≡ ok tt
      → IsPassed m ptr m.max_single_alloc
  check_init_result-IsPassed m ptr v h =
      let passed = check_init_result-Passed w m ptr h in
      let (found, positive, within) = read_data-found ptr passed.payload m v passed.at_pointer in
      record {
        bytes = passed.payload;
        check = passed.check;
        at_pointer = found;
        some_bytes = positive;
        within_limit = within;
        decodes = passed.decoded;
        success = passed.success;
      }

module _ (lm : LinearMemory) (engine : Engine) (w : Wire) {Value : Type 0} (value_json : Json Value)
    (spec : Option ResolvedMachineSpec) (compiled : engine.Module) (s : Value) where
  Ran-Keeps :
      (finished : Finished)
      → IsInitSandbox lm engine
      → Ran w value_json engine (limits_of_spec spec) compiled s finished
      → let staged = (generate_context value_json s (limits_of_spec spec)).1 in
        Keeps (from_limits (limits_of_spec spec)) staged × Keeps staged finished.manager
  Ran-Keeps finished sandbox ran =
      let m = (generate_context value_json s (limits_of_spec spec)).1 in
      let (c, c', same, reach, left) =
        sandbox.confined compiled m _ ran.instance ran.init_check ran.state_ptr ran.instantiated
          ran.init_found in
      let k =
        generate_context-Keeps value_json s (limits_of_spec spec) (from_limits-IsValid spec) in
      (
        k,
        confined-Keeps lm m m finished.manager c c' (Keeps-refl m k.valid) same reach
            (ap (λ (f : Finished). f.manager) (sym ran.is_finished) ∙ left),
      )

  -- Whatever a module does in wasmtime's sandbox, and whatever pointer it returns, 0 included: where
  -- `validate` passes it, its initial check was run and has returned a pointer. The host's manager is
  -- then valid, under the limits that it was staged with, and tracks the staged state at its pointer
  -- and with its length. A passed check is decoded from the block that the manager has at the returned
  -- pointer, which is not empty and no longer than the machine's limit of an allocation.
  pub validate_hostile :
      (order : SetOrder)
      → IsInitSandbox lm engine
      → validate w value_json engine order (limits_of_spec spec) compiled s ≡ ok tt
      → (finished : Finished) × (ptr : ℕ) × (run_init_check w value_json engine
            (limits_of_spec spec)
            compiled
            s
          ≡ ok finished)
        × (finished.call_result ≡ ok ptr)
        × Keeps (generate_context value_json s (limits_of_spec spec)).1 finished.manager
        × IsPassed w finished.manager ptr (from_limits (limits_of_spec spec)).max_single_alloc
  unfolding validate validate_inner
  validate_hostile order sandbox h =
      let (_u, _imports, h₁) = >>=-ok (check_imports order (engine.imports compiled)) _ h in
      let (finished, ran, h₂) =
        >>=-ok (run_init_check w value_json engine (limits_of_spec spec) compiled s) _ h₁ in
      let (ptr, returned, h₃) = >>=-ok (map_failure _ finished.call_result) _ h₂ in
      let (staged, k) =
        Ran-Keeps finished sandbox
          (run_init_check-Ran w value_json engine (limits_of_spec spec) compiled s finished ran) in
      (
        finished,
        ptr,
        ran,
        map_err-ok _ _ returned,
        k,
        rw (← staged.same_single, ← k.same_single)
            (check_init_result-IsPassed w finished.manager ptr k.valid h₃),
      )
