-- ===== src/Bridge/Event/Start.antt =====
-- How `execute` of src/runtime/contract_runtime.rs starts a contract: its arguments staged on a fresh
-- manager, and the engine's run of the module.
use ave_contract_sdk.Base.{
  ℕ, ◌+◌, ◌≤◌, ◌≡◌, refl, Bool, Option, some, List, arith, length, if◌then◌else◌,
}
use ave_contract_sdk.Base.Machine.{pos, as_i32}
use ave_contract_sdk.Base.Result.{ok}
use ave_contract_sdk.Sdk.Context.{Context, ContractResult}
use ave_contract_sdk.Sdk.Wire.{Wire, Json}
use ave_contract_sdk.Sdk.Contract.{execute_contract}
use ave_contract_sdk.Runtime.Config.{ResolvedMachineSpec, limits_of_spec, max_fuel}
use ave_contract_sdk.Runtime.Memory.{MemoryManager, from_limits}
use ave_contract_sdk.Runtime.Memory.Inv.{from_limits-IsValid}
use ave_contract_sdk.Runtime.Linker.{LinearMemory, Caller}
use ave_contract_sdk.Runtime.Linker.Guest.{GuestHeap, linked}
use ave_contract_sdk.Runtime.Staging.Arguments.{
  AllFit, arguments, arguments-IsValid, block-arguments,
}
use ave_contract_sdk.Runtime.Engine.{Engine, Finished}
use ave_contract_sdk.Bridge.Guest.{HasStaged}

-- The limits of a machine that is described, or not.
abbrev pub fresh : Option ResolvedMachineSpec → MemoryManager
fresh spec = from_limits (limits_of_spec spec)

module _ (lm : LinearMemory) (heap : GuestHeap lm) (w : Wire) {State Event : Type 0}
    (state_json : Json State) (event_json : Json Event)
    (callback : Context Event → ContractResult State → ContractResult State) where
  -- wasmtime instantiates the module over this manager, finds its entry point, and runs it on these
  -- arguments, with fuel and linear memory enough, to the end that the contract's source gives it. The
  -- contract's own allocator has room for every vector that is no longer than the manager's largest
  -- allocation.
  pub record RunsContract (engine : Engine) (compiled : engine.Module) (m : MemoryManager)
      (p q r o : ℕ) : Type 0 where
    pub instance : engine.Instance
    pub entry : ℕ → ℕ → ℕ → ℕ → Finished
    pub memory : lm.Mem
    pub roomy : m.max_single_alloc ≤ heap.capacity
    pub fuelled : engine.set_fuel max_fuel ≡ ok tt
    pub instantiated : engine.instantiate compiled m max_fuel ≡ ok instance
    pub entry_found : engine.main_function instance ≡ some entry
    pub runs :
        (ptr : ℕ) (c : Caller lm.Mem)
        → execute_contract
            (linked lm heap)
            w
            state_json
            event_json
            (as_i32 p)
            (as_i32 q)
            (as_i32 r)
            (as_i32 o)
            callback
            (record { manager = m; export = some memory })
          ≡ (ok ptr, c)
        → ((entry p q r o).call_result ≡ ok ptr) × ((entry p q r o).manager ≡ c.manager)

abbrev pub flag : Bool → ℕ
flag is_owner = if is_owner then 1 else 0

module _ (a b d : List ℕ) (spec : Option ResolvedMachineSpec)
    (fit : AllFit a b d (fresh spec)) where
  -- The manager that the contract is started on.
  abbrev pub context : MemoryManager
  context = arguments a b d (fresh spec)

  pub empty : length (fresh spec).memory ≡ 0
  empty = unfold from_limits in refl

  pub context-HasStaged : HasStaged context 0 (4 + length a) (8 + length a + length b) a b d
  context-HasStaged =
      let v = from_limits-IsValid spec in
      let (first, second, third) = block-arguments a b d (fresh spec) v empty fit in
      record {
        valid = arguments-IsValid a b d (fresh spec) v empty fit;
        state_block = first;
        init_block = second;
        event_block = third;
      }

  pub pointer_kept : (n : ℕ) → n ≤ 12 + length a + length b + length d → as_i32 n ≡ pos n
  pointer_kept n h = ground (arith, fit.total, (from_limits-IsValid spec).total_small)

  pub flag_kept : (is_owner : Bool) → as_i32 (flag is_owner) ≡ pos (flag is_owner)
  flag_kept is_owner = ground arith
