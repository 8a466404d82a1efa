-- ===== src/Bridge/Guest.antt =====
-- `execute_contract` of src/lib.rs, linked with a host that has staged its arguments.
use ave_contract_sdk.Base.{ℕ, ◌≤◌, ◌<◌, ◌≡◌, refl, ◌∙◌, some, List, length}
use ave_contract_sdk.Base.Machine.{ℤ, pos}
use ave_contract_sdk.Base.Result.{ok}
use ave_contract_sdk.Sdk.Context.{Context, ContractResult}
use ave_contract_sdk.Sdk.Wire.{Wire, Json, frame}
use ave_contract_sdk.Sdk.Contract.{execute_contract, is_owner_flag}
use ave_contract_sdk.Runtime.Memory.{MemoryManager}
use ave_contract_sdk.Runtime.Memory.Inv.{IsValid, Fits}
use ave_contract_sdk.Runtime.Memory.Blocks.{block}
use ave_contract_sdk.Runtime.Linker.{LinearMemory, Caller}
use ave_contract_sdk.Runtime.Linker.Guest.{GuestHeap, linked}
use ave_contract_sdk.Bridge.Store.{stored}
use ave_contract_sdk.Bridge.Verdict.{verdict, report}
use ave_contract_sdk.Bridge.Entry.{execute_contract-Stores}
use ave_contract_sdk.Bridge.Linked.{HoldsBlock, HasRoom, NewBlock, linked_service}

-- The host has staged these three payloads at these pointers.
pub record HasStaged (m : MemoryManager) (s i e : ℕ) (a b d : List ℕ) : Type 0 where
  pub valid : IsValid m
  pub state_block : block m s ≡ some (frame a)
  pub init_block : block m i ≡ some (frame b)
  pub event_block : block m e ≡ some (frame d)

module _ (lm : LinearMemory) where
  -- A result that ends in a new block, with its pointer and its state written out.
  pub NewBlock-result :
      {A : Type 0} (f : Caller lm.Mem → A × Caller lm.Mem) (g : ℕ → A) (c c' : Caller lm.Mem)
      (out : List ℕ) (ptr : ℕ)
      → f c ≡ (g ptr, c')
      → NewBlock lm out c ptr c'
      → (mem' : lm.Mem) × (f c ≡ (
        g (length c.manager.memory),
        record { manager = stored out c.manager; export = some mem' },
      ))
  NewBlock-result f g c c' out ptr r (mem', at, left) = (mem', r ∙ λ i. (g (at i), left i))

module _ (lm : LinearMemory) (heap : GuestHeap lm) (w : Wire) {State Event : Type 0}
    (state_json : Json State) (event_json : Json Event) (s i e : ℕ) (a b d : List ℕ)
    (callback : Context Event → ContractResult State → ContractResult State) (owner : ℤ) where
  -- On a valid manager that holds its arguments and has room for its report, a linked contract whose
  -- own allocator has room for every vector that is no longer than the manager's largest allocation
  -- runs without a trap. It returns the pointer of a new block, and leaves the
  -- manager as it was but for that block, which holds the encoded report: the callback's verdict
  -- on the state, or on the initial state where the state cannot be parsed, or the reason why
  -- there is no verdict.
  pub execute_contract_served :
      (c : Caller lm.Mem) (mem : lm.Mem) (out : List ℕ)
      → HasStaged c.manager s i e a b d
      → c.export ≡ some mem
      → c.manager.max_single_alloc ≤ heap.capacity
      → w.encode_result
          (report w (verdict state_json event_json callback a b d (is_owner_flag owner)))
        ≡ ok out
      → Fits (length out) c.manager
      → 0 < length c.manager.memory
      → (mem' : lm.Mem) × (execute_contract
            (linked lm heap)
            w
            state_json
            event_json
            (pos s)
            (pos i)
            (pos e)
            owner
            callback
            c
          ≡ (
            ok (length c.manager.memory),
            record { manager = stored out c.manager; export = some mem' },
          ))
  execute_contract_served c mem out h ex roomy encoded f staged =
      let held = λ (p : ℕ) (x : List ℕ) (at : block c.manager p ≡ some (frame x)).
        let r : HoldsBlock lm heap (pos p) x c = record {
          at = p;
          is_at = refl;
          valid = h.valid;
          roomy = roomy;
          mem = mem;
          exported = ex;
          held = at;
        } in
        r in
      let room : HasRoom lm heap out c = record {
        valid = h.valid;
        roomy = roomy;
        mem = mem;
        exported = ex;
        fits = f;
        not_null = staged;
      } in
      let (ptr, c', r, stands) =
        execute_contract-Stores (linked lm heap) (linked_service lm heap) w state_json event_json
          (pos s) (pos i) (pos e) a b d callback owner c out
          (record {
            state_held = held s a h.state_block;
            init_held = held i b h.init_block;
            event_held = held e d h.event_block;
          })
          encoded room in
      NewBlock-result lm
        (execute_contract (linked lm heap) w state_json event_json (pos s) (pos i) (pos e) owner
          callback)
        ok c c' out ptr r stands
