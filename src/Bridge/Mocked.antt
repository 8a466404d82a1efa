-- ===== src/Bridge/Mocked.antt =====
-- The mock host of src/externf.rs provides what a contract needs.
use ave_contract_sdk.Base.{
  ℕ, suc, ◌+◌, ◌-◌, ◌<◌, ◌≤◌, ◌^◌, ◌≡◌, refl, sym, ◌∙◌, ◌⊎◌, false, none, some, List, arith, length,
  replicate, overwrite_all, length-replicate,
}
use ave_contract_sdk.Base.Machine.{ℤ, pos}
use ave_contract_sdk.Base.Result.{ok}
use mathlib.Core.Path.{subst}
use ave_contract_sdk.Sdk.Wire.{Wire, Json, frame}
use ave_contract_sdk.Sdk.Mock.{
  MockHost, mock, get_data, pointer_len, alloc, take_id, read_bytes_into_vec,
  write_bytes_from_slice, insert,
}
use ave_contract_sdk.Sdk.Transfer.{
  get_from_context, store, validate_host_len, read_host_bytes, validate_serialized_len, serialize,
  write_host_bytes, max_data_size,
}
use ave_contract_sdk.Sdk.Context.{Context, ContractResult}
use ave_contract_sdk.Sdk.Contract.{execute_contract, is_owner_flag}
use ave_contract_sdk.Runtime.Memory.Inv.{Fits}
use ave_contract_sdk.Runtime.Memory.Blocks.{block}
use ave_contract_sdk.Runtime.Linker.{LinearMemory, Caller}
use ave_contract_sdk.Runtime.Linker.Guest.{GuestHeap, linked}
use ave_contract_sdk.Bridge.Service.{Service}
use ave_contract_sdk.Bridge.Store.{stored, block-stored}
use ave_contract_sdk.Bridge.Verdict.{verdict, report}
use ave_contract_sdk.Bridge.Entry.{HoldsAll, execute_contract-Stores}
use ave_contract_sdk.Bridge.Guest.{HasStaged, execute_contract_served}

-- The payload behind its length is held at the pointer, and no length is forced.
pub record HoldsData (p : ℤ) (d : List ℕ) (s : MockHost) : Type 0 where
  pub held : s.host_memory p ≡ some (frame d)
  pub no_forced_len : s.force_pointer_len ≡ none
  pub small : 4 + length d ≤ max_data_size

pub record HasIds (out : List ℕ) (s : MockHost) : Type 0 where
  pub ids_left : s.next_id < 2 ^ 31 - 1
  pub not_null : 0 < s.next_id
  pub no_failure : s.force_alloc_zero ≡ false
  pub small : length out < 2 ^ 31

-- The bytes are data at the next pointer, and the data at the other pointers is as it was.
abbrev pub NewData : List ℕ → MockHost → ℕ → MockHost → Type 0
NewData out s ptr t =
    (ptr ≡ s.next_id)
    × (get_data (pos ptr) t ≡ some out)
    × ((q : ℕ) → (ptr < q) ⊎ (q < ptr) → get_data (pos q) t ≡ get_data (pos q) s)

pub read_data :
    (p : ℤ) (d : List ℕ) (s : MockHost)
    → HoldsData p d s
    → (t : MockHost) × (get_from_context mock p s ≡ (ok (frame d), t)) × (s ≡ t)
unfolding get_from_context validate_host_len read_host_bytes pointer_len read_bytes_into_vec
read_data p d s h = (
  s,
  ground (
    arith,
    h.held,
    h.no_forced_len,
    h.small,
    length-replicate {A = ℕ} (4 + length d) 0,
    overwrite_all (frame d) (replicate (4 + length d) 0)
        (omega (arith, length-replicate {A = ℕ} (4 + length d) 0)),
  ),
  refl,
)

-- The mock host with the bytes at its next pointer.
abbrev pub kept : List ℕ → MockHost → MockHost
kept out s = record s {
  next_id = suc s.next_id;
  host_memory =
      insert (pos s.next_id) out (insert (pos s.next_id) (replicate (length out) 0) s.host_memory);
}

pub put_data :
    (out : List ℕ) (s : MockHost)
    → 0 < length out
    → HasIds out s
    → (ptr : ℕ) × (t : MockHost) × (store mock (ok out) s ≡ (ok ptr, t)) × NewData out s ptr t
unfolding store serialize validate_serialized_len write_host_bytes alloc take_id
    write_bytes_from_slice get_data
put_data out s h room = (
  s.next_id,
  kept out s,
  ground (arith, room.ids_left, room.not_null, room.no_failure, room.small),
  (refl, ground arith, λ q e. ground (arith, e)),
)

abbrev pub mock_service : Service mock
mock_service = record {
  Holds = HoldsData;
  Reads = λ s t. s ≡ t;
  Room = HasIds;
  Stores = NewData;
  Reads-trans = λ s t u e f. e ∙ f;
  Reads-Holds = λ s t p d e h. subst (HoldsData p d) e h;
  Reads-Room = λ s t out e h. subst (HasIds out) e h;
  Reads-Stores = λ s t u out ptr e h. subst (λ c. NewData out c ptr u) (sym e) h;
  Holds-small = λ p d s h. omega (arith, h.small);
  read = read_data;
  put = put_data;
}

module _ (w : Wire) {State Event : Type 0} (state_json : Json State) (event_json : Json Event)
    (callback : Context Event → ContractResult State → ContractResult State) (owner : ℤ)
    (a b d out : List ℕ) where
  -- Let a mock host hold a contract's arguments, let its pointers not run out and its allocations not
  -- be forced to fail; let a valid manager of the runtime, not empty, hold the same arguments and have
  -- room for the report, and the guest room for its blocks. Then a contract that runs in a unit test,
  -- on the mock host, returns a pointer at which `get_data` finds the encoded report, and one that
  -- runs on the runtime returns the pointer of a block that holds the same bytes.
  pub execute_contract_mocked :
      (lm : LinearMemory) (heap : GuestHeap lm) (c : Caller lm.Mem) (mem : lm.Mem) (i j k : ℕ)
      (p q r : ℤ) (s : MockHost)
      → w.encode_result
          (report w (verdict state_json event_json callback a b d (is_owner_flag owner)))
        ≡ ok out
      → HoldsAll mock mock_service p q r a b d s
      → HasIds out s
      → HasStaged c.manager i j k a b d
      → c.export ≡ some mem
      → c.manager.max_single_alloc ≤ heap.capacity
      → Fits (length out) c.manager
      → 0 < length c.manager.memory
      → (at here : ℕ) × (t : MockHost) × (c' : Caller lm.Mem) × (execute_contract mock w state_json
            event_json p q r owner callback s
          ≡ (ok at, t))
        × (execute_contract
              (linked lm heap)
              w
              state_json
              event_json
              (pos i)
              (pos j)
              (pos k)
              owner
              callback
              c
            ≡ (ok here, c'))
        × (get_data (pos at) t ≡ some out)
        × (block c'.manager here ≡ some out)
  execute_contract_mocked lm heap c mem i j k p q r s encoded h ids st ex roomy f staged =
      let (at, t, runs, stands) =
        execute_contract-Stores mock mock_service w state_json event_json p q r a b d callback owner
          s out h encoded ids in
      let (mem', served) =
        execute_contract_served lm heap w state_json event_json i j k a b d callback owner c mem out
          st ex roomy encoded f staged in
      (
        at,
        length c.manager.memory,
        t,
        record { manager = stored out c.manager; export = some mem' },
        runs,
        served,
        stands.1,
        ground (
          arith,
          block-stored out c.manager st.valid f (w.encode_result-pos _ out encoded)
              (length c.manager.memory),
        ),
      )
