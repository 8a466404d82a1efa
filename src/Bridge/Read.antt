-- ===== src/Bridge/Read.antt =====
-- How a linked contract reads a value that the host staged for it.
use ave_contract_sdk.Base.{ℕ, ◌≤◌, ◌≡◌, some, List, arith, length, replicate, length-replicate}
use ave_contract_sdk.Base.Machine.{ℤ, pos}
use ave_contract_sdk.Base.Text.{String, ◌<>◌}
use ave_contract_sdk.Base.Result.{Result, ok, map_err as map_failure}
use ave_contract_sdk.Sdk.Wire.{Wire, Json, frame}
use ave_contract_sdk.Sdk.Extern.{Stop, failing}
use ave_contract_sdk.Sdk.Transfer.{
  validate_host_len, read_host_bytes, get_from_context, read_and_parse, deserialize,
}
use ave_contract_sdk.Runtime.Memory.Inv.{IsValid}
use ave_contract_sdk.Runtime.Memory.Blocks.{block}
use ave_contract_sdk.Runtime.Linker.{LinearMemory, Caller}
use ave_contract_sdk.Runtime.Linker.Guest.{GuestHeap, linked}
use ave_contract_sdk.Runtime.Linker.Served.{
  IsServed, block-IsServed, pointer_len_served, read_bytes_served,
}

-- What `read_and_parse` returns for the payload `d`.
abbrev pub parsed : {X T : Type 0} → Json T → String → List ℕ → Result (Stop X String) T
parsed json name d = failing (
    map_failure (λ (e : String). "Cannot parse " <> name <> " from JSON bytes: " <> e)
      (json.from_slice d))

module _ (lm : LinearMemory) (heap : GuestHeap lm) where
  pub get_from_context_served :
      (p : ℕ) (b : List ℕ) (c : Caller lm.Mem) (mem mem₁ : lm.Mem) (address : ℤ)
      → IsValid c.manager
      → IsServed p b c.manager
      → c.export ≡ some mem
      → heap.place (replicate (length b) 0) mem ≡ some (address, mem₁)
      → (mem' : lm.Mem) × (get_from_context (linked lm heap) (pos p) c
          ≡ (ok b, record c { export = some mem' }))
  unfolding get_from_context validate_host_len read_host_bytes
  get_from_context_served p b c mem mem₁ address v s e placed =
      let (mem', r) = read_bytes_served lm heap p b c mem mem₁ address v s e placed in
      (mem', ground (arith, r, pointer_len_served lm heap p b c v s))

  -- The guest has room for every block of the manager.
  pub get_from_context_roomy :
      (p : ℕ) (b : List ℕ) (c : Caller lm.Mem) (mem : lm.Mem)
      → IsValid c.manager
      → IsServed p b c.manager
      → c.export ≡ some mem
      → c.manager.max_single_alloc ≤ heap.capacity
      → (mem' : lm.Mem) × (get_from_context (linked lm heap) (pos p) c
          ≡ (ok b, record c { export = some mem' }))
  get_from_context_roomy p b c mem v s e roomy =
      let (address, mem₁, placed) =
        heap.has_room (replicate (length b) 0) mem
          (omega (arith, s.small, length-replicate {A = ℕ} (length b) 0)) in
      get_from_context_served p b c mem mem₁ address v s e placed

  module _ (w : Wire) {T : Type 0} (json : Json T) where
    -- Where the guest has room for it, a payload that a valid manager holds behind its length prefix
    -- reaches a linked contract's parser as it is: the parser's answer is the answer of
    -- `read_and_parse`, nothing traps, and only the contract's own memory changes.
    pub read_and_parse_served :
        (p : ℕ) (d : List ℕ) (name : String) (c : Caller lm.Mem) (mem : lm.Mem)
        → IsValid c.manager
        → c.export ≡ some mem
        → c.manager.max_single_alloc ≤ heap.capacity
        → block c.manager p ≡ some (frame d)
        → (mem' : lm.Mem) × (read_and_parse (linked lm heap) w json (pos p) name c
            ≡ (parsed json name d, record c { export = some mem' }))
    unfolding read_and_parse deserialize
    read_and_parse_served p d name c mem v e roomy staged =
        let s = block-IsServed p (frame d) c.manager v staged in
        let (mem', r) = get_from_context_roomy p (frame d) c mem v s e roomy in
        (mem', ground (arith, r, w.decode_data_frame d (omega (arith, s.small, v.single_small))))
