-- ===== src/Bridge/Linked.antt =====
-- The runtime's imports provide what a contract needs.
use ave_contract_sdk.Base.{ℕ, ◌≤◌, ◌<◌, ◌^◌, ◌≡◌, refl, sym, ap, ◌∙◌, some, List, arith, length}
use ave_contract_sdk.Base.Machine.{ℤ, pos}
use ave_contract_sdk.Base.Result.{ok}
use mathlib.Core.Path.{subst}
use ave_contract_sdk.Sdk.Wire.{frame}
use ave_contract_sdk.Sdk.Transfer.{get_from_context, store}
use ave_contract_sdk.Runtime.Memory.Inv.{IsValid, Fits}
use ave_contract_sdk.Runtime.Memory.Blocks.{block}
use ave_contract_sdk.Runtime.Linker.{LinearMemory, Caller}
use ave_contract_sdk.Runtime.Linker.Guest.{GuestHeap, linked}
use ave_contract_sdk.Runtime.Linker.Served.{block-IsServed}
use ave_contract_sdk.Bridge.Service.{Service}
use ave_contract_sdk.Bridge.Read.{get_from_context_roomy}
use ave_contract_sdk.Bridge.Store.{stored, store_served}

module _ (lm : LinearMemory) where
  -- Only the guest's own memory has changed.
  abbrev pub OnlyExport : Caller lm.Mem → Caller lm.Mem → Type 0
  OnlyExport c c' = (mem' : lm.Mem) × (c' ≡ record c { export = some mem' })

  -- The bytes are a new block of the manager.
  abbrev pub NewBlock : List ℕ → Caller lm.Mem → ℕ → Caller lm.Mem → Type 0
  NewBlock out c ptr c' =
      (mem' : lm.Mem) × (ptr ≡ length c.manager.memory)
      × (c' ≡ record { manager = stored out c.manager; export = some mem' })

  pub OnlyExport-trans : (s t u : Caller lm.Mem) → OnlyExport s t → OnlyExport t u → OnlyExport s u
  OnlyExport-trans s t u (m, e) (m', e') =
      (m', e' ∙ ap {A = Caller lm.Mem} (λ c. record c { export = some m' }) e)

  pub OnlyExport-NewBlock :
      (s t u : Caller lm.Mem) (out : List ℕ) (ptr : ℕ)
      → OnlyExport s t
      → NewBlock out t ptr u
      → NewBlock out s ptr u
  OnlyExport-NewBlock s t u out ptr (m, e) b = subst (λ c. NewBlock out c ptr u) e b

module _ (lm : LinearMemory) (heap : GuestHeap lm) where
  -- The manager is valid, the guest has room for each of its blocks, the guest exports its memory, and
  -- the block at the pointer is the payload behind its length.
  pub record HoldsBlock (p : ℤ) (d : List ℕ) (c : Caller lm.Mem) : Type 0 where
    pub at : ℕ
    pub is_at : p ≡ pos at
    pub valid : IsValid c.manager
    pub roomy : c.manager.max_single_alloc ≤ heap.capacity
    pub mem : lm.Mem
    pub exported : c.export ≡ some mem
    pub held : block c.manager at ≡ some (frame d)

  pub record HasRoom (out : List ℕ) (c : Caller lm.Mem) : Type 0 where
    pub valid : IsValid c.manager
    pub roomy : c.manager.max_single_alloc ≤ heap.capacity
    pub mem : lm.Mem
    pub exported : c.export ≡ some mem
    pub fits : Fits (length out) c.manager
    pub not_null : 0 < length c.manager.memory

  pub OnlyExport-HoldsBlock :
      (s t : Caller lm.Mem) (p : ℤ) (d : List ℕ)
      → OnlyExport lm s t
      → HoldsBlock p d s
      → HoldsBlock p d t
  OnlyExport-HoldsBlock s t p d (m, e) h = subst (HoldsBlock p d) (sym e) (record {
    at = h.at;
    is_at = h.is_at;
    valid = h.valid;
    roomy = h.roomy;
    mem = m;
    exported = refl;
    held = h.held;
  })

  pub OnlyExport-HasRoom :
      (s t : Caller lm.Mem) (out : List ℕ) → OnlyExport lm s t → HasRoom out s → HasRoom out t
  OnlyExport-HasRoom s t out (m, e) h = subst (HasRoom out) (sym e) (record {
    valid = h.valid;
    roomy = h.roomy;
    mem = m;
    exported = refl;
    fits = h.fits;
    not_null = h.not_null;
  })

  pub HoldsBlock-small :
      (p : ℤ) (d : List ℕ) (c : Caller lm.Mem) → HoldsBlock p d c → length d < 2 ^ 32
  HoldsBlock-small p d c h =
      omega (
        arith,
        (block-IsServed h.at (frame d) c.manager h.valid h.held).small,
        h.valid.single_small,
      )

  pub read_block :
      (p : ℤ) (d : List ℕ) (c : Caller lm.Mem)
      → HoldsBlock p d c
      → (c' : Caller lm.Mem) × (get_from_context (linked lm heap) p c ≡ (ok (frame d), c'))
        × OnlyExport lm c c'
  read_block p d c h =
      let s = block-IsServed h.at (frame d) c.manager h.valid h.held in
      let (mem', r) =
        get_from_context_roomy lm heap h.at (frame d) c h.mem h.valid s h.exported h.roomy in
      (record c { export = some mem' }, rw h.is_at r, (mem', refl))

  pub put_block :
      (out : List ℕ) (c : Caller lm.Mem)
      → 0 < length out
      → HasRoom out c
      → (ptr : ℕ) × (c' : Caller lm.Mem) × (store (linked lm heap) (ok out) c ≡ (ok ptr, c'))
        × NewBlock lm out c ptr c'
  put_block out c h room =
      let (address, mem', placed) =
        heap.has_room out room.mem (omega (arith, room.fits, room.roomy)) in
      let r =
        store_served lm heap out c room.mem mem' address room.valid room.exported placed room.fits h
          room.not_null in
      (
        length c.manager.memory,
        record { manager = stored out c.manager; export = some mem' },
        r,
        (mem', refl, refl),
      )

  abbrev pub linked_service : Service (linked lm heap)
  linked_service = record {
    Holds = HoldsBlock;
    Reads = OnlyExport lm;
    Room = HasRoom;
    Stores = NewBlock lm;
    Reads-trans = OnlyExport-trans lm;
    Reads-Holds = OnlyExport-HoldsBlock;
    Reads-Room = OnlyExport-HasRoom;
    Reads-Stores = OnlyExport-NewBlock lm;
    Holds-small = HoldsBlock-small;
    read = read_block;
    put = put_block;
  }
