-- ===== src/Bridge/Store.antt =====
-- How a linked contract stores a result for the host.
use ave_contract_sdk.Base.{ℕ, ◌+◌, ◌<◌, ◌≡◌, some, List, arith, length, if◌then◌else◌, ◌==◌}
use ave_contract_sdk.Base.Machine.{ℤ}
use ave_contract_sdk.Base.Result.{ok}
use ave_contract_sdk.Sdk.Transfer.{store, serialize, validate_serialized_len, write_host_bytes}
use ave_contract_sdk.Runtime.Memory.{MemoryManager, grown, write_bytes}
use ave_contract_sdk.Runtime.Memory.Inv.{IsValid, Fits, grown-IsValid, limits-grown, get-grown}
use ave_contract_sdk.Runtime.Memory.Blocks.{block, block-grown, block-splice_whole}
use ave_contract_sdk.Runtime.Memory.Writes.{written, written-IsValid, write_bytes_tracked}
use ave_contract_sdk.Runtime.Linker.{LinearMemory, Caller}
use ave_contract_sdk.Runtime.Linker.Guest.{GuestHeap, linked}
use ave_contract_sdk.Runtime.Linker.Served.{alloc_served, write_bytes_served}

-- The manager after a result of these bytes was stored.
abbrev pub stored : List ℕ → MemoryManager → MemoryManager
stored bytes m =
    written (length m.memory) bytes (grown (length bytes) (length m.memory + length bytes) m)

module _ (bytes : List ℕ) (m : MemoryManager) (v : IsValid m) (f : Fits (length bytes) m)
    (some_bytes : 0 < length bytes) where
  pub stored-IsValid : IsValid (stored bytes m)
  stored-IsValid = written-IsValid (length m.memory) bytes _ (grown-IsValid (length bytes) m v f)

  -- The new block is the bytes, and no other block has changed.
  pub block-stored :
      (q : ℕ) → block (stored bytes m) q ≡ (if q == length m.memory then some bytes else block m q)
  block-stored q = ground (
    arith,
    block-splice_whole (length m.memory) q bytes
        (grown (length bytes) (length m.memory + length bytes) m)
        (grown-IsValid (length bytes) m v f)
        (get-grown (length bytes) (length m.memory + length bytes) m some_bytes),
    block-grown (length bytes) q m v,
  )

  write_fresh :
      write_bytes (length m.memory) bytes (grown (length bytes) (length m.memory + length bytes) m)
      ≡ (ok tt, stored bytes m)
  write_fresh = ground (
    arith,
    write_bytes_tracked (length m.memory) (length bytes) bytes
        (grown (length bytes) (length m.memory + length bytes) m)
        (grown-IsValid (length bytes) m v f)
        (get-grown (length bytes) (length m.memory + length bytes) m some_bytes),
  )

module _ (lm : LinearMemory) (heap : GuestHeap lm) where
  -- A linked contract's store of bytes, one at least, for which it has room, and that fit a valid
  -- manager whose memory is not empty, puts them in a new block at the end of its memory, and returns
  -- the block's pointer.
  pub store_served :
      (bytes : List ℕ) (c : Caller lm.Mem) (mem mem₁ : lm.Mem) (address : ℤ)
      → IsValid c.manager
      → c.export ≡ some mem
      → heap.place bytes mem ≡ some (address, mem₁)
      → Fits (length bytes) c.manager
      → 0 < length bytes
      → 0 < length c.manager.memory
      → store (linked lm heap) (ok bytes) c ≡ (
        ok (length c.manager.memory),
        record { manager = stored bytes c.manager; export = some mem₁ },
      )
  unfolding store serialize validate_serialized_len write_host_bytes
  store_served bytes c mem mem₁ address v e placed f h staged =
      let grown_c : Caller lm.Mem = record c {
        manager = grown (length bytes) (length c.manager.memory + length bytes) c.manager;
      } in
      let w =
        write_bytes_served lm heap (length c.manager.memory) bytes grown_c mem mem₁ address
          (grown-IsValid (length bytes) c.manager v f)
          (omega
            (arith, limits-grown (length bytes) (length c.manager.memory + length bytes) c.manager))
          e placed (write_fresh bytes c.manager v f h) in
      ground (arith, w, alloc_served lm heap (length bytes) c v f)
