-- ===== src/Bridge/Refusals.antt =====
-- src/lib.rs on src/runtime/host.rs: the ways in which a contract of the SDK can be stopped: the host
-- refuses it the memory for its result, or its own memory cannot grow.
mod Calls
mod Stores
pub use Calls.{IsRefusal, IsOn}
use ave_contract_sdk.Bridge.Refusals.Calls.{reads-Steady}
use ave_contract_sdk.Bridge.Refusals.Stores.{stores-Steady}
use ave_contract_sdk.Base.Machine.{ℤ}
use ave_contract_sdk.Sdk.Context.{Context, ContractInitCheck}
use ave_contract_sdk.Sdk.Wire.{Wire, Json}
use ave_contract_sdk.Sdk.Contract.{check_init_data}
use ave_contract_sdk.Sdk.Steady.{Traps}
use ave_contract_sdk.Sdk.Steady.Entry.{check_init_data-Ends}
use ave_contract_sdk.Runtime.Memory.{MemoryManager}
use ave_contract_sdk.Runtime.Linker.{LinearMemory, Caller}
use ave_contract_sdk.Runtime.Linker.Guest.{GuestHeap, linked}

module _ (lm : LinearMemory) (heap : GuestHeap lm) (start : MemoryManager) (w : Wire)
    {State : Type 0} (state_json : Json State) where
  -- The same of the check of initial data.
  pub check_init_data-IsRefusal :
      (callback : State → ContractInitCheck → ContractInitCheck) (p : ℤ) (c : Caller lm.Mem)
      → IsOn lm start c
      → let (r, c') = check_init_data (linked lm heap) w state_json p callback c in
        IsOn lm start c' × Traps (IsRefusal heap.capacity start) r
  check_init_data-IsRefusal callback p c on =
      check_init_data-Ends (linked lm heap) (IsRefusal heap.capacity start) (IsOn lm start) w
        (reads-Steady lm heap start) (stores-Steady lm heap start) state_json callback p c on
