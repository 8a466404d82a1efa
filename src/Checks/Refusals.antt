-- ===== src/Checks/Refusals.antt =====
-- The contract that adds, at pointers that the host has never given.
use ave_contract_sdk.Base.{none}
use ave_contract_sdk.Runtime.Config.{limits_of_spec}
use ave_contract_sdk.Runtime.Memory
use ave_contract_sdk.Runtime.Memory.{MemoryManager, from_limits}

-- A block of three zeros.
abbrev zeros_manager : MemoryManager
zeros_manager = (Memory.alloc 3 (from_limits (limits_of_spec none))).1
