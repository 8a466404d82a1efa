-- ===== src/Runtime/Config/Limits.antt =====
-- The bounds between the limits of every machine.
use ave_contract_sdk.Base.{◌*◌, ◌≤◌, ◌≡◌, Option, arith}
use ave_contract_sdk.Runtime.Config.{
  ResolvedMachineSpec, WasmLimits, mib, build, default, limits_of_spec, max_memory_bytes,
  min_fleet_memory_bytes, create_secure_wasmtime_config,
}

-- What every set of limits promises, whatever the machine.
pub record IsWithinFleet (l : WasmLimits) : Type 0 where
  pub instantiable : min_fleet_memory_bytes ≤ l.memory_size
  pub below_ceiling : l.memory_size ≤ max_memory_bytes
  pub some_alloc : mib ≤ l.max_single_alloc
  pub alloc_fits : l.max_single_alloc * 3 ≤ l.max_total_memory
  pub total_bounded : l.max_total_memory ≤ 24 * 1024 * 1024
  pub total_below_memory : l.max_total_memory ≤ l.memory_size
  pub table_bounded : l.max_table_elements ≤ 2_048
  pub stack : l.max_wasm_stack ≡ mib

-- Whatever machine is detected, or none: every module whose declared minimum passes the fleet
-- floor fits the node's linear memory, no limit passes its ceiling, three largest allocations fit
-- the total, and the host's total never passes the size of the guest's linear memory. The table has
-- 2,048 elements at most, with no floor where 256 * cores wraps, and the stack is 1 MiB everywhere.
pub limits_of_spec-IsWithinFleet :
    (spec : Option ResolvedMachineSpec) → IsWithinFleet (limits_of_spec spec)
unfolding limits_of_spec default build
limits_of_spec-IsWithinFleet spec = ground arith

-- Every machine gets the same engine settings: only limits differ between nodes.
pub config_same_on_all_machines :
    (s t : Option ResolvedMachineSpec)
    → create_secure_wasmtime_config (limits_of_spec s)
      ≡ create_secure_wasmtime_config (limits_of_spec t)
unfolding create_secure_wasmtime_config limits_of_spec default build
config_same_on_all_machines s t = ground arith
