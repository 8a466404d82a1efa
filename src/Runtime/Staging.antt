-- ===== src/Runtime/Staging.antt =====
-- src/runtime/contract_runtime.rs: how the host stages a contract's arguments in its memory.
pub mod Laws
pub mod Arguments
pub mod Safe
use ave_contract_sdk.Base.{ℕ, ◌+◌, ◌%◌, ◌^◌, ◌<◌, List, length, ltb, if◌then◌else◌}
use ave_contract_sdk.Base.Text.{String, ◌<>◌, decimal}
use ave_contract_sdk.Base.Result.{Result, ok, err, map_err as map_failure}
use ave_contract_sdk.Base.Exec.{Exec, ◌>>=◌, ◌>>◌, lift, map_err}
use ave_contract_sdk.Sdk.Wire.{Json, to_le_bytes}
use ave_contract_sdk.Runtime.Error.{
  RuntimeError, ContractError, serialization_error, contract_error_text,
}
use ave_contract_sdk.Runtime.Config.{WasmLimits}
use ave_contract_sdk.Runtime.Memory.{MemoryManager, from_limits, alloc, write_bytes_at}

-- `|e| RuntimeError::MemoryAllocationFailed(e.to_string())`
abbrev pub allocation_failed : ContractError → RuntimeError
allocation_failed e = RuntimeError.memory_allocation_failed (contract_error_text e)

-- `u32::try_from(payload.len())`
abbrev pub payload_len : List ℕ → Result RuntimeError ℕ
payload_len payload =
    if ltb (length payload) (2 ^ 32)
    then ok (length payload)
    else err (
        serialization_error "contract data borsh"
          (decimal (length payload) <> " bytes do not fit the borsh u32 length"))

unfoldable pub write_contract_data : List ℕ → Exec RuntimeError MemoryManager ℕ
write_contract_data payload = do
  len_u32 ← lift (payload_len payload)
  ptr ← map_err allocation_failed (alloc (4 + length payload))
  map_err allocation_failed (write_bytes_at ptr 0 (to_le_bytes len_u32))
  map_err allocation_failed (write_bytes_at ptr 4 payload)
  lift (ok (ptr % 2 ^ 32))

-- The runtime's values are `serde_json::Value`s, with the JSON text that serde_json gives them.
module _ {Value : Type 0} (value_json : Json Value) where
  abbrev pub value_to_contract_data : Value → Result RuntimeError (List ℕ)
  value_to_contract_data value =
      map_failure (serialization_error "value to contract data") (value_json.to_vec value)

  -- `generate_context`, as calls on the fresh manager that it returns beside the pointer.
  unfoldable pub generate_context : Value → WasmLimits → Result RuntimeError ℕ × MemoryManager
  generate_context state limits =
      (do payload ← lift (value_to_contract_data state); write_contract_data payload)
        (from_limits limits)

  unfoldable pub generate_execution_context :
      Value → Value → Value → WasmLimits → Result RuntimeError (ℕ × ℕ × ℕ) × MemoryManager
  generate_execution_context state init_state event limits =
      (do
        state_data ← lift (value_to_contract_data state)
        state_ptr ← write_contract_data state_data
        init_data ← lift (value_to_contract_data init_state)
        init_ptr ← write_contract_data init_data
        event_data ← lift (value_to_contract_data event)
        event_ptr ← write_contract_data event_data
        lift (ok (state_ptr, init_ptr, event_ptr)))
        (from_limits limits)
