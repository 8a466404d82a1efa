-- ===== src/Runtime/Engine.antt =====
-- wasmtime, as far as src/runtime/contract_runtime.rs calls it: a record of operations. A call of a
-- guest's entry point runs the guest to its end, over the store that the instance holds.
use ave_contract_sdk.Base.{ℕ, Option, List}
use ave_contract_sdk.Base.Text.{String}
use ave_contract_sdk.Base.Result.{Result}
use ave_contract_sdk.Runtime.Config.{EngineConfig}
use ave_contract_sdk.Runtime.Memory.{MemoryManager}
use ave_contract_sdk.Runtime.Imports.{Import}
use ave_contract_sdk.Runtime.Linker.Setup.{FunctionLinker}

-- Why a call of a guest ended without a result: `Trap::OutOfFuel`, or another error. Each has the
-- text of its chain (`format!("{e:#}")`).
pub data CallError : Type 0 where
  out_of_fuel_trap : String → CallError
  other_error : String → CallError

abbrev pub chain_text : CallError → String
chain_text (out_of_fuel_trap text) = text
chain_text (other_error text) = text

-- A call that has ended, and what the store and the instance then show: the host's data, the fuel
-- that is left, and the size of the memory named "memory" in pages, where they can be told.
pub record Finished : Type 0 where
  pub call_result : Result CallError ℕ
  pub manager : MemoryManager
  pub fuel_left : Option ℕ
  pub memory_pages : Option ℕ

pub record Engine : Type 1 where
  pub Module : Type 0
  pub Instance : Type 0
  -- `Engine::new`, and the linkers on an engine
  pub create : EngineConfig → Result String (Unit {0})
  pub linkers : FunctionLinker
  pub precompile_module : List ℕ → Result String (List ℕ)
  pub deserialize : List ℕ → Result String Module
  pub imports : Module → List Import
  pub set_fuel : ℕ → Result String (Unit {0})
  -- `instantiate`, in a store over this data with this fuel
  pub instantiate : Module → MemoryManager → ℕ → Result String Instance
  -- `get_typed_func`, and the calls of the function that it finds
  pub main_function : Instance → Option (ℕ → ℕ → ℕ → ℕ → Finished)
  pub init_check_function : Instance → Option (ℕ → Finished)
