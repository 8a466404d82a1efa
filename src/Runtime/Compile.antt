-- ===== src/Runtime/Compile.antt =====
-- src/runtime/contract_runtime.rs: `ContractRuntime`, its constructors, `compile` and
-- `load_precompiled`.
pub mod Sizes
use ave_contract_sdk.Base.{ℕ, ◌≤◌, ◌≡◌, Option, none, some, List, arith, ltb, if◌then◌else◌}
use ave_contract_sdk.Base.Text.{◌<>◌}
use ave_contract_sdk.Base.Result.{Result, ok, err, map_err as map_failure, ◌>>=◌, ◌>>◌, >>=-ok}
use ave_contract_sdk.Runtime.Error.{
  RuntimeError, engine_creation, precompile_failed, deserialization_failed, invalid_module,
  excessive_memory, contract_error_text,
}
use ave_contract_sdk.Runtime.Config.{
  ResolvedMachineSpec, WasmLimits, limits_of_spec, create_secure_wasmtime_config,
  min_fleet_memory_bytes,
}
use ave_contract_sdk.Runtime.Wasm.{declared_min_memory_bytes}
use ave_contract_sdk.Runtime.Linker.Setup.{generate_linker}
use ave_contract_sdk.Runtime.Engine.{Engine}

-- The limits and the metrics; the engine and its linker are wasmtime's.
pub record ContractRuntime (Metrics : Type 0) : Type 0 where
  pub limits : WasmLimits
  pub metrics : Option Metrics

-- The verdict on what a module declares.
abbrev pub fleet_check : Option ℕ → Result RuntimeError (Unit {0})
fleet_check none = ok tt
fleet_check (some min_bytes) =
    if ltb min_fleet_memory_bytes min_bytes
    then err (invalid_module (excessive_memory min_bytes min_fleet_memory_bytes))
    else ok tt

-- A declaration that can be read is within the fleet's floor.
abbrev pub IsWithinFloor : Option ℕ → Type 0
IsWithinFloor none = Unit {0}
IsWithinFloor (some n) = n ≤ min_fleet_memory_bytes

module _ (engine : Engine) where
  unfoldable pub new :
      {Metrics : Type 0}
      → Option ResolvedMachineSpec
      → Result RuntimeError (ContractRuntime Metrics)
  unfolding limits_of_spec create_secure_wasmtime_config
  new spec =
      let limits = limits_of_spec spec in
      do
        map_failure engine_creation (engine.create (create_secure_wasmtime_config limits))
        _linker ←
            map_failure (λ e. engine_creation ("linker setup failed: " <> contract_error_text e))
              (generate_linker engine.linkers)
        ok (record { limits = limits; metrics = none })

  unfoldable pub with_metrics :
      {Metrics : Type 0}
      → Option ResolvedMachineSpec
      → Option Metrics
      → Result RuntimeError (ContractRuntime Metrics)
  unfolding new
  with_metrics spec metrics = do runtime ← new spec; ok (record runtime { metrics = metrics })

  unfoldable pub load_precompiled : List ℕ → Result RuntimeError engine.Module
  load_precompiled precompiled_bytes =
      map_failure deserialization_failed (engine.deserialize precompiled_bytes)

  -- The module, and its precompiled bytes.
  unfoldable pub compile : List ℕ → Result RuntimeError (engine.Module × List ℕ)
  unfolding declared_min_memory_bytes
  compile wasm_bytes = do
    fleet_check (declared_min_memory_bytes wasm_bytes)
    precompiled_bytes ← map_failure precompile_failed (engine.precompile_module wasm_bytes)
    compiled ← map_failure deserialization_failed (engine.deserialize precompiled_bytes)
    ok (compiled, precompiled_bytes)

  fleet_check-IsWithinFloor :
      (declared : Option ℕ) → fleet_check declared ≡ ok tt → IsWithinFloor declared
  fleet_check-IsWithinFloor none h = tt
  fleet_check-IsWithinFloor (some n) h = ground (arith, h)

  -- A module that compiles declares no memory that the smallest machine of the fleet could not give
  -- it, where its declaration can be read; and its bytes can be loaded again, to the same module.
  pub compile-load_precompiled :
      (wasm_bytes precompiled_bytes : List ℕ) (compiled : engine.Module)
      → compile wasm_bytes ≡ ok (compiled, precompiled_bytes)
      → IsWithinFloor (declared_min_memory_bytes wasm_bytes)
        × (load_precompiled precompiled_bytes ≡ ok compiled)
  unfolding compile load_precompiled
  compile-load_precompiled wasm_bytes precompiled_bytes compiled h =
      let (_u, checked, h₁) = >>=-ok (fleet_check (declared_min_memory_bytes wasm_bytes)) _ h in
      let (bytes, _p, h₂) =
        >>=-ok (map_failure precompile_failed (engine.precompile_module wasm_bytes)) _ h₁ in
      let (found, l, h₃) =
        >>=-ok (map_failure deserialization_failed (engine.deserialize bytes)) _ h₂ in
      (
        fleet_check-IsWithinFloor (declared_min_memory_bytes wasm_bytes) checked,
        ground (arith, l, h₃),
      )
