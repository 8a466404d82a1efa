-- ===== src/Runtime/Compile/Sizes.antt =====
-- Which modules `compile` lets through, by the memory that they declare.
use ave_contract_sdk.Base.{
  ℕ, ◌*◌, ◌^◌, ◌≤◌, ◌<◌, ◌≡◌, refl, true, false, Option, none, some, List, arith, length, ltb,
  if◌then◌else◌, Bool-cases, inl, inr,
}
use ave_contract_sdk.Base.Result.{Result, ok, err, map_err as map_failure, ◌>>=◌}
use ave_contract_sdk.Runtime.Error.{
  RuntimeError, precompile_failed, deserialization_failed, invalid_module, excessive_memory,
}
use ave_contract_sdk.Runtime.Config.{min_fleet_memory_bytes, wasm_page_bytes}
use ave_contract_sdk.Runtime.Wasm.Encoded.{Section, AreSections, greatest, module_bytes}
use ave_contract_sdk.Runtime.Wasm.Exact.{declared_min_memory_bytes-module_bytes}
use ave_contract_sdk.Runtime.Engine.{Engine}
use ave_contract_sdk.Runtime.Compile.{compile}

-- A declaration that can be read is within this limit.
abbrev pub IsWithinLimit : ℕ → Option ℕ → Type 0
IsWithinLimit limit none = Unit {0}
IsWithinLimit limit (some n) = n ≤ limit

module _ (engine : Engine) where
  -- wasmtime's part of `compile`.
  abbrev pub precompile : List ℕ → Result RuntimeError (engine.Module × List ℕ)
  precompile wasm_bytes = do
    bytes ← map_failure precompile_failed (engine.precompile_module wasm_bytes)
    compiled ← map_failure deserialization_failed (engine.deserialize bytes)
    ok (compiled, bytes)

  -- A module in binary form, of less than 2^64 bytes and with sections that fit their lengths, is
  -- refused before wasmtime sees it, with its size and the bound, if it declares a memory of more
  -- than 64 pages; any other is compiled as wasmtime compiles it.
  pub compile-module_bytes :
      (ss : List Section)
      → AreSections ss
      → length (module_bytes ss) < 2 ^ 64
      → compile engine (module_bytes ss) ≡ (
          if ltb 64 (greatest ss 0)
          then err (
              invalid_module
                (excessive_memory (greatest ss 0 * wasm_page_bytes) min_fleet_memory_bytes))
          else precompile (module_bytes ss))
  unfolding compile
  compile-module_bytes ss h small = elim (Bool-cases (ltb 64 (greatest ss 0))) [
    | inl e ↦
        let over : ltb min_fleet_memory_bytes (greatest ss 0 * wasm_page_bytes) ≡ true =
          ground (arith, e) in
        rw (declared_min_memory_bytes-module_bytes ss h small, e, over) refl
    | inr e ↦
        let under : ltb min_fleet_memory_bytes (greatest ss 0 * wasm_page_bytes) ≡ false =
          ground (arith, e) in
        rw (declared_min_memory_bytes-module_bytes ss h small, e, under) refl
  ]
