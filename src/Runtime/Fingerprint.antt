-- ===== src/Runtime/Fingerprint.antt =====
-- src/runtime/contract_runtime.rs: `engine_fingerprint`, by which a node knows precompiled modules
-- that its engine can load.
use ave_contract_sdk.Base.{ℕ, List}
use ave_contract_sdk.Base.Text.{String}
use ave_contract_sdk.Base.Result.{Result, map_err as map_failure}
use ave_contract_sdk.Runtime.Error.{RuntimeError, serialization_error}
use ave_contract_sdk.Runtime.Config.{EngineConfig, create_secure_wasmtime_config}
use ave_contract_sdk.Runtime.Engine.{Engine}
use ave_contract_sdk.Runtime.Compile.{ContractRuntime}

-- wasmtime's `precompile_compatibility_hash`, a value for the platform (the target and its CPU
-- features, the version of wasmtime) and the configuration; `DefaultHasher`, new for each use and so
-- without a random key; and ave_common's digests.
pub record Hashes : Type 1 where
  pub Platform : Type 0
  pub precompile_compatibility_hash : Platform → EngineConfig → List ℕ
  pub finish : List ℕ → ℕ
  pub HashAlgorithm : Type 0
  pub DigestIdentifier : Type 0
  pub hash_borsh : HashAlgorithm → ℕ → Result String DigestIdentifier

module _ (h : Hashes) {Metrics : Type 0} where
  -- The runtime's engine is the one that `new` made, on its platform, for its limits.
  unfoldable pub engine_fingerprint :
      h.HashAlgorithm
      → h.Platform
      → ContractRuntime Metrics
      → Result RuntimeError h.DigestIdentifier
  unfolding create_secure_wasmtime_config
  engine_fingerprint hash platform runtime =
      map_failure (serialization_error "engine fingerprint") (
        h.hash_borsh hash (
          h.finish (
            h.precompile_compatibility_hash platform
              (create_secure_wasmtime_config runtime.limits))))
