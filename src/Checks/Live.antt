-- ===== src/Checks/Live.antt =====
-- The theorems on what holds after a guest's steps, and on the fingerprint, at small inputs.
use ave_contract_sdk.Base.{
  ℕ, ◌≡◌, Option, none, some, List, [], ◌∷◌, arith, length, replicate, if◌then◌else◌, ◌==◌, ◌&&◌,
  ltb,
}
use ave_contract_sdk.Base.Result.{ok}
use ave_contract_sdk.Runtime.Config.{limits_of_spec, default, build}
use ave_contract_sdk.Runtime.Memory.{from_limits, grown, read_data}
use ave_contract_sdk.Runtime.Memory.Inv.{Fits, from_limits-IsValid}
use ave_contract_sdk.Runtime.Memory.Blocks.{block}
use ave_contract_sdk.Runtime.Linker.{Caller, alloc_import}
use ave_contract_sdk.Runtime.Linker.Safe.{Reach, and_then, begin, calls_alloc}
use ave_contract_sdk.Runtime.Linker.Live.{Reach-alloc_import}
use ave_contract_sdk.Runtime.Compile
use ave_contract_sdk.Runtime.Memory
use ave_contract_sdk.Runtime.Compile.{ContractRuntime}
use ave_contract_sdk.Runtime.Fingerprint.{Hashes}
use ave_contract_sdk.Checks.Host.{byte_memory}
use ave_contract_sdk.Checks.Guest.{started}
use ave_contract_sdk.Checks.Runs.{fresh_manager}

-- A guest that has made a block of two bytes.
abbrev allocated : Caller (List ℕ)
allocated = (alloc_import byte_memory 2 (started fresh_manager)).1

reaches : Reach byte_memory (started fresh_manager) allocated
reaches = and_then begin (calls_alloc 2 (started fresh_manager))

Fits-allocated : Fits 3 allocated.manager
unfolding from_limits limits_of_spec default build alloc_import Memory.alloc grown Memory.resize
Fits-allocated = (omega arith, omega arith)

Reach-alloc_import_example :
    ((alloc_import byte_memory 3 allocated).0 ≡ ok (length allocated.manager.memory))
    × ((q : ℕ)
        → block (alloc_import byte_memory 3 allocated).1.manager q ≡ (
            if q == length allocated.manager.memory && ltb 0 3
            then some (replicate 3 0)
            else block allocated.manager q))
Reach-alloc_import_example =
    Reach-alloc_import byte_memory (started fresh_manager) allocated (from_limits-IsValid none)
      reaches 3 Fits-allocated

abbrev small_hashes : Hashes
small_hashes = record {
  Platform = ℕ;
  precompile_compatibility_hash = λ platform config. platform ∷ [];
  finish = λ bytes. length bytes;
  HashAlgorithm = Unit {0};
  DigestIdentifier = ℕ;
  hash_borsh = λ algorithm n. ok n;
}

abbrev runtime_of : Option (Unit {0}) → ContractRuntime (Unit {0})
runtime_of m = record { limits = limits_of_spec none; metrics = m }
