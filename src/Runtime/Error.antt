-- ===== src/Runtime/Error.antt =====
-- src/runtime/error.rs: the errors of the host memory and of the runtime, with their `Display`.
use ave_contract_sdk.Base.{ℕ, ◌≡◌, refl, List, [], ◌∷◌}
use ave_contract_sdk.Base.Machine.{ℤ, negsuc}
use ave_contract_sdk.Base.Text.{String, ◌<>◌, decimal, decimal_ℤ}

-- Errors of the memory manager and of the host functions.
pub data ContractError : Type 0 where
  memory_allocation_failed : String → ContractError
  invalid_pointer : ℕ → ContractError
  write_out_of_bounds : ℕ → ℕ → ContractError
  invalid_length : ℤ → ContractError
  allocation_too_large : ℕ → ℕ → ContractError
  total_memory_exceeded : ℕ → ℕ → ContractError
  allocation_overflow : ContractError
  linker_error : String → String → ContractError

pub data InvalidModuleKind : Type 0 where
  unknown_import_function : String → InvalidModuleKind
  non_function_import : String → InvalidModuleKind
  missing_imports : List String → InvalidModuleKind
  unexpected_import_module : String → String → InvalidModuleKind
  invalid_import_signature : String → String → InvalidModuleKind
  excessive_memory : ℕ → ℕ → InvalidModuleKind

pub data RuntimeError : Type 0 where
  engine_creation : String → RuntimeError
  precompile_failed : String → RuntimeError
  deserialization_failed : String → RuntimeError
  invalid_module : InvalidModuleKind → RuntimeError
  entry_point_not_found : String → RuntimeError
  contract_execution_failed : String → RuntimeError
  out_of_fuel : ℕ → RuntimeError
  fuel_limit_error : String → RuntimeError
  instantiation_failed : String → RuntimeError
  memory_allocation_failed : String → RuntimeError
  serialization_error : String → String → RuntimeError

-- `Display` of `ContractError`.
unfoldable pub contract_error_text : ContractError → String
unfolding decimal decimal_ℤ
contract_error_text (ContractError.memory_allocation_failed details) =
    "memory allocation failed: " <> details
contract_error_text (invalid_pointer pointer) = "invalid pointer: " <> decimal pointer
contract_error_text (write_out_of_bounds offset size) =
    "write out of bounds: offset " <> decimal offset <> " >= allocation size " <> decimal size
contract_error_text (invalid_length len) = "invalid length: " <> decimal_ℤ len
contract_error_text (allocation_too_large size max) =
    "allocation size " <> decimal size <> " exceeds maximum of " <> decimal max <> " bytes"
contract_error_text (total_memory_exceeded total max) =
    "total memory " <> decimal total <> " exceeds maximum of " <> decimal max <> " bytes"
contract_error_text allocation_overflow = "memory allocation would overflow"
contract_error_text (linker_error function details) =
    "linker error [" <> function <> "]: " <> details

-- `missing.join(", ")`
unfoldable pub join : List String → String
join [] = ""
join (x ∷ []) = x
join (x ∷ y ∷ ys) = x <> ", " <> join (y ∷ ys)

-- `Display` of `InvalidModuleKind`.
unfoldable pub invalid_module_text : InvalidModuleKind → String
unfolding join decimal
invalid_module_text (unknown_import_function name) =
    "module has function '" <> name <> "' that is not contemplated in the SDK"
invalid_module_text (non_function_import import_type) =
    "module has a '" <> import_type <> "' import that is not a function"
invalid_module_text (missing_imports missing) = "module is missing SDK imports: " <> join missing
invalid_module_text (unexpected_import_module module_name name) =
    "module imports '" <> name <> "' from '" <> module_name <> "', expected module 'env'"
invalid_module_text (invalid_import_signature name expected) =
    "module imports '" <> name <> "' with an invalid signature, expected " <> expected
invalid_module_text (excessive_memory min_bytes max_bytes) =
    "module requires "
    <> decimal min_bytes
    <> " minimum memory bytes, above the "
    <> decimal max_bytes
    <> " instantiable on any node"

-- `Display` of `RuntimeError`.
unfoldable pub runtime_error_text : RuntimeError → String
unfolding invalid_module_text decimal
runtime_error_text (engine_creation e) = "engine creation failed: " <> e
runtime_error_text (precompile_failed e) = "wasm precompile failed: " <> e
runtime_error_text (deserialization_failed e) = "wasm deserialization failed: " <> e
runtime_error_text (invalid_module kind) = "invalid module: " <> invalid_module_text kind
runtime_error_text (entry_point_not_found function) = "entry point not found: " <> function
runtime_error_text (contract_execution_failed e) = "contract execution failed: " <> e
runtime_error_text (out_of_fuel consumed) =
    "contract ran out of fuel after consuming " <> decimal consumed <> " units"
runtime_error_text (fuel_limit_error e) = "fuel limit error: " <> e
runtime_error_text (instantiation_failed e) = "instantiation failed: " <> e
runtime_error_text (RuntimeError.memory_allocation_failed e) = "memory allocation failed: " <> e
runtime_error_text (serialization_error context details) =
    "serialization error [" <> context <> "]: " <> details

missing_alloc :
    runtime_error_text (invalid_module (missing_imports ("alloc" ∷ [])))
    ≡ "invalid module: module is missing SDK imports: alloc"
unfolding runtime_error_text
missing_alloc = refl

negative_length : contract_error_text (invalid_length (negsuc 0)) ≡ "invalid length: -1"
unfolding contract_error_text
negative_length = refl
