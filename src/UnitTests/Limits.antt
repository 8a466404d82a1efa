-- ===== src/UnitTests/Limits.antt =====
-- The tests of src/runtime/tests.rs on the limits, on the scan of a module and on the texts of errors.
use ave_contract_sdk.Base.{
  ℕ, ◌*◌, ◌≡◌, refl, Bool, true, ◌&&◌, none, some, List, [], ◌∷◌, ◌++◌, ◌==◌,
}
use ave_contract_sdk.Base.Text.{◌=s=◌}
use ave_contract_sdk.Runtime.Error.{
  invalid_module, unexpected_import_module, invalid_import_signature, runtime_error_text,
}
use ave_contract_sdk.Runtime.Config.{build, default, wasm_page_bytes}
use ave_contract_sdk.Runtime.Wasm.{declared_min_memory_bytes}
use ave_contract_sdk.UnitTests.{same_number}

abbrev wasm_limits_build_clamps_values : Bool
wasm_limits_build_clamps_values =
    let limits = build 4096 4 in
    limits.memory_size == 32 * 1024 * 1024 && limits.max_table_elements == 1024

abbrev wasm_limits_build_uses_lower_clamp : Bool
wasm_limits_build_uses_lower_clamp =
    let limits = build 256 1 in
    limits.memory_size == 4 * 1024 * 1024
    && limits.max_total_memory == 3 * 1024 * 1024
    && limits.max_table_elements == 512

abbrev wasm_limits_default_matches_expected : Bool
wasm_limits_default_matches_expected =
    let built = build 4096 2 in
    default.memory_size == built.memory_size && default.max_table_elements == 512

limits_pass :
    (wasm_limits_build_clamps_values ≡ true)
    × (wasm_limits_build_uses_lower_clamp ≡ true)
    × (wasm_limits_default_matches_expected ≡ true)
unfolding build default
limits_pass = (refl, refl, refl)

-- The magic number and the version.
abbrev bare : List ℕ
bare = 0 ∷ 97 ∷ 115 ∷ 109 ∷ 1 ∷ 0 ∷ 0 ∷ 0 ∷ []

abbrev declared_min_memory_parses_memory_section : Bool
declared_min_memory_parses_memory_section =
    same_number (declared_min_memory_bytes (bare ++ 5 ∷ 4 ∷ 1 ∷ 0 ∷ 216 ∷ 4 ∷ []))
      (some (600 * wasm_page_bytes))
    && same_number (declared_min_memory_bytes bare) (some 0)
    && same_number (declared_min_memory_bytes (bare ++ 5 ∷ 4 ∷ 1 ∷ [])) none

scan_passes : declared_min_memory_parses_memory_section ≡ true
unfolding declared_min_memory_bytes
scan_passes = refl

-- Its assertions on whole texts.
abbrev invalid_module_kind_display_wrong_module_and_signature : Bool
invalid_module_kind_display_wrong_module_and_signature =
    runtime_error_text (invalid_module (unexpected_import_module "evil" "alloc"))
      =s= "invalid module: module imports 'alloc' from 'evil', expected module 'env'"
    && runtime_error_text
        (invalid_module (invalid_import_signature "alloc" "(param i32) (result i32)"))
      =s= "invalid module: module imports 'alloc' with an invalid signature, expected (param i32) (result i32)"

texts_pass : invalid_module_kind_display_wrong_module_and_signature ≡ true
unfolding runtime_error_text
texts_pass = refl
