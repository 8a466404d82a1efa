-- ===== src/Runtime/Config.antt =====
-- src/runtime/config.rs: the limits that a machine gets, and the settings of the engine.
pub mod Limits
use ave_contract_sdk.Base.{
  ℕ, ◌*◌, ◌/◌, ◌%◌, ◌^◌, ◌≡◌, refl, Bool, true, false, Option, none, some, min, max,
}
use ave_contract_sdk.Base.Machine.{saturating_mul}

pub record ResolvedMachineSpec : Type 0 where
  pub ram_mb : ℕ
  pub cpu_cores : ℕ

pub record WasmLimits : Type 0 where
  pub max_wasm_stack : ℕ
  pub memory_size : ℕ
  pub max_single_alloc : ℕ
  pub max_total_memory : ℕ
  pub max_table_elements : ℕ
  pub aggressive_compilation : Bool

abbrev pub mib : ℕ
mib = 1024 * 1024

abbrev pub max_memory_bytes : ℕ
max_memory_bytes = 32 * 1024 * 1024

abbrev pub min_fleet_memory_bytes : ℕ
min_fleet_memory_bytes = 4 * 1024 * 1024

abbrev pub wasm_page_bytes : ℕ
wasm_page_bytes = 65_536

abbrev pub max_fuel : ℕ
max_fuel = 10_000_000

abbrev pub max_fuel_compilation : ℕ
max_fuel_compilation = 50_000_000

-- `x.clamp(lo, hi)`
abbrev pub clamp : ℕ → ℕ → ℕ → ℕ
clamp x lo hi = min (max x lo) hi

-- `WasmLimits::build`. `usize` has 64 bits, so the conversions from `u64` keep the value.
-- `256 * cores` is an unchecked product: in a release build it wraps at 2 ^ 64.
unfoldable pub build : ℕ → ℕ → WasmLimits
build ram_mb cpu_cores = record {
  max_wasm_stack = mib;
  memory_size =
      clamp (saturating_mul (ram_mb / 512) (4 * 1024 * 1024)) min_fleet_memory_bytes
        max_memory_bytes;
  max_single_alloc = clamp (max_total / 3) mib (8 * 1024 * 1024);
  max_total_memory = max_total;
  max_table_elements = min (256 * max cpu_cores 2 % 2 ^ 64) 2_048;
  aggressive_compilation = false;
}
  where
    max_total : ℕ
    max_total =
        clamp (saturating_mul (ram_mb / 512) (3 * 1024 * 1024)) (3 * 1024 * 1024) (24 * 1024 * 1024)

-- `WasmLimits::default`
unfoldable pub default : WasmLimits
unfolding build
default = build 4_096 2

-- `spec.map_or_else(WasmLimits::default, |s| WasmLimits::build(s.ram_mb, s.cpu_cores))`
unfoldable pub limits_of_spec : Option ResolvedMachineSpec → WasmLimits
unfolding default build
limits_of_spec none = default
limits_of_spec (some s) = build s.ram_mb s.cpu_cores

pub data OptLevel : Type 0 where
  speed : OptLevel

-- The settings that `create_secure_wasmtime_config` makes on a wasmtime `Config`.
pub record EngineConfig : Type 0 where
  pub consume_fuel : Bool
  pub max_wasm_stack : ℕ
  pub cranelift_opt_level : OptLevel
  pub cranelift_nan_canonicalization : Bool

unfoldable pub create_secure_wasmtime_config : WasmLimits → EngineConfig
create_secure_wasmtime_config limits = record {
  consume_fuel = true;
  max_wasm_stack = limits.max_wasm_stack;
  cranelift_opt_level = speed;
  cranelift_nan_canonicalization = true;
}

small_machine : (build 256 1).max_table_elements ≡ 512
unfolding build
small_machine = refl
