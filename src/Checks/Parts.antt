-- ===== src/Checks/Parts.antt =====
-- The theorems on the parts of the runtime, at small inputs.
use mathlib.Core.List.{Perm}
use ave_contract_sdk.Base.{All, ℕ, ◌≡◌, ◌≢◌, ◌↔◌, refl, true, none, some, List, [], ◌∷◌, arith}
use ave_contract_sdk.Base.Machine.{pos}
use ave_contract_sdk.Base.Result.{ok, err}
use ave_contract_sdk.Sdk.Context.{Context}
use ave_contract_sdk.Sdk.Transfer.{
  validate_host_len, read_and_parse, deserialize, store, get_from_context, write_host_bytes,
  serialize, validate_serialized_len, read_host_bytes,
}
use ave_contract_sdk.Runtime.Error.{ContractError}
use ave_contract_sdk.Runtime.Config.{limits_of_spec, default, build}
use ave_contract_sdk.Runtime.Config.Limits.{IsWithinFleet, limits_of_spec-IsWithinFleet}
use ave_contract_sdk.Runtime.Memory.{
  MemoryManager, from_limits, resize, grown, get_pointer_len, checked_guest_len,
}
use ave_contract_sdk.Runtime.Memory.Inv.{from_limits-IsValid}
use ave_contract_sdk.Runtime.Memory.BlockStore.{
  Call, Reply, pointer, bytes, done, number, failed, alloc, read_data, write_bytes, write_bytes_at,
}
use ave_contract_sdk.Runtime.Memory.Typed.{AreBytes, IsTypedReply, run-IsTypedReply}
use ave_contract_sdk.Runtime.Memory.Refine.{contents, run, run_refines}
use ave_contract_sdk.Runtime.Memory.BlockStore
use ave_contract_sdk.Runtime.Linker.{
  Caller, alloc_import, write_bytes_import, read_bytes_import, pointer_len_import,
}
use ave_contract_sdk.Runtime.Linker.Safe.{
  Keeps, begin, and_then, calls_alloc, calls_write_bytes, computes, Reach-Keeps,
}
use ave_contract_sdk.Runtime.Imports.{check_imports}
use ave_contract_sdk.Runtime.Imports.Exact.{sdk_imports, check_imports_iff}
use ave_contract_sdk.Runtime.Wasm.{
  scan_module, scan_loop, scan_round, scan_section, read_uleb, uleb_loop, entries_loop, stuck,
  header, declared_min_memory_bytes,
}
use ave_contract_sdk.Runtime.Wasm.Ends.{scan_module-ends}
use ave_contract_sdk.Runtime.Compile.{
  IsWithinFloor, compile, load_precompiled, compile-load_precompiled,
}
use ave_contract_sdk.Runtime.Engine.{Finished, out_of_fuel_trap}
use ave_contract_sdk.Runtime.Staging.{generate_context, write_contract_data}
use ave_contract_sdk.Runtime.Memory
use ave_contract_sdk.Runtime.Validate.{validate, validate_inner, check_init_result, run_init_check}
use ave_contract_sdk.Runtime.Validate.Accepted.{Accepted, validate-Accepted}
use ave_contract_sdk.Runtime.Linker.Guest.{
  linked_read_bytes, linked_pointer_len, linked_alloc, linked_write_bytes,
}
use ave_contract_sdk.Sdk.Contract.{check_init_data, try_check_init_data}
use ave_contract_sdk.Example.Counters.{State, StateEvent, mod_three}
use ave_contract_sdk.Checks.Host.{own_order, byte_memory, small_wire, byte_json}
use ave_contract_sdk.Checks.Guest.{started, small_engine}

abbrev fresh_manager : MemoryManager
fresh_manager = from_limits (limits_of_spec none)

abbrev calls : List Call
calls =
    alloc 3 ∷ write_bytes_at 0 1 (7 ∷ 8 ∷ []) ∷ read_data 0 ∷ write_bytes_at 0 2 (7 ∷ 8 ∷ []) ∷ []

run_refines_example : run calls fresh_manager ≡ BlockStore.run calls (contents fresh_manager)
run_refines_example = run_refines calls fresh_manager (from_limits-IsValid none)

fresh-AreBytes : AreBytes fresh_manager.memory
unfolding from_limits
fresh-AreBytes = tt

run-IsTypedReply_example : All IsTypedReply (run calls fresh_manager)
run-IsTypedReply_example =
    run-IsTypedReply calls fresh_manager (from_limits-IsValid none) fresh-AreBytes
      (tt, ((omega arith, (omega arith, tt)), (tt, ((omega arith, (omega arith, tt)), tt))))

block_calls :
    BlockStore.run calls (record { blocks = λ q. none; top = 0; max_single = 100; max_total = 300 })
    ≡ (pointer 0
        ∷ done
        ∷ bytes (0 ∷ 7 ∷ 8 ∷ [])
        ∷ failed (ContractError.write_out_of_bounds 4 3)
        ∷ [])
unfolding BlockStore.run BlockStore.step
block_calls = refl

-- A guest that allocates a block, then writes its own bytes there.
abbrev allocated : Caller (List ℕ)
allocated = (alloc_import byte_memory 2 (started fresh_manager)).1

abbrev filled : Caller (List ℕ)
filled = record allocated { export = some (5 ∷ 6 ∷ []) }

Reach-Keeps_example :
    Keeps fresh_manager (write_bytes_import byte_memory (pos 0) (pos 0) (pos 2) filled).1.manager
Reach-Keeps_example =
    Reach-Keeps byte_memory (started fresh_manager)
      (write_bytes_import byte_memory (pos 0) (pos 0) (pos 2) filled).1 (from_limits-IsValid none)
      (and_then
        (and_then (and_then begin (calls_alloc 2 (started fresh_manager)))
          (computes (5 ∷ 6 ∷ []) allocated))
        (calls_write_bytes (pos 0) (pos 0) (pos 2) filled))

check_imports_iff_example :
    (check_imports own_order sdk_imports ≡ ok tt) ↔ Perm sdk_imports sdk_imports
check_imports_iff_example = check_imports_iff own_order sdk_imports

limits_of_spec-IsWithinFleet_example : IsWithinFleet (build 256 1)
unfolding limits_of_spec
limits_of_spec-IsWithinFleet_example =
    limits_of_spec-IsWithinFleet (some (record { ram_mb = 256; cpu_cores = 1 }))

scan_module-ends_example : scan_module header ≢ stuck
scan_module-ends_example = scan_module-ends header

compiled_header : compile small_engine header ≡ ok (tt, header)
unfolding compile declared_min_memory_bytes scan_module scan_loop scan_round scan_section read_uleb
    uleb_loop entries_loop
compiled_header = refl

compile-load_precompiled_example :
    IsWithinFloor (declared_min_memory_bytes header)
    × (load_precompiled small_engine header ≡ ok tt)
compile-load_precompiled_example =
    compile-load_precompiled small_engine header header tt compiled_header

abbrev three : Context StateEvent
three = record { event = mod_three 50; is_owner = true }

abbrev zeros : State
zeros = record { one = 0; two = 0; three = 0 }

abbrev exhausted : Finished
exhausted = record {
  call_result = err (out_of_fuel_trap "all fuel consumed");
  manager = fresh_manager;
  fuel_left = some 0;
  memory_pages = some 17;
}

validated : validate small_wire byte_json small_engine own_order (limits_of_spec none) tt 2 ≡ ok tt
unfolding validate validate_inner check_init_result run_init_check generate_context
    write_contract_data from_limits limits_of_spec default build Memory.alloc Memory.write_bytes_at
    Memory.write_bytes Memory.read_data Memory.read_bytes resize grown get_pointer_len
    checked_guest_len check_init_data try_check_init_data read_and_parse deserialize store
    get_from_context write_host_bytes serialize validate_serialized_len validate_host_len
    read_host_bytes linked_read_bytes linked_pointer_len linked_alloc linked_write_bytes
    pointer_len_import alloc_import read_bytes_import write_bytes_import check_imports
validated = refl

validate-Accepted_example : Accepted small_wire byte_json small_engine (limits_of_spec none) tt 2
validate-Accepted_example =
    validate-Accepted small_wire byte_json small_engine (limits_of_spec none) tt 2 own_order
      validated
