-- ===== src/Checks/Calls.antt =====
-- The calls of the contract that adds, on a host that gives lengths and pointers of its own.
use ave_contract_sdk.Base.{◌≡◌, refl, List, [], ◌∷◌}
use ave_contract_sdk.Base.Machine.{pos, negsuc}
use ave_contract_sdk.Base.Result.{ok}
use ave_contract_sdk.Sdk.Extern.{Extern}
use ave_contract_sdk.Sdk.Transfer.{
  read_and_parse, get_from_context, validate_host_len, store, validate_serialized_len,
}
use ave_contract_sdk.Sdk.Contract.{execute_contract, check_init_data}
use ave_contract_sdk.Sdk.Traced.{Call, traced, IsSafe}
use ave_contract_sdk.Sdk.Traced.Runs.{Returned}
use ave_contract_sdk.Sdk.Traced.Safe.{execute_contract-IsSafe, check_init_data-IsSafe}
use ave_contract_sdk.Checks.Host.{small_wire, byte_json}
use ave_contract_sdk.Checks.Guest.{adds, init_accepts}

-- It gives every pointer the length 5, and every result the pointer -1.
abbrev odd_host : Extern
odd_host = record {
  Trap = Unit {0};
  State = Unit {0};
  read_bytes = λ p buffer len s. (ok (1 ∷ 0 ∷ 0 ∷ 0 ∷ 9 ∷ []), s);
  pointer_len = λ p s. (ok (pos 5), s);
  alloc = λ len s. (ok (negsuc 0), s);
  write_bytes = λ p bytes len s. (ok tt, s);
}

-- It gives every pointer a negative length.
abbrev negative_host : Extern
negative_host = record odd_host { pointer_len = λ p s. (ok (negsuc 4), s) }

odd_returned :
    (execute_contract odd_host small_wire byte_json byte_json
      (pos 1)
      (pos 2)
      (pos 3)
      (pos 1)
      adds
      tt).0
    ≡ ok 4_294_967_295
unfolding execute_contract read_and_parse get_from_context validate_host_len store
    validate_serialized_len
odd_returned = refl

execute_contract-IsSafe_example :
    let (r, s') =
      execute_contract odd_host small_wire byte_json byte_json
        (pos 1)
        (pos 2)
        (pos 3)
        (pos 1)
        adds
        tt in
    (log : List Call) × (execute_contract
        (traced odd_host)
        small_wire
        byte_json
        byte_json
        (pos 1)
        (pos 2)
        (pos 3)
        (pos 1)
        adds
        ([], tt)
      ≡ (r, (log, s')))
    × IsSafe log
    × Returned r [] log
execute_contract-IsSafe_example =
    execute_contract-IsSafe odd_host small_wire byte_json byte_json adds (pos 1) (pos 2) (pos 3)
      (pos 1) tt

check_init_data-IsSafe_example :
    let (r, s') = check_init_data negative_host small_wire byte_json (pos 1) init_accepts tt in
    (log : List Call) × (check_init_data
        (traced negative_host)
        small_wire
        byte_json
        (pos 1)
        init_accepts
        ([], tt)
      ≡ (r, (log, s')))
    × IsSafe log
    × Returned r [] log
check_init_data-IsSafe_example =
    check_init_data-IsSafe negative_host small_wire byte_json init_accepts (pos 1) tt
