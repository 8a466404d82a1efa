-- ===== src/Checks/Executable.antt =====
-- A validated module, executed under the limits of another machine.
use ave_contract_sdk.Base.{◌≡◌, true, none, some}
use ave_contract_sdk.Base.Result.{err}
use ave_contract_sdk.Runtime.Error.{entry_point_not_found}
use ave_contract_sdk.Runtime.Config.{limits_of_spec}
use ave_contract_sdk.Runtime.Execute.{execute}
use ave_contract_sdk.Runtime.Validate.Executable.{HasStaticExports, execute-validated}
use ave_contract_sdk.Checks.Host.{own_order, small_wire, byte_json, counting}
use ave_contract_sdk.Checks.HostileInit.{zeros_engine, validated_zeros}

zeros-HasStaticExports : HasStaticExports zeros_engine
zeros-HasStaticExports = record {
  static = λ compiled m m' fuel fuel' i i' made made' missing. absurd (cc);
}

execute-validated_example : ¬ (
    (execute counting small_wire byte_json zeros_engine
      (limits_of_spec (some (record { ram_mb = 256; cpu_cores = 1 })))
      tt
      2
      0
      5
      true
      1
      none).0
    ≡ err (entry_point_not_found "main_function"))
execute-validated_example =
    execute-validated zeros_engine small_wire byte_json counting (limits_of_spec none)
      (limits_of_spec (some (record { ram_mb = 256; cpu_cores = 1 }))) tt 2 2 0 5 own_order true 1
      none "main_function" zeros-HasStaticExports validated_zeros
