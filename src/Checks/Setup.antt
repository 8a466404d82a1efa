-- ===== src/Checks/Setup.antt =====
-- The linker of the small engine.
use mathlib.Core.List.{Perm}
use ave_contract_sdk.Base.{◌≡◌, ◌↔◌, List}
use ave_contract_sdk.Base.Result.{ok}
use ave_contract_sdk.Runtime.Imports.{Import, SetOrder, check_imports}
use ave_contract_sdk.Runtime.Linker.Setup.{generate_linker, generate_linker-Perm}
use ave_contract_sdk.Checks.Guest.{listed}

generate_linker-Perm_example :
    (linker : List Import) × (generate_linker listed ≡ ok linker)
    × ((order : SetOrder) (imports : List Import)
        → (check_imports order imports ≡ ok tt) ↔ Perm imports linker)
generate_linker-Perm_example = generate_linker-Perm listed
