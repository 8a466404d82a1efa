-- ===== src/Checks/Wasm.antt =====
-- The theorems on the scan of a module at a module with one memory.
use ave_contract_sdk.Base.{ℕ, ◌*◌, ◌+◌, ◌≡◌, refl, none, some, List, [], ◌∷◌, arith, length, drop}
use ave_contract_sdk.Base.Result.{ok}
use ave_contract_sdk.Runtime.Wasm.{declared_min_memory_bytes, read_uleb, found}
use ave_contract_sdk.Runtime.Wasm.Uleb.{uleb, read_uleb-uleb}
use ave_contract_sdk.Runtime.Wasm.Encoded.{Section, memory, plain, AreSections, module_bytes}
use ave_contract_sdk.Runtime.Wasm.Exact.{declared_min_memory_bytes-module_bytes}
use ave_contract_sdk.Runtime.Compile.{compile}
use ave_contract_sdk.Runtime.Compile.Sizes.{compile-module_bytes}
use ave_contract_sdk.Checks.Guest.{small_engine}

-- 300 is 172 2 in LEB128.
read_uleb-uleb_example :
    (read_uleb (7 ∷ 172 ∷ 2 ∷ 9 ∷ []) 1 ≡ found (300, 1 + length (uleb 300)))
    × (drop {A = ℕ} (1 + length (uleb 300)) (7 ∷ 172 ∷ 2 ∷ 9 ∷ []) ≡ 9 ∷ [])
unfolding uleb
read_uleb-uleb_example = read_uleb-uleb 300 1 (7 ∷ 172 ∷ 2 ∷ 9 ∷ []) (9 ∷ []) (omega arith) refl

-- A custom section, and two memories: of 3 pages, and of 17 to 20.
abbrev sections : List Section
sections =
    plain 0 (1 ∷ 2 ∷ [])
    ∷ memory (
        record { min_pages = 3; max_pages = none }
        ∷ record { min_pages = 17; max_pages = some 20 }
        ∷ [])
    ∷ []

sections-AreSections : AreSections sections
unfolding uleb
sections-AreSections = (
  λ e. ground (arith, e),
  (omega arith, (((omega arith, (tt, (omega arith, (omega arith, tt))))), (omega arith, tt))),
)

declared_min_memory_bytes-module_bytes_example :
    declared_min_memory_bytes (module_bytes sections) ≡ some (17 * 65_536)
unfolding module_bytes uleb
declared_min_memory_bytes-module_bytes_example =
    declared_min_memory_bytes-module_bytes sections sections-AreSections (omega arith)

compile-module_bytes_example :
    compile small_engine (module_bytes sections) ≡ ok (tt, module_bytes sections)
unfolding module_bytes uleb
compile-module_bytes_example =
    compile-module_bytes small_engine sections sections-AreSections (omega arith)
