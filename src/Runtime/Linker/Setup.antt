-- ===== src/Runtime/Linker/Setup.antt =====
-- src/runtime/host.rs: the imports that `generate_linker` defines. Each has the type that wasmtime
-- derives from its closure, where `u32` is an `i32`; what the closures do is in the parent.
use mathlib.Core.List.{Perm}
use ave_contract_sdk.Base.{◌≡◌, ◌↔◌, refl, false, List, [], ◌∷◌, ◌++◌, All}
use ave_contract_sdk.Base.Text.{String, ◌=s=◌}
use ave_contract_sdk.Base.Result.{Result, ok, map_err as map_failure, ◌>>=◌}
use ave_contract_sdk.Runtime.Error.{ContractError, linker_error}
use ave_contract_sdk.Runtime.Imports.{ExternType, func, i32, Import, SetOrder, check_imports}
use ave_contract_sdk.Runtime.Imports.Exact.{sdk_imports, check_imports_iff}

-- `wasmtime::Linker`. `func_wrap` defines a function under two names, of a type, and is refused only
-- where the names are taken.
pub record FunctionLinker : Type 1 where
  pub Linker : Type 0
  pub new : Linker
  pub func_wrap : String → String → ExternType → Linker → Result String Linker
  pub definitions : Linker → List Import
  pub definitions-new : definitions new ≡ []
  pub func_wrap-ok :
      (linker : Linker) (added : Import)
      → All (λ (defined : Import). (defined.name =s= added.name) ≡ false) (definitions linker)
      → (linker' : Linker) × (func_wrap added.module_name added.name added.ty linker ≡ ok linker')
        × (definitions linker' ≡ definitions linker ++ added ∷ [])

module _ (fl : FunctionLinker) where
  -- `.func_wrap("env", name, …).map_err(…)?`
  abbrev pub wrap : String → ExternType → fl.Linker → Result ContractError fl.Linker
  wrap name ty linker = map_failure (linker_error name) (fl.func_wrap "env" name ty linker)

  unfoldable pub generate_linker : Result ContractError fl.Linker
  generate_linker = do
    with_pointer_len ← wrap "pointer_len" (func (i32 ∷ []) (i32 ∷ [])) fl.new
    with_alloc ← wrap "alloc" (func (i32 ∷ []) (i32 ∷ [])) with_pointer_len
    with_read_bytes ← wrap "read_bytes" (func (i32 ∷ i32 ∷ i32 ∷ []) []) with_alloc
    wrap "write_bytes" (func (i32 ∷ i32 ∷ i32 ∷ []) []) with_read_bytes

  wrap-ok :
      (linker : fl.Linker) (defined : List Import) (name : String) (ty : ExternType)
      → fl.definitions linker ≡ defined
      → All (λ (d : Import). (d.name =s= name) ≡ false) defined
      → (linker' : fl.Linker) × (wrap name ty linker ≡ ok linker')
        × (fl.definitions linker'
            ≡ defined ++ record { module_name = "env"; name = name; ty = ty } ∷ [])
  wrap-ok linker defined name ty holds free =
      let (linker', made, left) =
        fl.func_wrap-ok linker (record { module_name = "env"; name = name; ty = ty })
          (rw holds free) in
      (linker', rw made refl, rw holds at left)

  generate_linker-definitions :
      (linker : fl.Linker) × (generate_linker ≡ ok linker) × (fl.definitions linker ≡ sdk_imports)
  unfolding generate_linker
  generate_linker-definitions =
      let (a, ra, da) =
        wrap-ok fl.new [] "pointer_len" (func (i32 ∷ []) (i32 ∷ [])) fl.definitions-new tt in
      let (b, rb, db) = wrap-ok a _ "alloc" (func (i32 ∷ []) (i32 ∷ [])) da (refl, tt) in
      let (c, rc, dc) =
        wrap-ok b _ "read_bytes" (func (i32 ∷ i32 ∷ i32 ∷ []) []) db (refl, (refl, tt)) in
      let (d, rd, dd) =
        wrap-ok c _ "write_bytes" (func (i32 ∷ i32 ∷ i32 ∷ []) []) dc (refl, (refl, (refl, tt))) in
      (d, rw (ra, rb, rc, rd) refl, dd)

  -- The linker is always made, and the imports that a validation demands of a module are exactly the
  -- functions that it defines, each once, in any order.
  pub generate_linker-Perm :
      (linker : fl.Linker) × (generate_linker ≡ ok linker)
      × ((order : SetOrder) (imports : List Import)
          → (check_imports order imports ≡ ok tt) ↔ Perm imports (fl.definitions linker))
  generate_linker-Perm =
      let (linker, made, defined) = generate_linker-definitions in
      (linker, made, λ order imports. rw defined (check_imports_iff order imports))
