-- ===== src/Runtime/Imports.antt =====
-- src/runtime/contract_runtime.rs: a module must import exactly the functions of the SDK.
pub mod Exact
pub mod Blame
use mathlib.Core.List.{Perm}
use ave_contract_sdk.Base.{
  ℕ, Bool, true, false, ◌&&◌, ◌||◌, not, Option, none, some, List, [], ◌∷◌, map, length, ◌==◌,
  if◌then◌else◌,
}
use ave_contract_sdk.Base.Text.{String, ◌=s=◌}
use ave_contract_sdk.Base.Result.{Result, ok, err, ok_or, ◌>>=◌, ◌>>◌}
use ave_contract_sdk.Runtime.Error.{
  RuntimeError, invalid_module, InvalidModuleKind, unknown_import_function, non_function_import,
  missing_imports, unexpected_import_module, invalid_import_signature,
}

-- wasmtime's `ValType`; what a reference type refers to is not looked at.
pub data ValType : Type 0 where
  i32 i64 f32 f64 v128 : ValType
  ref : ℕ → ValType

-- wasmtime's `ExternType`: a function, or another import with its `Debug` text.
pub data ExternType : Type 0 where
  func : List ValType → List ValType → ExternType
  other : String → ExternType

pub record Import : Type 0 where
  pub module_name : String
  pub name : String
  pub ty : ExternType

abbrev pub sdk_functions : List String
sdk_functions = "pointer_len" ∷ "alloc" ∷ "read_bytes" ∷ "write_bytes" ∷ []

pub record Signature : Type 0 where
  pub params : List ValType
  pub results : List ValType
  pub text : String

abbrev pub expected_sdk_signature : String → Option Signature
expected_sdk_signature name =
    if name =s= "pointer_len" || name =s= "alloc"
    then some (record { params = i32 ∷ []; results = i32 ∷ []; text = "(param i32) (result i32)" })
    else if name =s= "read_bytes" || name =s= "write_bytes"
    then some (record { params = i32 ∷ i32 ∷ i32 ∷ []; results = []; text = "(param i32 i32 i32)" })
    else none

abbrev pub valtype_eq : ValType → ValType → Bool
valtype_eq i32 i32 = true
valtype_eq i64 i64 = true
valtype_eq f32 f32 = true
valtype_eq f64 f64 = true
valtype_eq v128 v128 = true
valtype_eq (ref a) (ref b) = true
valtype_eq _ _ = false

-- `a.zip(b.iter()).all(…)`
abbrev pub all_eq : List ValType → List ValType → Bool
all_eq (x ∷ a) (y ∷ b) = valtype_eq x y && all_eq a b
all_eq _ _ = true

abbrev pub valtypes_eq : List ValType → List ValType → Bool
valtypes_eq a b = length a == length b && all_eq a b

abbrev pub signature_matches : List ValType → List ValType → Signature → Bool
signature_matches params results expected =
    valtypes_eq params expected.params && valtypes_eq results expected.results

-- `HashSet::remove`: the set without the name, if the name was there.
abbrev pub remove : String → List String → Option (List String)
remove name [] = none
remove name (x ∷ xs) =
    let rest = remove name xs in
    if x =s= name then some xs else elim rest [ none ↦ none | some ys ↦ some (x ∷ ys) ]

abbrev pub check_signature : String → List ValType → List ValType → Result RuntimeError (Unit {0})
check_signature name params results = elim (expected_sdk_signature name) [
  | none ↦ ok tt
  | some expected ↦
      if signature_matches params results expected
      then ok tt
      else err (invalid_module (invalid_import_signature name expected.text))
]

-- `if !pending.remove(name)`
abbrev pub check_name : String → List String → Result RuntimeError (List String)
check_name name pending =
    ok_or (invalid_module (unknown_import_function name)) (remove name pending)

-- The body of the loop: the imports that are still to come, after this one.
abbrev pub check_type : String → ExternType → List String → Result RuntimeError (List String)
check_type name (func params results) pending = do
  check_signature name params results
  check_name name pending
check_type name (other text) pending = err (invalid_module (non_function_import text))

abbrev pub check_import : Import → List String → Result RuntimeError (List String)
check_import im pending =
    if not (im.module_name =s= "env")
    then err (invalid_module (unexpected_import_module im.module_name im.name))
    else check_type im.name im.ty pending

unfoldable pub check_loop : List Import → List String → Result RuntimeError (List String)
check_loop [] pending = ok pending
check_loop (im ∷ imports) pending = do rest ← check_import im pending; check_loop imports rest

-- The order in which a `HashSet` gives up its elements. std leaves it open, and it differs between two
-- runs of one program.
pub record SetOrder : Type 0 where
  pub into_iter : List String → List String
  pub into_iter-Perm : (names : List String) → Perm names (into_iter names)

-- `if !pending_sdk.is_empty()`
abbrev pub none_missing : SetOrder → List String → Result RuntimeError (Unit {0})
none_missing order [] = ok tt
none_missing order (name ∷ names) =
    err (invalid_module (missing_imports (order.into_iter (name ∷ names))))

-- The part of `validate_inner` that looks at the imports.
unfoldable pub check_imports : SetOrder → List Import → Result RuntimeError (Unit {0})
unfolding check_loop
check_imports order imports = do
  pending ← check_loop imports sdk_functions
  none_missing order pending

-- The one import that each name of the SDK stands for.
abbrev pub sdk_import : String → Import
sdk_import name = record {
  module_name = "env";
  name = name;
  ty = elim (expected_sdk_signature name) [ none ↦ func [] [] | some s ↦ func s.params s.results ];
}
