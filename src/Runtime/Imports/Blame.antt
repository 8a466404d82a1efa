-- ===== src/Runtime/Imports/Blame.antt =====
-- src/runtime/contract_runtime.rs: the imports that a refusal blames.
use mathlib.Core.Logic.Or
use mathlib.Core.List.{Mem, Perm, mem-cons, Mem-prop}
use mathlib.Core.List.Perm
use text.Mathlib.TextEquality.{eq_iff}
use ave_contract_sdk.Base.{
  ◌≡◌, ◌≢◌, refl, ap, false, some, List, [], ◌∷◌, ◌++◌, map, All, arith, Bool-cases, Option-cases,
  inl, inr,
}
use ave_contract_sdk.Base.Text.{String, ◌=s=◌}
use ave_contract_sdk.Base.Result.{ok}
use ave_contract_sdk.Runtime.Error.{
  RuntimeError, invalid_module, InvalidModuleKind, unknown_import_function, non_function_import,
  missing_imports, unexpected_import_module, invalid_import_signature,
}
use ave_contract_sdk.Runtime.Failures.{Fails, Fails-map, bind-Fails}
use ave_contract_sdk.Runtime.Imports.{
  ValType, ExternType, func, other, Import, Signature, sdk_functions, expected_sdk_signature,
  signature_matches, remove, check_signature, check_name, check_type, check_import, check_loop,
  SetOrder, check_imports, sdk_import, none_missing,
}
use ave_contract_sdk.Runtime.Imports.Exact.{
  Known, sdk_imports, remove-perm, remove-none, remove-Known, check_import_sound, check_loop_sound,
  sdk-Known,
}

-- What is wrong with an import, given those before it and the names that were awaited at the start.
abbrev pub Wrong : InvalidModuleKind → List String → List Import → Import → Type 0
Wrong (unexpected_import_module m name) awaited before im =
    (im.module_name ≡ m) × (im.name ≡ name) × (m ≢ "env")
Wrong (non_function_import text) awaited before im = im.ty ≡ other text
Wrong (invalid_import_signature name text) awaited before im =
    (im.name ≡ name)
    × (params results : List ValType) × (expected : Signature) × (im.ty ≡ func params results)
    × (expected_sdk_signature name ≡ some expected)
    × (signature_matches params results expected ≡ false)
    × (text ≡ expected.text)
Wrong (unknown_import_function name) awaited before im =
    (im.name ≡ name)
    × (Mem name awaited → Mem name (map (λ (earlier : Import). earlier.name) before))
Wrong _ awaited before im = ⊥

-- An import of the module that is wrong, while those before it are functions of the SDK, each once.
pub record Offender (kind : InvalidModuleKind) (awaited : List String) (imports : List Import)
    : Type 0 where
  pub before : List Import
  pub im : Import
  pub after : List Import
  pub split : imports ≡ before ++ im ∷ after
  pub left : List String
  pub before_known : Perm (map sdk_import awaited) (before ++ map sdk_import left)
  pub wrong : Wrong kind awaited before im

-- What is missing is what makes the module's imports those of the SDK.
abbrev pub Blames : List Import → InvalidModuleKind → Type 0
Blames imports (missing_imports names) = Perm sdk_imports (imports ++ map sdk_import names)
Blames imports kind = Offender kind sdk_functions imports

abbrev Offends : List String → List Import → RuntimeError → Type 0
Offends awaited imports (invalid_module kind) = Offender kind awaited imports
Offends awaited imports _ = ⊥

abbrev IsWrong : List String → Import → RuntimeError → Type 0
IsWrong awaited im (invalid_module kind) = Wrong kind awaited [] im
IsWrong awaited im _ = ⊥

module _ (im : Import) (params results : List ValType) (awaited : List String) where
  check_signature-Fails :
      im.ty ≡ func params results
      → Fails (IsWrong awaited im) (check_signature im.name params results)
  check_signature-Fails e = elim (Option-cases (expected_sdk_signature im.name)) [
    | inl unknown ↦ rw (unknown, check_signature) tt
    | inr (expected, known) ↦ elim (Bool-cases (signature_matches params results expected)) [
      | inl fits ↦ rw (known, check_signature, fits) tt
      | inr differs ↦
          rw (known, check_signature, differs)
            (refl, params, results, expected, e, known, differs, refl)
    ]
  ]

  check_name-Fails : Fails (IsWrong awaited im) (check_name im.name awaited)
  check_name-Fails = elim (Option-cases (remove im.name awaited)) [
    | inl gone ↦ rw gone (refl, λ there. absurd (remove-none im.name awaited gone there))
    | inr (rest, found) ↦ rw found tt
  ]

check_type-Fails :
    (im : Import) (ty : ExternType) (awaited : List String)
    → im.ty ≡ ty
    → Fails (IsWrong awaited im) (check_type im.name ty awaited)
check_type-Fails im (other text) awaited e = e
check_type-Fails im (func params results) awaited e =
    bind-Fails (IsWrong awaited im) (check_signature im.name params results) _
      (check_signature-Fails im params results awaited e)
      (λ _ _. check_name-Fails im params results awaited)

check_import-Fails :
    (im : Import) (awaited : List String) → Fails (IsWrong awaited im) (check_import im awaited)
check_import-Fails im awaited = elim (Bool-cases (im.module_name =s= "env")) [
  | inl env ↦ rw env (check_type-Fails im im.ty awaited refl)
  | inr differs ↦ rw differs (refl, refl, λ e. ground (arith, eq_iff im.module_name "env"))
]

Wrong-later :
    (kind : InvalidModuleKind) (earlier : Import) (awaited rest : List String)
    (before : List Import) (im : Import)
    → Perm awaited (earlier.name ∷ rest)
    → Wrong kind rest before im
    → Wrong kind awaited (earlier ∷ before) im
Wrong-later (unexpected_import_module m name) earlier awaited rest before im p h = h
Wrong-later (non_function_import text) earlier awaited rest before im p h = h
Wrong-later (invalid_import_signature name text) earlier awaited rest before im p h = h
Wrong-later (unknown_import_function name) earlier awaited rest before im p (same, used) = (
  same,
  λ there.
      Or.elim Mem-prop (mem-cons.0 ((Perm.mem_iff p).0 there)) (λ now. mem-cons.1 (Or.inl now))
        (λ behind. mem-cons.1 (Or.inr (used behind))),
)
Wrong-later _ earlier awaited rest before im p h = h

later :
    (kind : InvalidModuleKind) (im : Import) (imports : List Import) (awaited rest : List String)
    → All Known awaited
    → check_import im awaited ≡ ok rest
    → Offender kind rest imports
    → Offender kind awaited (im ∷ imports)
later kind im imports awaited rest known passed o =
    let (is_sdk, removed) = check_import_sound im awaited rest known passed in
    record {
      before = im ∷ o.before;
      im = o.im;
      after = o.after;
      split = ap (λ more. im ∷ more) o.split;
      left = o.left;
      before_known =
          Perm.trans (Perm.map sdk_import (remove-perm im.name awaited rest removed))
            (rw (← is_sdk) (Perm.cons im o.before_known));
      wrong =
          Wrong-later kind im awaited rest o.before o.im (remove-perm im.name awaited rest removed)
            o.wrong;
    }

Offends-later :
    (im : Import) (imports : List Import) (awaited rest : List String)
    → All Known awaited
    → check_import im awaited ≡ ok rest
    → (e : RuntimeError) → Offends rest imports e
    → Offends awaited (im ∷ imports) e
Offends-later im imports awaited rest known passed (invalid_module kind) h =
    later kind im imports awaited rest known passed h
Offends-later im imports awaited rest known passed _ h = h

Offends-here :
    (im : Import) (imports : List Import) (awaited : List String) (e : RuntimeError)
    → IsWrong awaited im e
    → Offends awaited (im ∷ imports) e
Offends-here im imports awaited (invalid_module kind) h = record {
  before = [];
  im = im;
  after = imports;
  split = refl;
  left = awaited;
  before_known = Perm.refl (map sdk_import awaited);
  wrong = h;
}
Offends-here im imports awaited _ h = h

check_loop-Fails :
    (imports : List Import) (awaited : List String)
    → All Known awaited
    → Fails (Offends awaited imports) (check_loop imports awaited)
unfolding check_loop
check_loop-Fails [] awaited known = tt
check_loop-Fails (im ∷ imports) awaited known =
    bind-Fails (Offends awaited (im ∷ imports)) (check_import im awaited) _
      (Fails-map (Offends-here im imports awaited) (check_import im awaited)
        (check_import-Fails im awaited))
      (λ rest passed.
        Fails-map (Offends-later im imports awaited rest known passed) (check_loop imports rest) (
          check_loop-Fails imports rest
            (remove-Known im.name awaited rest (check_import_sound im awaited rest known passed).1
              known).1))

-- The errors of the loop do not say that imports are missing.
Offends-Blames :
    (P : RuntimeError → Type 0) (imports : List Import)
    → ((kind : InvalidModuleKind) → Blames imports kind → P (invalid_module kind))
    → (e : RuntimeError) → Offends sdk_functions imports e
    → P e
Offends-Blames P imports h (invalid_module (missing_imports names)) o = absurd o.wrong
Offends-Blames P imports h (invalid_module kind) o = h kind o
Offends-Blames P imports h _ o = absurd o

none_missing-Fails :
    (order : SetOrder) (P : RuntimeError → Type 0) (imports : List Import) (rest : List String)
    → ((kind : InvalidModuleKind) → Blames imports kind → P (invalid_module kind))
    → check_loop imports sdk_functions ≡ ok rest
    → Fails P (none_missing order rest)
none_missing-Fails order P imports [] h looped = tt
none_missing-Fails order P imports (name ∷ names) h looped =
    h (missing_imports (order.into_iter (name ∷ names))) (
      Perm.trans (check_loop_sound imports sdk_functions (name ∷ names) sdk-Known looped)
        (Perm.append_left imports (Perm.map sdk_import (order.into_iter-Perm (name ∷ names)))))

pub check_imports-Fails :
    (order : SetOrder) (P : RuntimeError → Type 0) (imports : List Import)
    → ((kind : InvalidModuleKind) → Blames imports kind → P (invalid_module kind))
    → Fails P (check_imports order imports)
unfolding check_imports
check_imports-Fails order P imports h =
    bind-Fails P (check_loop imports sdk_functions) (none_missing order)
      (Fails-map (Offends-Blames P imports h) (check_loop imports sdk_functions)
        (check_loop-Fails imports sdk_functions sdk-Known))
      (λ rest looped. none_missing-Fails order P imports rest h looped)
