-- ===== src/Runtime/Imports/Exact.antt =====
-- Which import lists pass.
use mathlib.Core.Logic.{∥∥₁_elim}
use mathlib.Core.Path.{subst}
use mathlib.Core.Logic.Or
use mathlib.Core.HLevel.{⊥_prop, ×_prop}
use mathlib.Core.List.{
  Mem, Perm, mem-cons, mem-cons_self, mem-map, not-mem-nil, append-nil, perm-cons, Mem-prop,
}
use mathlib.Core.List.Perm
use text.Mathlib.TextEquality.{eq_iff, IsScalar-prop}
use ave_contract_sdk.Base.{
  ◌≡◌, ◌≢◌, ◌↔◌, refl, ap, true, none, some, List, [], ◌∷◌, ◌++◌, map, All, arith, Bool-cases,
  Option-cases, inl, inr, ◌⊎◌,
}
use ave_contract_sdk.Base.Text.{String, ◌=s=◌}
use ave_contract_sdk.Base.Result.{Result, ok, >>=-ok}
use ave_contract_sdk.Runtime.Error.{RuntimeError}
use ave_contract_sdk.Runtime.Imports.{
  ValType, i32, ExternType, func, other, Import, Signature, sdk_functions, expected_sdk_signature,
  valtypes_eq, remove, check_type, check_import, check_loop, SetOrder, check_imports, sdk_import,
  none_missing,
}

abbrev pub sdk_imports : List Import
sdk_imports = map sdk_import sdk_functions

-- The sdk imports pass in their own order.
own_order : (order : SetOrder) → check_imports order sdk_imports ≡ ok tt
unfolding check_imports
own_order order = refl

valtypes_eq_sound : (a s : List ValType) → All (λ t. t ≡ i32) s → valtypes_eq a s ≡ true → a ≡ s
valtypes_eq_sound [] [] h e = refl
valtypes_eq_sound [] (y ∷ s) h e = ground arith
valtypes_eq_sound (x ∷ a) [] h e = ground arith
valtypes_eq_sound (i32 ∷ a) (y ∷ s) h e = ground (arith, valtypes_eq_sound a s)
valtypes_eq_sound (_ ∷ a) (y ∷ s) h e = ground arith

-- The name is one of the SDK's.
abbrev pub Known : String → Type 0
Known name = expected_sdk_signature name ≢ none

-- How a removal that succeeds went.
remove-cons :
    (name x : String) (xs ys : List String)
    → remove name (x ∷ xs) ≡ some ys
    → ((x ≡ name) × (xs ≡ ys)) ⊎ ((zs : List String) × (remove name xs ≡ some zs) × (ys ≡ x ∷ zs))
remove-cons name x xs ys e = elim (Bool-cases (x =s= name)) [
  | inl same ↦ inl (ground (arith, eq_iff x name), ground arith)
  | inr differ ↦ elim (Option-cases (remove name xs)) [
    | inl gone ↦ absurd (ground arith)
    | inr (zs, found) ↦ inr (zs, found, ground arith)
  ]
]

remove-nil : (name : String) (ys : List String) → remove name [] ≡ some ys → ⊥
remove-nil name ys e = cc

pub remove-perm :
    (name : String) (xs ys : List String) → remove name xs ≡ some ys → Perm xs (name ∷ ys)
remove-perm name [] ys e = absurd (remove-nil name ys e)
remove-perm name (x ∷ xs) ys e = elim (remove-cons name x xs ys e) [
  | inl (same, rest) ↦ rw (same, rest) (Perm.refl (name ∷ ys))
  | inr (zs, found, behind) ↦
      rw behind (Perm.trans (Perm.cons x (remove-perm name xs zs found)) (Perm.swap name x zs))
]

pub remove-none : (name : String) (xs : List String) → remove name xs ≡ none → Mem name xs → ⊥
remove-none name [] e m = not-mem-nil m
remove-none name (x ∷ xs) e m =
    Or.elim ⊥_prop (mem-cons.0 m) (λ same. ground (arith, eq_iff x name))
      (λ behind. remove-none name xs (ground (arith, eq_iff x name)) behind)

pub remove-Known :
    (name : String) (xs ys : List String)
    → remove name xs ≡ some ys
    → All Known xs
    → Known name × All Known ys
remove-Known name [] ys e k = absurd (remove-nil name ys e)
remove-Known name (x ∷ xs) ys e k = elim (remove-cons name x xs ys e) [
  | inl (same, rest) ↦ (rw same at k.0, rw rest at k.1)
  | inr (zs, found, behind) ↦
      let (known, all) = remove-Known name xs zs found k.1 in (known, rw behind (k.0, all))
]

expected_i32 :
    (name : String) (s : Signature)
    → expected_sdk_signature name ≡ some s
    → All (λ t. t ≡ i32) s.params × All (λ t. t ≡ i32) s.results
expected_i32 name s e = ground arith

check_type_sound :
    (name : String) (ty : ExternType) (pending rest : List String)
    → All Known pending
    → check_type name ty pending ≡ ok rest
    → (ty ≡ (sdk_import name).ty) × (remove name pending ≡ some rest)
check_type_sound name (other text) pending rest k e = ground arith
check_type_sound name (func ps rs) pending rest k e = (same, removed)
  where
    removed : remove name pending ≡ some rest
    removed = ground arith

    same : func ps rs ≡ (sdk_import name).ty
    same = elim (Option-cases (expected_sdk_signature name)) [
      | inl unknown ↦ absurd ((remove-Known name pending rest removed k).0 unknown)
      | inr (s, expected) ↦
          let (params_i32, results_i32) = expected_i32 name s expected in
          rw (expected, sdk_import)
            (ground (
              arith,
              expected,
              valtypes_eq_sound ps s.params params_i32,
              valtypes_eq_sound rs s.results results_i32,
            ))
    ]

-- What one import that passes was.
pub check_import_sound :
    (im : Import) (pending rest : List String)
    → All Known pending
    → check_import im pending ≡ ok rest
    → (im ≡ sdk_import im.name) × (remove im.name pending ≡ some rest)
check_import_sound im pending rest k e =
    ground (arith, eq_iff im.module_name "env", check_type_sound im.name im.ty pending rest k)

check_import_sdk :
    (name : String) (pending rest : List String)
    → remove name pending ≡ some rest
    → check_import (sdk_import name) pending ≡ ok rest
check_import_sdk name pending rest e = ground arith

Import-set : IsSet Import
Import-set = hlevel IsScalar-prop

ok-injective :
    {a b : List String} → ◌≡◌ {A = Result RuntimeError (List String)} (ok a) (ok b) → a ≡ b
ok-injective e = cc

pub check_loop_sound :
    (imports : List Import) (pending rest : List String)
    → All Known pending
    → check_loop imports pending ≡ ok rest
    → Perm (map sdk_import pending) (imports ++ map sdk_import rest)
unfolding check_loop
check_loop_sound [] pending rest k e = rw (ok-injective e) (Perm.refl (map sdk_import rest))
check_loop_sound (im ∷ imports) pending rest k e =
    let (mid, first, later) = >>=-ok (check_import im pending) (check_loop imports) e in
    let (is_sdk, removed) = check_import_sound im pending mid k first in
    let known = (remove-Known im.name pending mid removed k).1 in
    Perm.trans (Perm.map sdk_import (remove-perm im.name pending mid removed))
      (rw (← is_sdk) (Perm.cons im (check_loop_sound imports mid rest known later)))

-- An SDK import among those pending is pending by its name.
named :
    (im : Import) (pending : List String)
    → Mem im (map sdk_import pending)
    → Mem im.name pending × (sdk_import im.name ≡ im)
named im pending m = ∥∥₁_elim (mem-map.0 m) (×_prop Mem-prop (Import-set _ _)) λ t.
    let (name, there, same) = t in
    let e : name ≡ im.name = ap (λ (j : Import). j.name) same in
    (subst (λ n. Mem n pending) e there, subst (λ n. sdk_import n ≡ im) e same)

check_loop_complete :
    (imports : List Import) (pending : List String)
    → Perm imports (map sdk_import pending)
    → check_loop imports pending ≡ ok []
unfolding check_loop
check_loop_complete [] [] p = refl
check_loop_complete [] (x ∷ xs) p = absurd (nil_ne_cons (Perm.nil-eq p))
  where
    nil_ne_cons : ◌≡◌ {A = List Import} [] (sdk_import x ∷ map sdk_import xs) → ⊥
    nil_ne_cons h = cc
check_loop_complete (im ∷ imports) pending p =
    let (in_pending, is_sdk) = named im pending ((Perm.mem_iff p).0 mem-cons_self) in
    elim (Option-cases (remove im.name pending)) [
      | inl gone ↦ absurd (remove-none im.name pending gone in_pending)
      | inr (mid, removed) ↦
          let q = Perm.trans p (Perm.map sdk_import (remove-perm im.name pending mid removed)) in
          let r : Perm imports (map sdk_import mid) =
            (perm-cons im).0 (subst (λ j. Perm (im ∷ imports) (j ∷ map sdk_import mid)) is_sdk q) in
          let passes : check_import im pending ≡ ok mid =
            subst (λ j. check_import j pending ≡ ok mid) is_sdk
              (check_import_sdk im.name pending mid removed) in
          rw passes (check_loop_complete imports mid r)
    ]

none_missing_nil :
    (order : SetOrder) (rest : List String) → none_missing order rest ≡ ok tt → rest ≡ []
none_missing_nil order [] e = refl
none_missing_nil order (x ∷ xs) e = ground arith

pub sdk-Known : All Known sdk_functions
sdk-Known = (λ e. ground arith, (λ e. ground arith, (λ e. ground arith, (λ e. ground arith, tt))))

-- The imports that pass are those of the SDK, each exactly once, with its signature, in any order.
pub check_imports_iff :
    (order : SetOrder) (imports : List Import)
    → (check_imports order imports ≡ ok tt) ↔ Perm imports sdk_imports
unfolding check_imports
check_imports_iff order imports = (sound, complete)
  where
    sound : check_imports order imports ≡ ok tt → Perm imports sdk_imports
    sound e =
        let (rest, looped, empty) =
          >>=-ok (check_loop imports sdk_functions) (none_missing order) e in
        let p = check_loop_sound imports sdk_functions rest sdk-Known looped in
        Perm.symm (rw (none_missing_nil order rest empty, append-nil) at p)

    complete : Perm imports sdk_imports → check_imports order imports ≡ ok tt
    complete p = rw (check_loop_complete imports sdk_functions p)
