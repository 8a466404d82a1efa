-- ===== src/Runtime/Wasm/Uleb.antt =====
-- What `read_uleb` reads back: the unsigned LEB128 form of a `u32`.
use native.Mathlib.Nat.{div-add-mod}
use native.Mathlib.Numerals.{towards_suc}
use ave_contract_sdk.Base.{
  ℕ, zero, suc, ◌+◌, ◌*◌, ◌/◌, ◌%◌, ◌^◌, ◌≤◌, ◌<◌, ◌≡◌, ap, ◌∙◌, some, List, [], ◌∷◌, ◌++◌, arith,
  length, get_elem?, drop, ltb, if◌then◌else◌, Bool-cases, inl, inr,
}
use ave_contract_sdk.Base.Bits.{group_of, more_of, bit_or_disjoint}
use ave_contract_sdk.Runtime.Wasm.{found, uleb_loop, read_uleb}

-- The groups of seven bits of `v`, lowest first, for `v` below 128 ^ (k + 1). Every group but the
-- last has the top bit set.
unfoldable pub groups : ℕ → ℕ → List ℕ
groups zero v = v ∷ []
groups (suc k) v =
    let rest = groups k (v / 128) in if ltb v 128 then v ∷ [] else (v % 128 + 128) ∷ rest

-- The LEB128 form of a `u32`.
unfoldable pub uleb : ℕ → List ℕ
unfolding groups
uleb v = groups 4 v

-- The bytes from `pos` on.
pub drop_step :
    (bytes : List ℕ) (pos x : ℕ) (xs : List ℕ)
    → drop pos bytes ≡ x ∷ xs
    → (get_elem? bytes pos ≡ some x) × (drop (pos + 1) bytes ≡ xs)
drop_step [] zero x xs e = ground (arith, e)
drop_step [] (suc pos) x xs e = ground (arith, e)
drop_step (y ∷ ys) zero x xs e = ground (arith, e)
drop_step (y ∷ ys) (suc pos) x xs e = ground (arith, drop_step ys pos x xs e)

-- One round on the last group `w`, and on another group `g`.
last_group :
    (rounds : ℕ) (bytes : List ℕ) (pos shift acc w : ℕ)
    → get_elem? bytes pos ≡ some w
    → w < 128
    → acc < 2 ^ shift
    → acc + w * 2 ^ shift < 2 ^ 32
    → uleb_loop (suc rounds) bytes pos shift acc ≡ found (acc + w * 2 ^ shift, pos + 1)
unfolding uleb_loop
last_group rounds bytes pos shift acc w e small below fits =
    ground (arith, e, group_of w, more_of w, bit_or_disjoint shift acc w below)

inner_group :
    (rounds : ℕ) (bytes : List ℕ) (pos shift acc g : ℕ)
    → get_elem? bytes pos ≡ some (g + 128)
    → g < 128
    → acc < 2 ^ shift
    → acc + g * 2 ^ shift < 2 ^ 32
    → uleb_loop (suc rounds) bytes pos shift acc
      ≡ uleb_loop rounds bytes (pos + 1) (shift + 7) (acc + g * 2 ^ shift)
unfolding uleb_loop
inner_group rounds bytes pos shift acc g e small below fits =
    ground (arith, e, group_of (g + 128), more_of (g + 128), bit_or_disjoint shift acc g below)

shift_group : (s : ℕ) → 2 ^ (s + 7) ≡ 2 ^ s * 128
shift_group s = simp towards_suc (omega arith)

-- The lowest group and the others, each at its place.
regroup : (w s : ℕ) → w * 2 ^ s ≡ w % 128 * 2 ^ s + w / 128 * 2 ^ (s + 7)
regroup w s = omega (
  arith,
  ap (λ (t : ℕ). t * 2 ^ s) (div-add-mod w 128),
  ap (λ (t : ℕ). w / 128 * t) (shift_group s),
)

-- An accumulator below its shift stays below the next one.
below_next : (g acc shift : ℕ) → g < 128 → acc < 2 ^ shift → acc + g * 2 ^ shift < 2 ^ (shift + 7)
below_next g acc shift h below = grind (arith, shift_group shift)

uleb_loop-groups :
    (k more w acc shift pos : ℕ) (bytes rest : List ℕ)
    → drop pos bytes ≡ groups k w ++ rest
    → w < 128 ^ suc k
    → acc < 2 ^ shift
    → acc + w * 2 ^ shift < 2 ^ 32
    → (uleb_loop (suc (k + more)) bytes pos shift acc
        ≡ found (acc + w * 2 ^ shift, pos + length (groups k w)))
      × (drop (pos + length (groups k w)) bytes ≡ rest)
unfolding groups
uleb_loop-groups zero more w acc shift pos bytes rest e h below fits =
    let (here, next) = drop_step bytes pos w rest e in
    (last_group (0 + more) bytes pos shift acc w here (omega arith) below fits, next)
uleb_loop-groups (suc k) more w acc shift pos bytes rest e h below fits =
    elim (Bool-cases (ltb w 128)) [
      | inl small ↦
          let (here, next) = drop_step bytes pos w rest (rw small at e) in
          rw small
            (last_group (suc k + more) bytes pos shift acc w here (ground arith) below fits, next)
      | inr large ↦
          let (here, next) =
            drop_step bytes pos (w % 128 + 128) (groups k (w / 128) ++ rest) (rw large at e) in
          let (loop, behind) =
            uleb_loop-groups k more (w / 128) (acc + w % 128 * 2 ^ shift) (shift + 7) (pos + 1)
              bytes rest next (omega arith) (below_next (w % 128) acc shift (omega arith) below)
              (omega (arith, regroup w shift)) in
          let length_suc : pos + 1 + length (groups k (w / 128))
              ≡ pos + suc (length (groups k (w / 128))) =
            omega arith in
          let one_more : suc k + more ≡ suc (k + more) = omega arith in
          let sum : acc + w % 128 * 2 ^ shift + w / 128 * 2 ^ (shift + 7) ≡ acc + w * 2 ^ shift =
            omega (arith, regroup w shift) in
          rw large (
            inner_group (suc k + more) bytes pos shift acc (w % 128) here (omega arith) below
                  (omega (arith, regroup w shift))
                ∙ rw one_more (loop ∙ λ i. found (sum i, length_suc i)),
            rw length_suc at behind,
          )
    ]

-- The LEB128 form of a `u32`, wherever it stands and whatever follows it, is read back as that
-- number, and the position after it is behind its last byte.
pub read_uleb-uleb :
    (v pos : ℕ) (bytes rest : List ℕ)
    → v < 2 ^ 32
    → drop pos bytes ≡ uleb v ++ rest
    → (read_uleb bytes pos ≡ found (v, pos + length (uleb v)))
      × (drop (pos + length (uleb v)) bytes ≡ rest)
unfolding uleb read_uleb
read_uleb-uleb v pos bytes rest h e =
    let one : 0 + v * 2 ^ 0 ≡ v = omega arith in
    let (loop, behind) =
      uleb_loop-groups 4 0 v 0 0 pos bytes rest e (omega arith) (omega arith) (omega arith) in
    (loop ∙ λ i. found (one i, pos + length (groups 4 v)), behind)

pub length-uleb : (v : ℕ) → (0 < length (uleb v)) × (length (uleb v) ≤ 5)
unfolding uleb
length-uleb v = length-groups 4 v
  where
    length-groups : (k w : ℕ) → (0 < length (groups k w)) × (length (groups k w) ≤ suc k)
    length-groups zero w = unfold groups in omega arith
    length-groups (suc k) w = unfold groups in ground (arith, length-groups k (w / 128))
