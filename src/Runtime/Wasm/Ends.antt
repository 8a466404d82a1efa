-- ===== src/Runtime/Wasm/Ends.antt =====
-- The scan of a module ends on every input, and what it returns is in range.
use Prim.Native.Nat.{bit_and, bit_or}
use ave_contract_sdk.Base.{
  ℕ, zero, suc, ◌+◌, ◌*◌, ◌^◌, ◌≤◌, ◌<◌, ◌≡◌, ◌≢◌, ◌%◌, refl, Bool, true, false, Option, none, some,
  List, arith, length, get_elem?, ltb, ◌==◌, Bool-cases, Option-cases, inl, inr,
}
use ave_contract_sdk.Base.Machine.{checked_add}
use ave_contract_sdk.Runtime.Wasm.{
  Scan, found, malformed, stuck, ◌>>=◌, need, uleb_loop, read_uleb, skip_max, entries_loop,
  scan_section, get_range, scan_round, scan_loop, scan_module, has_prefix, header,
}

abbrev is_stuck : {A : Type 0} → Scan A → Bool
is_stuck (found a) = false
is_stuck malformed = false
is_stuck stuck = true

bind_ends :
    {A B : Type 0} (m : Scan A) (f : A → Scan B)
    → is_stuck m ≡ false
    → ((a : A) → is_stuck (f a) ≡ false)
    → is_stuck (m >>= f) ≡ false
bind_ends (found a) f h k = k a
bind_ends malformed f h k = refl
bind_ends stuck f h k = h

uleb_loop_ends :
    (rounds : ℕ) (bytes : List ℕ) (pos shift result : ℕ)
    → is_stuck (uleb_loop rounds bytes pos shift result) ≡ false
unfolding uleb_loop
uleb_loop_ends zero bytes pos shift result = refl
uleb_loop_ends (suc rounds) bytes pos shift result = elim (Option-cases (get_elem? bytes pos)) [
  | inl e ↦ rw e refl
  | inr (byte, e) ↦ ground (
    arith,
    e,
    uleb_loop_ends rounds bytes (pos + 1) (shift + 7)
        (bit_or result (bit_and byte 0x7f * 2 ^ shift % 2 ^ 32)),
  )
]

read_uleb_ends : (bytes : List ℕ) (pos : ℕ) → is_stuck (read_uleb bytes pos) ≡ false
unfolding read_uleb
read_uleb_ends bytes pos = uleb_loop_ends 5 bytes pos 0 0

skip_max_ends : (body : List ℕ) (flags inner : ℕ) → is_stuck (skip_max body flags inner) ≡ false
skip_max_ends body flags inner = ground (arith, read_uleb_ends body inner)

entries_loop_ends :
    (count : ℕ) (body : List ℕ) (inner pages : ℕ)
    → is_stuck (entries_loop count body inner pages) ≡ false
unfolding entries_loop
entries_loop_ends zero body inner pages = refl
entries_loop_ends (suc count) body inner pages =
    bind_ends (read_uleb body inner) _ (read_uleb_ends body inner) λ (flags, i).
      bind_ends (read_uleb body i) _ (read_uleb_ends body i) λ (min_pages, j).
        bind_ends (skip_max body flags j) _ (skip_max_ends body flags j)
          λ k. entries_loop_ends count body k _

scan_section_ends :
    (section_id : ℕ) (body : List ℕ) (pages : ℕ)
    → is_stuck (scan_section section_id body pages) ≡ false
unfolding scan_section
scan_section_ends section_id body pages = elim (Bool-cases (section_id == 5)) [
  | inl e ↦ rw e (
      bind_ends (read_uleb body 0) _ (read_uleb_ends body 0)
        λ (count, inner). entries_loop_ends count body inner pages)
  | inr e ↦ rw e refl
]

-- A number takes a byte at least.
uleb_loop_moves :
    (rounds : ℕ) (bytes : List ℕ) (pos shift result value after : ℕ)
    → uleb_loop rounds bytes pos shift result ≡ found (value, after)
    → pos < after
unfolding uleb_loop
uleb_loop_moves zero bytes pos shift result value after h = ground arith
uleb_loop_moves (suc rounds) bytes pos shift result value after h =
    elim (Option-cases (get_elem? bytes pos)) [
      | inl e ↦ ground (arith, e)
      | inr (byte, e) ↦ ground (
        arith,
        e,
        uleb_loop_moves rounds bytes (pos + 1) (shift + 7)
            (bit_or result (bit_and byte 0x7f * 2 ^ shift % 2 ^ 32)) value after,
      )
    ]

-- The scan has ended, and a value that it found has the property.
abbrev Leads : {A : Type 0} → (A → Type 0) → Scan A → Type 0
Leads P (found a) = P a
Leads P malformed = Unit {0}
Leads P stuck = ⊥

bind-Leads :
    {A B : Type 0} (P : A → Type 0) (Q : B → Type 0) (m : Scan A) (f : A → Scan B)
    → Leads P m
    → ((a : A) → P a → Leads Q (f a))
    → Leads Q (m >>= f)
bind-Leads P Q (found a) f h k = k a h
bind-Leads P Q malformed f h k = tt
bind-Leads P Q stuck f h k = h

need-Leads : {A : Type 0} (o : Option A) → Leads (λ _. Unit {0}) (need o)
need-Leads none = tt
need-Leads (some a) = tt

ends-Leads : {A : Type 0} (m : Scan A) → is_stuck m ≡ false → Leads (λ _. Unit {0}) m
ends-Leads (found a) h = tt
ends-Leads malformed h = tt
ends-Leads stuck h = ground arith

moves-Leads :
    (pos : ℕ) (m : Scan (ℕ × ℕ))
    → is_stuck m ≡ false
    → ((value after : ℕ) → m ≡ found (value, after) → pos < after)
    → Leads (λ (value, after). pos < after) m
moves-Leads pos (found (value, after)) h k = k value after refl
moves-Leads pos malformed h k = tt
moves-Leads pos stuck h k = ground arith

read_uleb-Leads :
    (bytes : List ℕ) (pos : ℕ) → Leads (λ (value, after). pos < after) (read_uleb bytes pos)
unfolding read_uleb
read_uleb-Leads bytes pos =
    moves-Leads pos (uleb_loop 5 bytes pos 0 0) (uleb_loop_ends 5 bytes pos 0 0)
      (uleb_loop_moves 5 bytes pos 0 0)

-- A round that ends well is further on.
scan_round-Leads :
    (wasm : List ℕ) (pos pages : ℕ)
    → Leads (λ (pos', pages'). pos < pos') (scan_round wasm pos pages)
unfolding scan_round
scan_round-Leads wasm pos pages =
    bind-Leads (λ _. Unit {0}) _ (need (get_elem? wasm pos)) _ (need-Leads _)
      λ id _.
        bind-Leads (λ (len, start). pos + 1 < start) _ (read_uleb wasm (pos + 1)) _
          (read_uleb-Leads wasm (pos + 1))
          λ (len, start) moved.
            bind-Leads (λ _. Unit {0}) _ (need (checked_add start len)) _ (need-Leads _)
              λ end _.
                bind-Leads (λ _. Unit {0}) _ (need (get_range wasm start end)) _ (need-Leads _)
                  λ body _.
                    bind-Leads (λ _. Unit {0}) _ (scan_section id body pages) _
                      (ends-Leads _ (scan_section_ends id body pages))
                      λ pages' _. omega (arith, moved)

-- A round for each byte that is left is enough.
scan_loop_ends :
    (fuel : ℕ) (wasm : List ℕ) (pos pages : ℕ)
    → length wasm ≤ pos + fuel
    → Leads (λ _. Unit {0}) (scan_loop fuel wasm pos pages)
unfolding scan_loop
scan_loop_ends zero wasm pos pages h = ground arith
scan_loop_ends (suc fuel) wasm pos pages h = elim (Bool-cases (ltb pos (length wasm))) [
  | inl e ↦ rw e (
      bind-Leads (λ (pos', pages'). pos < pos') (λ _. Unit {0}) (scan_round wasm pos pages) _
        (scan_round-Leads wasm pos pages)
        λ (pos', pages') moved. scan_loop_ends fuel wasm pos' pages' (omega (arith, h, moved)))
  | inr e ↦ rw e tt
]

Leads-not_stuck : {A : Type 0} (m : Scan A) → Leads (λ _. Unit {0}) m → m ≢ stuck
Leads-not_stuck (found a) h e = ground arith
Leads-not_stuck malformed h e = ground arith
Leads-not_stuck stuck h e = h

-- The scan of any sequence of bytes ends: it finds a size or says that the module is malformed, and
-- the rounds that the model allows, one for each byte, never run out.
pub scan_module-ends : (wasm : List ℕ) → scan_module wasm ≢ stuck
unfolding scan_module
scan_module-ends wasm = Leads-not_stuck _ (elim (Bool-cases (has_prefix header wasm)) [
  | inl e ↦ rw e (
      bind-Leads (λ _. Unit {0}) (λ _. Unit {0}) (scan_loop (length wasm) wasm 8 0) _
        (scan_loop_ends (length wasm) wasm 8 0 (omega arith)) λ pages _. tt)
  | inr e ↦ rw e tt
])
