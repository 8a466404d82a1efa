-- ===== src/Runtime/Wasm.antt =====
-- src/runtime/config.rs: `declared_min_memory_bytes`, which reads the memory section of a module.
pub mod Ends
pub mod Uleb
pub mod Encoded
pub mod Exact
use Prim.Native.Nat.{bit_and, bit_or}
use ave_contract_sdk.Base.{
  ℕ, zero, suc, ◌+◌, ◌-◌, ◌*◌, ◌%◌, ◌^◌, max, Bool, true, false, not, Option, none, some, List, [],
  ◌∷◌, length, get_elem?, slice, ltb, ◌==◌, if◌then◌else◌,
}
use ave_contract_sdk.Base.Machine.{checked_add, saturating_mul}
use ave_contract_sdk.Runtime.Config.{wasm_page_bytes}

-- What a scan finds: a value, no value (`None`), or, in the model only, no more fuel.
pub data Scan (A : Type 0) : Type 0 where
  found : A → Scan A
  malformed : Scan A
  stuck : Scan A

infixl 5 ◌>>=◌
abbrev pub ◌>>=◌ : {A B : Type 0} → Scan A → (A → Scan B) → Scan B
found a >>= f = f a
malformed >>= f = malformed
stuck >>= f = stuck

-- `option?`
abbrev pub need : {A : Type 0} → Option A → Scan A
need none = malformed
need (some a) = found a

-- The rounds of `for shift in (0..35).step_by(7)` that are left. A `u32` loses the bits that are
-- shifted past its 32.
unfoldable pub uleb_loop : ℕ → List ℕ → ℕ → ℕ → ℕ → Scan (ℕ × ℕ)
uleb_loop zero bytes pos shift result = malformed
uleb_loop (suc rounds) bytes pos shift result = need (get_elem? bytes pos) >>= λ byte.
    let result' = bit_or result (bit_and byte 0x7f * 2 ^ shift % 2 ^ 32) in
    let more = uleb_loop rounds bytes (pos + 1) (shift + 7) result' in
    if bit_and byte 0x80 == 0 then found (result', pos + 1) else more

-- `read_uleb`: the number, and the position behind it.
unfoldable pub read_uleb : List ℕ → ℕ → Scan (ℕ × ℕ)
unfolding uleb_loop
read_uleb bytes pos = uleb_loop 5 bytes pos 0 0

-- `if flags & 1 != 0 { read_uleb(body, &mut inner)?; }`
abbrev pub skip_max : List ℕ → ℕ → ℕ → Scan ℕ
skip_max body flags inner =
    if bit_and flags 1 == 0
    then found inner
    else (read_uleb body inner >>= λ (n, after). found after)

-- The entries of a memory section, `count` of them from `inner` on: the greatest minimum.
unfoldable pub entries_loop : ℕ → List ℕ → ℕ → ℕ → Scan ℕ
entries_loop zero body inner max_pages = found max_pages
entries_loop (suc count) body inner max_pages = read_uleb body inner >>= λ (flags, i).
    read_uleb body i >>= λ (min_pages, j).
    skip_max body flags j >>= λ k. entries_loop count body k (max max_pages min_pages)

-- `if section_id == 5 { … }`
unfoldable pub scan_section : ℕ → List ℕ → ℕ → Scan ℕ
unfolding read_uleb entries_loop
scan_section section_id body max_pages =
    if section_id == 5
    then (read_uleb body 0 >>= λ (count, inner). entries_loop count body inner max_pages)
    else found max_pages

-- `wasm.get(a..b)`
abbrev pub get_range : List ℕ → ℕ → ℕ → Option (List ℕ)
get_range wasm a b =
    if ltb b a then none else if ltb (length wasm) b then none else some (slice a (b - a) wasm)

-- One round of `while pos < wasm.len()`: the position behind the section, and the pages so far.
unfoldable pub scan_round : List ℕ → ℕ → ℕ → Scan (ℕ × ℕ)
unfolding read_uleb scan_section
scan_round wasm pos max_pages = need (get_elem? wasm pos) >>= λ section_id.
    read_uleb wasm (pos + 1) >>= λ (section_len, start).
    need (checked_add start section_len) >>= λ end. need (get_range wasm start end) >>= λ body.
    scan_section section_id body max_pages >>= λ pages. found (start + section_len, pages)

unfoldable pub scan_loop : ℕ → List ℕ → ℕ → ℕ → Scan ℕ
unfolding scan_round
scan_loop zero wasm pos max_pages = if ltb pos (length wasm) then stuck else found max_pages
scan_loop (suc fuel) wasm pos max_pages =
    let next = scan_round wasm pos max_pages >>= λ (pos', pages). scan_loop fuel wasm pos' pages in
    if ltb pos (length wasm) then next else found max_pages

abbrev pub header : List ℕ
header = 0 ∷ b'a' ∷ b's' ∷ b'm' ∷ 1 ∷ 0 ∷ 0 ∷ 0 ∷ []

-- Whether the module begins with the magic number and the version.
abbrev pub has_prefix : List ℕ → List ℕ → Bool
has_prefix [] wasm = true
has_prefix (x ∷ xs) [] = false
has_prefix (x ∷ xs) (y ∷ ys) = if y == x then has_prefix xs ys else false

-- Each round takes a byte at least, so a round for each byte is enough.
unfoldable pub scan_module : List ℕ → Scan ℕ
unfolding scan_loop
scan_module wasm =
    if has_prefix header wasm
    then (scan_loop (length wasm) wasm 8 0 >>= λ pages.
        found (saturating_mul pages wasm_page_bytes))
    else malformed

abbrev pub to_option : {A : Type 0} → Scan A → Option A
to_option (found a) = some a
to_option malformed = none
to_option stuck = none

unfoldable pub declared_min_memory_bytes : List ℕ → Option ℕ
unfolding scan_module
declared_min_memory_bytes wasm = to_option (scan_module wasm)
