-- ===== src/Runtime/Wasm/Exact.antt =====
-- What the scan finds in the binary form of a module.
use ave_contract_sdk.Base.{
  ℕ, zero, suc, ◌+◌, ◌-◌, ◌*◌, ◌^◌, ◌≤◌, ◌<◌, ◌≡◌, refl, sym, ap, ◌∙◌, max, true, Option, none,
  some, List, [], ◌∷◌, ◌++◌, arith, length, drop, take, slice, ltb, drop-append_left,
  take-append_left, drop-drop, length-append, length-drop,
}
use ave_contract_sdk.Base.Machine.{checked_add}
use ave_contract_sdk.Runtime.Config.{wasm_page_bytes}
use ave_contract_sdk.Runtime.Wasm.{
  Scan, found, ◌>>=◌, read_uleb, skip_max, entries_loop, scan_section, get_range, scan_round,
  scan_loop, scan_module, header, declared_min_memory_bytes,
}
use ave_contract_sdk.Runtime.Wasm.Uleb.{uleb, drop_step, read_uleb-uleb, length-uleb}
use ave_contract_sdk.Runtime.Wasm.Encoded.{
  MemoryType, Section, memory, plain, limits_bytes, entries_bytes, section_id, section_body,
  sections_bytes, module_bytes, IsPages, AreTypes, IsSection, AreSections, greatest_of,
  section_pages, greatest,
}

-- One entry: its flags, its smallest number of pages, and the greatest where the flags announce it.
entry_read :
    (min_pages : ℕ) (max_pages : Option ℕ) (body rest : List ℕ) (inner : ℕ)
    → min_pages < 2 ^ 32
    → IsPages max_pages
    → drop inner body ≡ limits_bytes min_pages max_pages rest
    → (next : ℕ) × (drop next body ≡ rest)
      × ((k : ℕ → ℕ → Scan ℕ)
          → (read_uleb body inner >>= λ (flags, i).
              read_uleb body i >>= λ (least, j). skip_max body flags j >>= λ n. k least n)
            ≡ k min_pages next)
entry_read min_pages none body rest inner h p e =
    let (r₁, d₁) = read_uleb-uleb 0 inner body (uleb min_pages ++ rest) (omega arith) e in
    let (r₂, d₂) = read_uleb-uleb min_pages (inner + length (uleb 0)) body rest h d₁ in
    (inner + length (uleb 0) + length (uleb min_pages), d₂, λ k. rw (r₁, r₂) refl)
entry_read min_pages (some n) body rest inner h p e =
    let (r₁, d₁) =
      read_uleb-uleb 1 inner body (uleb min_pages ++ (uleb n ++ rest)) (omega arith) e in
    let (r₂, d₂) = read_uleb-uleb min_pages (inner + length (uleb 1)) body (uleb n ++ rest) h d₁ in
    let (r₃, d₃) =
      read_uleb-uleb n (inner + length (uleb 1) + length (uleb min_pages)) body rest p d₂ in
    (
      inner + length (uleb 1) + length (uleb min_pages) + length (uleb n),
      d₃,
      λ k. rw (r₁, r₂, r₃) refl,
    )

entries_loop-bytes :
    (ts : List MemoryType) (body : List ℕ) (inner pages : ℕ)
    → AreTypes ts
    → drop inner body ≡ entries_bytes ts
    → entries_loop (length ts) body inner pages ≡ found (greatest_of ts pages)
unfolding entries_loop
entries_loop-bytes [] body inner pages h e = refl
entries_loop-bytes (t ∷ ts) body inner pages (m, (p, hs)) e =
    let (next, d, run) = entry_read t.min_pages t.max_pages body (entries_bytes ts) inner m p e in
    run (λ least n. entries_loop (length ts) body n (max pages least))
    ∙ entries_loop-bytes ts body next (max pages t.min_pages) hs d

length-le-limits_bytes :
    (min_pages : ℕ) (max_pages : Option ℕ) (rest : List ℕ)
    → length rest < length (limits_bytes min_pages max_pages rest)
length-le-limits_bytes min_pages none rest = omega (
  arith,
  length-uleb 0,
  length-append (uleb 0) (uleb min_pages ++ rest),
  length-append (uleb min_pages) rest,
)
length-le-limits_bytes min_pages (some n) rest = omega (
  arith,
  length-uleb 1,
  length-append (uleb 1) (uleb min_pages ++ (uleb n ++ rest)),
  length-append (uleb min_pages) (uleb n ++ rest),
  length-append (uleb n) rest,
)

length-entries_bytes : (ts : List MemoryType) → length ts ≤ length (entries_bytes ts)
length-entries_bytes [] = omega arith
length-entries_bytes (t ∷ ts) = omega (
  arith,
  length-entries_bytes ts,
  length-le-limits_bytes t.min_pages t.max_pages (entries_bytes ts),
)

scan_section-body :
    (s : Section) (pages : ℕ)
    → IsSection s
    → length (section_body s) < 2 ^ 32
    → scan_section (section_id s) (section_body s) pages ≡ found (section_pages s pages)
unfolding scan_section
scan_section-body (memory ts) pages h fits =
    let (r, d) =
      read_uleb-uleb (length ts) 0 (section_body (memory ts)) (entries_bytes ts)
        (omega (
          arith,
          fits,
          length-entries_bytes ts,
          length-append (uleb (length ts)) (entries_bytes ts),
        ))
        refl in
    rw r
      (entries_loop-bytes ts (section_body (memory ts)) (0 + length (uleb (length ts))) pages h d)
scan_section-body (plain id body) pages h fits = ground (arith, h)

-- The rest of a list, cut in two.
cut :
    (start : ℕ) (wasm body rest : List ℕ)
    → drop start wasm ≡ body ++ rest
    → start ≤ length wasm
    → (start + length body ≤ length wasm)
      × (slice start (length body) wasm ≡ body)
      × (drop (start + length body) wasm ≡ rest)
cut start wasm body rest e h = (
  omega (arith, ap length e, length-drop start wasm, length-append body rest),
  ap (take (length body)) e ∙ take-append_left body rest,
  sym (drop-drop (length body) start wasm) ∙ ap (drop (length body)) e ∙ drop-append_left body rest,
)

-- One round reads one section.
scan_round-section :
    (s : Section) (wasm rest : List ℕ) (pos pages : ℕ)
    → length wasm < 2 ^ 64
    → IsSection s
    → length (section_body s) < 2 ^ 32
    → drop pos wasm ≡ section_id s ∷ (uleb (length (section_body s)) ++ (section_body s ++ rest))
    → (next : ℕ) × (scan_round wasm pos pages ≡ found (next, section_pages s pages))
      × (drop next wasm ≡ rest)
      × (pos < next)
unfolding scan_round
scan_round-section s wasm rest pos pages small h fits e =
    let n = length (section_body s) in
    let (id, d₁) = drop_step wasm pos (section_id s) (uleb n ++ (section_body s ++ rest)) e in
    let (len, d₂) = read_uleb-uleb n (pos + 1) wasm (section_body s ++ rest) fits d₁ in
    let start = pos + 1 + length (uleb n) in
    let begins : start ≤ length wasm = omega (
      arith,
      ap length d₁,
      length-drop (pos + 1) wasm,
      length-append (uleb n) (section_body s ++ rest),
      length-uleb n,
    ) in
    let (within, body, behind) = cut start wasm (section_body s) rest d₂ begins in
    let size : start + n - start ≡ n = omega arith in
    let got : get_range wasm start (start + n) ≡ some (section_body s) =
      ground (arith, within, size, body) in
    let added : checked_add start n ≡ some (start + n) = ground (arith, within) in
    (
      start + n,
      rw (id, len, added, got, scan_section-body s pages h fits) refl,
      behind,
      omega arith,
    )

scan_loop-sections :
    (ss : List Section) (fuel : ℕ) (wasm : List ℕ) (pos pages : ℕ)
    → length wasm < 2 ^ 64
    → AreSections ss
    → length wasm ≤ pos + fuel
    → drop pos wasm ≡ sections_bytes ss
    → scan_loop fuel wasm pos pages ≡ found (greatest ss pages)
unfolding scan_loop
scan_loop-sections [] zero wasm pos pages small h enough e = ground (arith, enough)
scan_loop-sections [] (suc fuel) wasm pos pages small h enough e =
    ground (arith, ap length e, length-drop pos wasm)
scan_loop-sections (s ∷ ss) zero wasm pos pages small h enough e =
    absurd (omega (arith, ap length e, length-drop pos wasm))
scan_loop-sections (s ∷ ss) (suc fuel) wasm pos pages small (hs, (fits, hss)) enough e =
    let (next, ran, behind, moved) =
      scan_round-section s wasm (sections_bytes ss) pos pages small hs fits e in
    let more : ltb pos (length wasm) ≡ true = ground (arith, ap length e, length-drop pos wasm) in
    rw (more, ran)
      (scan_loop-sections ss fuel wasm next (section_pages s pages) small hss
        (omega (arith, moved, enough)) behind)

greatest_of-lt :
    (ts : List MemoryType) (pages : ℕ)
    → AreTypes ts
    → pages < 2 ^ 32
    → greatest_of ts pages < 2 ^ 32
greatest_of-lt [] pages h p = p
greatest_of-lt (t ∷ ts) pages (m, (q, hs)) p =
    greatest_of-lt ts (max pages t.min_pages) hs (omega (arith, m, p))

greatest-lt :
    (ss : List Section) (pages : ℕ) → AreSections ss → pages < 2 ^ 32 → greatest ss pages < 2 ^ 32
greatest-lt [] pages h p = p
greatest-lt (memory ts ∷ ss) pages (h, (fits, hs)) p =
    greatest-lt ss (greatest_of ts pages) hs (greatest_of-lt ts pages h p)
greatest-lt (plain id body ∷ ss) pages (h, (fits, hs)) p = greatest-lt ss pages hs p

-- Of the binary form of a module, of less than 2^64 bytes and with sections that fit their
-- lengths, the scan finds the greatest of the smallest sizes that its memories declare, in bytes:
-- 0 if it declares no memory.
pub declared_min_memory_bytes-module_bytes :
    (ss : List Section)
    → AreSections ss
    → length (module_bytes ss) < 2 ^ 64
    → declared_min_memory_bytes (module_bytes ss) ≡ some (greatest ss 0 * wasm_page_bytes)
unfolding declared_min_memory_bytes scan_module module_bytes
declared_min_memory_bytes-module_bytes ss h small =
    let scanned =
      scan_loop-sections ss (length (header ++ sections_bytes ss)) (header ++ sections_bytes ss) 8 0
        small h (omega arith) refl in
    rw scanned (ground (arith, greatest-lt ss 0 h (omega arith)))
