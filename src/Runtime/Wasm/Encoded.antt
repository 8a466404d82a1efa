-- ===== src/Runtime/Wasm/Encoded.antt =====
-- The binary form of a module, as far as `declared_min_memory_bytes` reads it, from the WebAssembly
-- specification: a header, and sections of an id, a length and a body. A memory section lists
-- memories with their smallest and, it may be, their greatest number of pages.
use ave_contract_sdk.Base.{ℕ, ◌^◌, ◌<◌, ◌≢◌, max, Option, none, some, List, [], ◌∷◌, ◌++◌, length}
use ave_contract_sdk.Runtime.Wasm.{header}
use ave_contract_sdk.Runtime.Wasm.Uleb.{uleb}

pub record MemoryType : Type 0 where
  pub min_pages : ℕ
  pub max_pages : Option ℕ

pub data Section : Type 0 where
  memory : List MemoryType → Section
  plain : (id : ℕ) → List ℕ → Section

-- Flag 1 says that a greatest number of pages follows.
abbrev pub limits_bytes : ℕ → Option ℕ → List ℕ → List ℕ
limits_bytes min_pages none rest = uleb 0 ++ (uleb min_pages ++ rest)
limits_bytes min_pages (some n) rest = uleb 1 ++ (uleb min_pages ++ (uleb n ++ rest))

abbrev pub entries_bytes : List MemoryType → List ℕ
entries_bytes [] = []
entries_bytes (t ∷ ts) = limits_bytes t.min_pages t.max_pages (entries_bytes ts)

abbrev pub section_id : Section → ℕ
section_id (memory ts) = 5
section_id (plain id body) = id

abbrev pub section_body : Section → List ℕ
section_body (memory ts) = uleb (length ts) ++ entries_bytes ts
section_body (plain id body) = body

abbrev pub sections_bytes : List Section → List ℕ
sections_bytes [] = []
sections_bytes (s ∷ ss) =
    section_id s ∷ (uleb (length (section_body s)) ++ (section_body s ++ sections_bytes ss))

unfoldable pub module_bytes : List Section → List ℕ
module_bytes ss = header ++ sections_bytes ss

-- Numbers of pages are `u32`s.
abbrev pub IsPages : Option ℕ → Type 0
IsPages none = Unit {0}
IsPages (some n) = n < 2 ^ 32

abbrev pub AreTypes : List MemoryType → Type 0
AreTypes [] = Unit {0}
AreTypes (t ∷ ts) = (t.min_pages < 2 ^ 32) × (IsPages t.max_pages × AreTypes ts)

-- The sections fit their lengths, and only a memory section has the id of one.
abbrev pub IsSection : Section → Type 0
IsSection (memory ts) = AreTypes ts
IsSection (plain id body) = id ≢ 5

abbrev pub AreSections : List Section → Type 0
AreSections [] = Unit {0}
AreSections (s ∷ ss) = IsSection s × ((length (section_body s) < 2 ^ 32) × AreSections ss)

-- The greatest of the smallest numbers of pages, and `pages`.
abbrev pub greatest_of : List MemoryType → ℕ → ℕ
greatest_of [] pages = pages
greatest_of (t ∷ ts) pages = greatest_of ts (max pages t.min_pages)

abbrev pub section_pages : Section → ℕ → ℕ
section_pages (memory ts) pages = greatest_of ts pages
section_pages (plain id body) pages = pages

abbrev pub greatest : List Section → ℕ → ℕ
greatest [] pages = pages
greatest (s ∷ ss) pages = greatest ss (section_pages s pages)
