-- ===== src/Runtime/Memory/Allocs.antt =====
-- `HashMap<usize, usize>` as an association list with one entry for each key: the sizes of the
-- tracked allocations by their pointers. The program never iterates over it.
use ave_contract_sdk.Base.{
  ℕ, ◌+◌, ◌≤◌, ◌<◌, ◌≡◌, ◌≢◌, refl, ◌⊎◌, Option, none, some, List, [], ◌∷◌, arith, ◌==◌,
  if◌then◌else◌, length,
}

abbrev pub AllocMap : Type 0
AllocMap = List (ℕ × ℕ)

abbrev pub get : ℕ → AllocMap → Option ℕ
get k [] = none
get k ((j, v) ∷ m) = if j == k then some v else get k m

abbrev pub remove : ℕ → AllocMap → AllocMap
remove k [] = []
remove k ((j, v) ∷ m) = let rest = remove k m in if j == k then rest else (j, v) ∷ rest

abbrev pub insert : ℕ → ℕ → AllocMap → AllocMap
insert k v m = (k, v) ∷ remove k m

-- The newest region comes first, each region is not empty and ends where the one behind it in
-- memory begins, or before, and the last ends at `end` at most: no two of them overlap.
abbrev pub Regions : ℕ → AllocMap → Type 0
Regions end [] = Unit {0}
Regions end ((p, l) ∷ m) = (0 < l) × (p + l ≤ end) × Regions p m

pub Regions-mono : (m : AllocMap) {end end' : ℕ} → end ≤ end' → Regions end m → Regions end' m
Regions-mono [] h r = tt
Regions-mono ((p, l) ∷ m) h r = (r.0, omega arith, r.2)

-- A tracked region is not empty and ends within the memory.
pub get-Regions :
    (p : ℕ) (m : AllocMap) (end l : ℕ) → Regions end m → get p m ≡ some l → (0 < l) × (p + l ≤ end)
get-Regions p [] end l r e = ground arith
get-Regions p ((j, v) ∷ m) end l r e = ground (arith, get-Regions p m j l)

-- Two tracked regions with different pointers do not overlap.
pub Regions-disjoint :
    (p q : ℕ) (m : AllocMap) (end l k : ℕ)
    → Regions end m
    → get p m ≡ some l
    → get q m ≡ some k
    → p ≢ q
    → (p + l ≤ q) ⊎ (q + k ≤ p)
Regions-disjoint p q [] end l k r e e' ne = ground arith
Regions-disjoint p q ((j, v) ∷ m) end l k r e e' ne =
    ground (arith, get-Regions p m j l, get-Regions q m j k, Regions-disjoint p q m j l k)

-- The end of the memory is no tracked pointer.
pub get_end : (k : ℕ) (m : AllocMap) (end : ℕ) → end ≤ k → Regions end m → get k m ≡ none
get_end k [] end h r = refl
get_end k ((j, v) ∷ m) end h r = ground (arith, get_end k m j)

-- So an insertion there replaces nothing.
pub remove_end : (k : ℕ) (m : AllocMap) (end : ℕ) → end ≤ k → Regions end m → remove k m ≡ m
remove_end k [] end h r = refl
remove_end k ((j, v) ∷ m) end h r = ground (arith, remove_end k m j)

-- Each tracked region takes at least a byte: there are no more entries than bytes.
pub length-Regions : (m : AllocMap) (end : ℕ) → Regions end m → length m ≤ end
length-Regions [] end r = omega arith
length-Regions ((p, l) ∷ m) end r = omega (arith, length-Regions m p r.2)

-- No tracked region is larger than `max`.
abbrev pub Sized : ℕ → AllocMap → Type 0
Sized max [] = Unit {0}
Sized max ((p, l) ∷ m) = (l ≤ max) × Sized max m

pub get-Sized : (p : ℕ) (m : AllocMap) (max l : ℕ) → Sized max m → get p m ≡ some l → l ≤ max
get-Sized p [] max l h e = ground arith
get-Sized p ((j, v) ∷ m) max l h e = ground (arith, get-Sized p m max l)
