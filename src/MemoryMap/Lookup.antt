-- ===== src/MemoryMap/Lookup.antt =====
-- The address space that the regions of kernel/mm/memory_map.c describe: what an address maps to.
use Prim.{tt}
use vimix_os.Base.{
  ℕ, ◌+◌, ◌-◌, ◌<◌, ◌≤◌, ◌≡◌, ◌⊎◌, inl, inr, refl, leb, ltb, Bool, ◌&&◌, Option, none, some, List,
  [], ◌∷◌, All, arith, if◌then◌else◌,
}
use vimix_os.MemoryMap.{Region, number, mapped_number, end_va}

abbrev pub covers : Region → ℕ → Bool
covers r x = leb r.start_va x && ltb x (end_va r)

-- the physical address of a virtual one, with the type and the state of its region
abbrev pub entry : Region → ℕ → ℕ × ℕ × ℕ
entry r x = (r.start_pa + (x - r.start_va), number r.type, mapped_number r.mapped)

unfoldable pub translate : ℕ → List Region → Option (ℕ × ℕ × ℕ)
translate x [] = none
translate x (r ∷ regions) =
    let rest = translate x regions in if covers r x then some (entry r x) else rest

-- The regions are not empty, in order, do not overlap, and start at an address or behind it.
abbrev pub Ordered : ℕ → List Region → Type 0
Ordered from [] = Unit {0}
Ordered from (r ∷ regions) = (from ≤ r.start_va) × ((0 < r.size) × Ordered (end_va r) regions)

-- Two regions share no address.
abbrev pub Apart : Region → Region → Type 0
Apart new r = (end_va new ≤ r.start_va) ⊎ (end_va r ≤ new.start_va)

pub translate_below :
    (x from : ℕ) (regions : List Region)
    → Ordered from regions
    → x < from
    → translate x regions ≡ none
unfolding translate
translate_below x from [] o below = refl
translate_below x from (r ∷ regions) (lo, (positive, o)) below =
    let rest = translate_below x (end_va r) regions o (omega arith) in ground arith

pub Ordered-weaken :
    (a b : ℕ) (regions : List Region) → a ≤ b → Ordered b regions → Ordered a regions
Ordered-weaken a b [] le o = tt
Ordered-weaken a b (r ∷ regions) le (lo, (positive, o)) = (omega arith, (positive, o))

-- Regions behind the start of one they are apart from are behind its end.
pub Ordered-behind :
    (new : Region) (regions : List Region)
    → Ordered new.start_va regions
    → All (Apart new) regions
    → Ordered (end_va new) regions
Ordered-behind new [] o apart = tt
Ordered-behind new (r ∷ regions) (lo, (positive, o)) (inl before, apart) = (before, (positive, o))
Ordered-behind new (r ∷ regions) (lo, (positive, o)) (inr behind, apart) = absurd (omega arith)
