-- ===== src/MemoryMap/Remove.antt =====
-- kernel/mm/memory_map.c: removing a range of addresses and freeing its pages.
use Prim.{tt}
use vimix_os.Base.{
  ℕ, ◌+◌, ◌-◌, ◌/◌, ◌%◌, ◌<◌, ◌≤◌, ◌≡◌, ◌⊎◌, inl, inr, refl, leb, ltb, not, Bool, true, false, ◌&&◌,
  Option, none, some, List, [], ◌∷◌, ◌++◌, arith, ◌==◌, if◌then◌else◌, Bool-cases,
}
use vimix_os.MemoryMap.{
  Region, end_va, end_pa, Freed, page_size, freed_if, mm_region_remove, mm_region_resize,
}
use vimix_os.MemoryMap.Lookup.{covers, entry}

-- the number of pages freed
unfoldable pub pages : Freed → ℕ
pages [] = 0
pages ((pa, count) ∷ freed) = count + pages freed

-- the number of pages that go with the regions
unfoldable pub owned : Region → ℕ
owned r = if r.free_on_unmap then r.size / page_size else 0

unfoldable pub owned_left : Option Region → ℕ
unfolding owned
owned_left none = 0
owned_left (some r) = owned r

unfoldable pub owned_all : List Region → ℕ
unfolding owned
owned_all [] = 0
owned_all (r ∷ regions) = owned r + owned_all regions

abbrev pub is_in : ℕ → ℕ → ℕ → Bool
is_in start size x = leb start x && ltb x (start + size)

-- what a region, or what is left of it, maps an address to
abbrev pub present : Option Region → ℕ → Option (ℕ × ℕ × ℕ)
present none x = none
present (some r) x = if covers r x then some (entry r x) else none

-- A region is whole pages, and the range does not end inside of it on both sides.
pub record Removable (start size : ℕ) (r : Region) : Type 0 where
  pub start_page : r.start_va % page_size ≡ 0
  pub size_page : r.size % page_size ≡ 0
  pub positive : 0 < r.size
  pub unsplit : (r.start_va < start) → end_va r ≤ start + size

-- What is left is a part of the region.
abbrev pub PartOf : Region → Option Region → Type 0
PartOf r none = Unit {0}
PartOf r (some l) = (r.start_va ≤ l.start_va) × ((0 < l.size) × (end_va l ≤ end_va r))

abbrev pub Takes : ℕ → ℕ → Region → Option Region → Freed → Type 0
Takes start size r left freed =
    ((x : ℕ) → present left x ≡ (if is_in start size x then none else present (some r) x))
    × (PartOf r left × (pages freed + owned_left left ≡ owned r))

pages-freed_if :
    (b : Bool) (pa bytes : ℕ) → pages (freed_if b pa bytes) ≡ (if b then bytes / page_size else 0)
unfolding pages freed_if
pages-freed_if true pa bytes = omega arith
pages-freed_if false pa bytes = refl

pub pages-append : (a b : Freed) → pages (a ++ b) ≡ pages a + pages b
unfolding pages
pages-append [] b = omega arith
pages-append ((pa, n) ∷ a) b = omega (arith, pages-append a b)

pages_removed : (r : Region) → pages (mm_region_remove r) ≡ owned r
unfolding mm_region_remove owned
pages_removed r = pages-freed_if r.free_on_unmap r.start_pa r.size

pub whole_Takes :
    (start size : ℕ) (r : Region)
    → start ≤ r.start_va
    → end_va r ≤ start + size
    → Takes start size r none (mm_region_remove r)
unfolding owned_left
whole_Takes start size r lo hi = (λ x. ground arith, (tt, (let p = pages_removed r in omega arith)))

-- Whole pages in front of a part, in it and behind it add up.
parts_pages :
    (from s n size : ℕ)
    → from % page_size ≡ 0
    → s % page_size ≡ 0
    → n % page_size ≡ 0
    → size % page_size ≡ 0
    → from ≤ s
    → s + n ≤ from + size
    → (s - from) / page_size + ((from + size - (s + n)) / page_size + n / page_size)
      ≡ size / page_size
parts_pages from s n size a b c d lo hi = omega arith

counted : (bytes : ℕ) → (if ltb 0 bytes then bytes / page_size else 0) ≡ bytes / page_size
counted bytes = ground arith

-- What a resize frees, with what is left, is what there was.
resize_pages :
    (r : Region) (s n : ℕ)
    → r.start_va % page_size ≡ 0
    → r.size % page_size ≡ 0
    → s % page_size ≡ 0
    → n % page_size ≡ 0
    → 0 < n
    → r.start_va ≤ s
    → s + n ≤ end_va r
    → pages (mm_region_resize r s n).1 + owned_left (mm_region_resize r s n).0 ≡ owned r
unfolding mm_region_resize owned_left owned
resize_pages r s n a d b c positive lo hi =
    let some_left : (n == 0) ≡ false = ground arith in
    let front = r.free_on_unmap && ltb 0 (s - r.start_va) in
    let behind_size = end_va r - (s + n) in
    let behind = r.free_on_unmap && ltb 0 behind_size in
    let sum = parts_pages r.start_va s n r.size a b c d lo hi in
    let both =
      pages-append (freed_if front r.start_pa (s - r.start_va))
        (freed_if behind (end_pa r - behind_size) behind_size) in
    let first = pages-freed_if front r.start_pa (s - r.start_va) in
    let second = pages-freed_if behind (end_pa r - behind_size) behind_size in
    rw (some_left, both, first, second)
      (elim (Bool-cases r.free_on_unmap) [
        | inl e ↦ rw (e, counted (s - r.start_va), counted behind_size) (omega (arith, sum))
        | inr e ↦ rw e refl
      ])

-- A resize to a part of whole pages inside of the region, which keeps what is not in the range.
pub resize_Takes :
    (start size : ℕ) (r : Region) (s n : ℕ)
    → Removable start size r
    → 0 < n
    → r.start_va ≤ s
    → s + n ≤ end_va r
    → s % page_size ≡ 0
    → n % page_size ≡ 0
    → ((x : ℕ) → (leb s x && ltb x (s + n)) ≡ (covers r x && not (is_in start size x)))
    → Takes start size r (mm_region_resize r s n).0 (mm_region_resize r s n).1
unfolding mm_region_resize
resize_Takes start size r s n valid positive lo hi sp np keeps =
    let some_left : (n == 0) ≡ false = ground arith in
    let count = resize_pages r s n valid.start_page valid.size_page sp np positive lo hi in
    (
      rw (some_left, mm_region_resize) (λ x. let k = keeps x in ground arith),
      (rw (some_left, mm_region_resize) (lo, (positive, hi)), count),
    )

pub untouched_Takes :
    (start size : ℕ) (r : Region)
    → 0 < r.size
    → (start + size ≤ r.start_va) ⊎ (end_va r ≤ start)
    → Takes start size r (some r) []
unfolding owned_left owned pages
untouched_Takes start size r pr apart =
    (λ x. ground arith, ((omega arith, (pr, omega arith)), omega arith))
