-- ===== src/MemoryMap/Ranges.antt =====
-- kernel/mm/memory_map.c: removing a range of addresses from all regions.
use Prim.{tt}
use vimix_os.Base.{
  ℕ, ◌+◌, ◌-◌, ◌%◌, ◌<◌, ◌≤◌, ◌≡◌, inl, inr, refl, leb, ltb, ◌&&◌, Option, none, some, List, [],
  ◌∷◌, ◌++◌, All, arith, if◌then◌else◌, Bool-cases,
}
use vimix_os.MemoryMap.{
  Region, end_va, Freed, page_size, mm_region_remove, mm_region_resize, leaves, remove_from,
  put_back, joined, remove_all, memory_map_remove_regions,
}
use vimix_os.MemoryMap.Lookup.{translate, Ordered, Ordered-weaken}
use vimix_os.MemoryMap.Remove.{
  pages, owned_left, owned_all, is_in, Removable, Takes, pages-append, whole_Takes, resize_Takes,
  untouched_Takes,
}

abbrev Leaves : ℕ → ℕ → Region → Type 0
Leaves start size r =
    (result : Option Region × Freed) × ((remove_from start (start + size - 1) r ≡ leaves result)
      × Takes start size r result.0 result.1)

module _ (start size : ℕ) (start_page : start % page_size ≡ 0) (size_page : size % page_size ≡ 0)
    (positive : 0 < size) where
  -- The range takes the end of the region.
  tail_Takes :
      (r : Region)
      → Removable start size r
      → r.start_va < start
      → start < end_va r
      → Takes start size r
          (mm_region_resize r r.start_va (start - r.start_va)).0
          (mm_region_resize r r.start_va (start - r.start_va)).1
  tail_Takes r valid later before =
      let sp = valid.start_page in
      let ends = valid.unsplit later in
      resize_Takes start size r r.start_va (start - r.start_va) valid (omega arith) (omega arith)
        (omega arith) sp (omega arith) (λ x. ground arith)

  -- The range takes the start of the region.
  head_Takes :
      (r : Region) (offset : ℕ)
      → Removable start size r
      → start ≤ r.start_va
      → start + size < end_va r
      → r.start_va + offset ≡ start + size
      → Takes start size r
          (mm_region_resize r (r.start_va + offset) (r.size - offset)).0
          (mm_region_resize r (r.start_va + offset) (r.size - offset)).1
  head_Takes r offset valid later before same =
      let sp = valid.start_page in
      let np = valid.size_page in
      resize_Takes start size r (r.start_va + offset) (r.size - offset) valid (omega arith)
        (omega arith) (omega arith) (omega arith) (omega arith) (λ x. ground arith)

  -- One region: what is left of it maps as before outside of the range and not at all in it.
  remove_from-Leaves : (r : Region) → Removable start size r → Leaves start size r
  unfolding remove_from
  remove_from-Leaves r valid =
      let region_last = end_va r - 1 in
      let last = start + size - 1 in
      let sp = valid.start_page in
      let np = valid.size_page in
      let pr = valid.positive in
      elim (Bool-cases (leb start r.start_va && leb region_last last)) [
        | inl whole ↦ (
          (none, mm_region_remove r),
          (rw (whole, remove_from) refl, whole_Takes start size r (ground arith) (ground arith)),
        )
        | inr part ↦
            elim (Bool-cases
              (ltb r.start_va start && (ltb start region_last && leb region_last last))) [
                | inl tail ↦ (
                  mm_region_resize r r.start_va (start - r.start_va),
                  (
                    rw (part, tail, remove_from) refl,
                    tail_Takes r valid (ground arith) (ground arith),
                  ),
                )
                | inr notail ↦
                    elim (Bool-cases
                      (leb start r.start_va && (ltb r.start_va last && leb last region_last))) [
                        | inl head ↦
                            let offset = last - r.start_va + 1 in
                            (
                              mm_region_resize r (r.start_va + offset) (r.size - offset),
                              (
                                rw (part, notail, head, remove_from) refl,
                                head_Takes r offset valid (ground arith) (ground arith)
                                    (ground arith),
                              ),
                            )
                        | inr nohead ↦
                            elim (Bool-cases (ltb r.start_va start && ltb last region_last)) [
                              | inl inside ↦
                                  let ends = valid.unsplit (ground arith) in absurd (ground arith)
                              | inr away ↦ (
                                (some r, []),
                                (
                                  rw (part, notail, nohead, away, remove_from) refl,
                                  untouched_Takes start size r pr (ground arith),
                                ),
                              )
                            ]
                      ]
              ]
      ]

-- what removing a range from a map gives
abbrev pub Removes : ℕ → ℕ → ℕ → List Region → List Region → Freed → Type 0
Removes start size from regions left freed =
    Ordered from left
    × (((x : ℕ) → translate x left ≡ (if is_in start size x then none else translate x regions))
        × (pages freed + owned_all left ≡ owned_all regions))

put_back-Removes :
    (start size from : ℕ) (r : Region) (regions left : List Region) (one : Option Region)
    (freed freed1 : Freed)
    → from ≤ r.start_va
    → Takes start size r one freed
    → Removes start size (end_va r) regions left freed1
    → Removes start size from (r ∷ regions) (put_back one left) (freed ++ freed1)
unfolding put_back owned_all owned_left translate
put_back-Removes start size from r regions left none freed freed1 lo (maps, (part, count))
      (o, (others, counts)) =
    let sum = pages-append freed freed1 in
    (
      Ordered-weaken from (end_va r) left (omega arith) o,
      ((λ x. let m = maps x in let others_x = others x in ground arith), omega (arith, sum)),
    )
put_back-Removes start size from r regions left (some l) freed freed1 lo (maps, (part, count))
      (o, (others, counts)) =
    let sum = pages-append freed freed1 in
    let (starts, (positive, ends)) = part in
    (
      (omega arith, (positive, Ordered-weaken (end_va l) (end_va r) left ends o)),
      ((λ x. let m = maps x in let others_x = others x in ground arith), omega (arith, sum)),
    )

-- Removing a range of whole pages from a map in order, which does not end inside of a region on both
-- sides, succeeds: the map stays in order, no address of the range maps any more, every other address
-- maps as before, and the pages freed with those that still belong to a region are those that
-- belonged to one before.
pub memory_map_remove_regions-Removes :
    (start size from : ℕ) (regions : List Region)
    → start % page_size ≡ 0
    → size % page_size ≡ 0
    → 0 < size
    → Ordered from regions
    → All (Removable start size) regions
    → (result : List Region × Freed) × ((memory_map_remove_regions start size regions ≡ some result)
        × Removes start size from regions result.0 result.1)
unfolding memory_map_remove_regions remove_all joined translate owned_all pages
memory_map_remove_regions-Removes start size from [] sp np positive o valid =
    (([], []), (refl, (tt, ((λ x. ground arith), refl))))
memory_map_remove_regions-Removes start size from (r ∷ regions) sp np positive (lo, (pr, o))
      (valid, all) =
    let ((one, freed), (runs, takes)) = remove_from-Leaves start size sp np positive r valid in
    let ((left, freed1), (rest, removes)) =
      memory_map_remove_regions-Removes start size (end_va r) regions sp np positive o all in
    (
      (put_back one left, freed ++ freed1),
      (
        rw (runs, rest, joined) refl,
        put_back-Removes start size from r regions left one freed freed1 lo takes removes,
      ),
    )
