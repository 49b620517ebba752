-- ===== src/MemoryMap/Split.antt =====
-- kernel/mm/memory_map.c: adding a region inside of another.
use Prim.{tt}
use vimix_os.Base.{
  ℕ, ◌-◌, ◌<◌, ◌≤◌, ◌≡◌, ◌⊎◌, inl, inr, refl, subst, ltb, true, false, ◌&&◌, List, [], ◌∷◌, All,
  arith, ◌==◌, Bool-cases,
}
use vimix_os.MemoryMap.{
  Region, end_va, shortened, front_part, split_region, mm_regions_can_be_merged,
  mm_region_fits_before, memory_map_add_single_region_and_split,
}
use vimix_os.MemoryMap.Lookup.{translate, Ordered, Apart}
use vimix_os.MemoryMap.Add.{Maps, kept-Maps, fits-le, unfit-lt}

-- The new region is apart from the old one, replaces it, or lies in it and ends before it does; and
-- the two are not merged.
pub record Fits (new r : Region) : Type 0 where
  pub unmerged : mm_regions_can_be_merged r new ≡ false
  pub placed :
      Apart new r
      ⊎ (((new.start_va ≡ r.start_va) × (new.size ≡ r.size))
          ⊎ ((r.start_va ≤ new.start_va) × (end_va new < end_va r)))

shortened-Maps :
    (from : ℕ) (new r : Region) (regions : List Region)
    → from ≤ r.start_va
    → 0 < new.size
    → new.start_va ≡ r.start_va
    → end_va new < end_va r
    → Ordered (end_va r) regions
    → Maps from new (r ∷ regions) (new ∷ shortened new r ∷ regions)
unfolding translate
shortened-Maps from new r regions lo pn same inside o =
    let ends : end_va r ≡ end_va (shortened new r) = omega arith in
    (
      (omega arith, (pn, (omega arith, (omega arith, subst (λ a. Ordered a regions) ends o)))),
      λ x. ground arith,
    )

split-Maps :
    (from : ℕ) (new r : Region) (regions : List Region)
    → from ≤ r.start_va
    → 0 < new.size
    → r.start_va < new.start_va
    → end_va new < end_va r
    → Ordered (end_va r) regions
    → Maps from new (r ∷ regions) (front_part new r ∷ new ∷ split_region new r ∷ regions)
unfolding translate
split-Maps from new r regions lo pn later inside o =
    let ends : end_va r ≡ end_va (split_region new r) = omega arith in
    (
      (
        lo,
        (
          omega arith,
          (omega arith, (pn, (omega arith, (omega arith, subst (λ a. Ordered a regions) ends o)))),
        ),
      ),
      λ x. ground arith,
    )

replaced-Maps :
    (from : ℕ) (new r : Region) (regions : List Region)
    → from ≤ r.start_va
    → 0 < new.size
    → new.start_va ≡ r.start_va
    → new.size ≡ r.size
    → Ordered (end_va r) regions
    → Maps from new (r ∷ regions) (new ∷ regions)
unfolding translate
replaced-Maps from new r regions lo pn same sizes o =
    let ends : end_va r ≡ end_va new = omega arith in
    ((omega arith, (pn, subst (λ a. Ordered a regions) ends o)), λ x. ground arith)

-- Adding a region that is not empty to a map in order, where it merges with no region there and, for each,
-- is apart from it, replaces it, or lies in it and ends before it does, keeps the map in order: an address
-- of the new region maps as the new region says, also where it was cut out of an old one, and every other
-- address maps as before.
pub add_and_split-Maps :
    (from : ℕ) (new : Region) (regions : List Region)
    → Ordered from regions
    → from ≤ new.start_va
    → 0 < new.size
    → All (Fits new) regions
    → Maps from new regions (memory_map_add_single_region_and_split new regions)
unfolding memory_map_add_single_region_and_split translate
add_and_split-Maps from new [] o lo pn fits = ((lo, (pn, tt)), λ x. refl)
add_and_split-Maps from new (r ∷ regions) (rlo, (pr, o)) lo pn (fit, fits) =
    let unmerged = fit.unmerged in
    let placed = fit.placed in
    elim (Bool-cases (new.start_va == r.start_va && new.size == r.size)) [
      | inl same ↦
          rw (unmerged, same, memory_map_add_single_region_and_split)
            (replaced-Maps from new r regions rlo pn (ground arith) (ground arith) o)
      | inr differs ↦ elim (Bool-cases (mm_region_fits_before new r)) [
        | inl before ↦
            rw (unmerged, differs, before, memory_map_add_single_region_and_split)
              ((lo, (pn, (fits-le new r pn before, (pr, o)))), λ x. refl)
        | inr behind ↦
            let later = unfit-lt new r pn behind in
            elim (Bool-cases (new.start_va == r.start_va && ltb (end_va new - 1) (end_va r - 1))) [
              | inl starts ↦
                  rw (unmerged, differs, behind, starts, memory_map_add_single_region_and_split)
                    (shortened-Maps from new r regions rlo pn (ground arith) (ground arith) o)
              | inr mid ↦
                  elim (Bool-cases
                    (ltb r.start_va new.start_va && ltb (end_va new - 1) (end_va r - 1))) [
                      | inl inside ↦
                          let left : ltb 0 (split_region new r).size ≡ true = ground arith in
                          rw
                            (
                              unmerged, differs, behind, mid, inside, left,
                              memory_map_add_single_region_and_split,
                            )
                            (split-Maps from new r regions rlo pn (ground arith) (ground arith) o)
                      | inr outside ↦
                          let ahead : end_va r ≤ new.start_va = ground arith in
                          rw
                            (
                              unmerged, differs, behind, mid, outside,
                              memory_map_add_single_region_and_split,
                            )
                            (kept-Maps from new r regions
                              (memory_map_add_single_region_and_split new regions) rlo pr ahead
                              (add_and_split-Maps (end_va r) new regions o ahead pn fits))
                    ]
            ]
      ]
    ]
