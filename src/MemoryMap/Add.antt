-- ===== src/MemoryMap/Add.antt =====
-- kernel/mm/memory_map.c: adding a region where there is space.
use Prim.{tt}
use vimix_os.Base.{
  ℕ, ◌<◌, ◌≤◌, ◌≡◌, ◌⊎◌, inl, inr, refl, subst, true, false, none, some, List, [], ◌∷◌, All, arith,
  if◌then◌else◌, Bool-cases,
}
use vimix_os.MemoryMap.{
  Region, number, mapped_number, end_va, end_pa, mm_regions_can_be_merged, mm_region_fits_before,
  mm_regions_merge, memory_map_add_single_region,
}
use vimix_os.MemoryMap.Lookup.{covers, entry, translate, Ordered, Apart, Ordered-behind}

-- Regions that can be merged have the same attributes and continue one another in both address spaces.
pub mergeable_lem :
    (a b : Region)
    → mm_regions_can_be_merged a b ≡ true
    → (number a.type ≡ number b.type)
      × ((mapped_number a.mapped ≡ mapped_number b.mapped)
          × (((end_va a ≡ b.start_va) × (end_pa a ≡ b.start_pa))
              ⊎ ((end_va b ≡ a.start_va) × (end_pa b ≡ a.start_pa))))
unfolding mm_regions_can_be_merged
mergeable_lem a b h = (ground arith, (ground arith, ground arith))

-- A merged region maps what either of the two did.
pub merge-entry :
    (a b : Region) (x : ℕ)
    → mm_regions_can_be_merged a b ≡ true
    → 0 < a.size
    → 0 < b.size
    → (if covers (mm_regions_merge a b) x then some (entry (mm_regions_merge a b) x) else none)
      ≡ (if covers b x then some (entry b x) else if covers a x then some (entry a x) else none)
unfolding mm_regions_merge
merge-entry a b x h pa pb = let (t, (m, sides)) = mergeable_lem a b h in ground arith

pub merge-Ordered :
    (from : ℕ) (new r : Region) (regions : List Region)
    → mm_regions_can_be_merged r new ≡ true
    → from ≤ new.start_va
    → 0 < new.size
    → Ordered from (r ∷ regions)
    → All (Apart new) regions
    → Ordered from (mm_regions_merge r new ∷ regions)
unfolding mm_regions_merge
merge-Ordered from new r regions h lo pn (rlo, (pr, o)) apart =
    let (t, (m, sides)) = mergeable_lem r new h in
    elim sides [
      | inl (v, p) ↦
          let ends : end_va new ≡ end_va (mm_regions_merge r new) = omega arith in
          let behind = Ordered-behind new regions (subst (λ a. Ordered a regions) v o) apart in
          (omega arith, (omega arith, subst (λ a. Ordered a regions) ends behind))
      | inr (v, p) ↦
          let ends : end_va r ≡ end_va (mm_regions_merge r new) = omega arith in
          (omega arith, (omega arith, subst (λ a. Ordered a regions) ends o))
    ]

-- what adding a region to a map gives
abbrev pub Maps : ℕ → Region → List Region → List Region → Type 0
Maps from new regions result =
    Ordered from result
    × ((x : ℕ)
        → translate x result ≡ (if covers new x then some (entry new x) else translate x regions))

pub merge-Maps :
    (from : ℕ) (new r : Region) (regions : List Region)
    → mm_regions_can_be_merged r new ≡ true
    → from ≤ new.start_va
    → 0 < new.size
    → Ordered from (r ∷ regions)
    → All (Apart new) regions
    → Maps from new (r ∷ regions) (mm_regions_merge r new ∷ regions)
unfolding translate
merge-Maps from new r regions h lo pn (rlo, (pr, o)) apart =
    (merge-Ordered from new r regions h lo pn (rlo, (pr, o)) apart, λ x. joined x)
  where
    joined :
        (x : ℕ)
        → translate x (mm_regions_merge r new ∷ regions)
          ≡ (if covers new x then some (entry new x) else translate x (r ∷ regions))
    joined x = let merged = merge-entry r new x h pr pn in ground arith

-- the region in front stays
pub kept-Maps :
    (from : ℕ) (new r : Region) (regions result : List Region)
    → from ≤ r.start_va
    → 0 < r.size
    → end_va r ≤ new.start_va
    → Maps (end_va r) new regions result
    → Maps from new (r ∷ regions) (r ∷ result)
unfolding translate
kept-Maps from new r regions result lo pr before (o, maps) =
    ((lo, (pr, o)), λ x. let m = maps x in ground arith)

pub fits-le : (a b : Region) → 0 < a.size → mm_region_fits_before a b ≡ true → end_va a ≤ b.start_va
unfolding mm_region_fits_before
fits-le a b positive h = ground arith

pub unfits : (a b : Region) → b.start_va < end_va a → 0 < a.size → mm_region_fits_before a b ≡ false
unfolding mm_region_fits_before
unfits a b h positive = ground arith

pub unfit-lt :
    (a b : Region) → 0 < a.size → mm_region_fits_before a b ≡ false → b.start_va < end_va a
unfolding mm_region_fits_before
unfit-lt a b positive h = ground arith

-- Adding a region to a map in order that has space for it, apart from every region there, keeps the
-- map in order: an address of the new region then maps as the new region says, whether it was merged
-- or not, and every other address maps as before.
pub memory_map_add_single_region-Maps :
    (from : ℕ) (new : Region) (regions : List Region)
    → Ordered from regions
    → from ≤ new.start_va
    → 0 < new.size
    → All (Apart new) regions
    → Maps from new regions (memory_map_add_single_region new regions)
unfolding memory_map_add_single_region translate
memory_map_add_single_region-Maps from new [] o lo pn apart = ((lo, (pn, tt)), λ x. refl)
memory_map_add_single_region-Maps from new (r ∷ regions) (rlo, (pr, o)) lo pn (sides, apart) =
    elim (Bool-cases (mm_regions_can_be_merged r new)) [
      | inl merges ↦
          rw (merges, memory_map_add_single_region)
            (merge-Maps from new r regions merges lo pn (rlo, (pr, o)) apart)
      | inr stays ↦ elim (Bool-cases (mm_region_fits_before new r)) [
        | inl fits ↦
            rw (stays, fits, memory_map_add_single_region)
              ((lo, (pn, (fits-le new r pn fits, (pr, o)))), λ x. refl)
        | inr behind ↦
            rw (stays, behind, memory_map_add_single_region)
              (let later = unfit-lt new r pn behind in
                let ahead : end_va r ≤ new.start_va = (elim sides [
                  | inl e ↦ absurd (omega arith)
                  | inr e ↦ e
                ]) in
                kept-Maps from new r regions (memory_map_add_single_region new regions) rlo pr ahead
                  (memory_map_add_single_region-Maps (end_va r) new regions o ahead pn apart))
      ]
    ]
