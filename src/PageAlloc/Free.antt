-- ===== src/PageAlloc/Free.antt =====
-- kernel/mm/kalloc.c: `__free_pages` adds exactly the freed block to the free memory, merged or not.
use Prim.{tt}
use vimix_os.Base.{
  ℕ, zero, suc, ◌+◌, ◌-◌, ◌*◌, ◌^◌, ◌≤◌, ◌<◌, min, ◌≡◌, ◌⊎◌, inl, inr, refl, sym, ap, ◌∙◌, subst,
  Option, none, some, List, [], ◌∷◌, arith, length, Option-cases, false, Bool-cases, ◌==◌, ltb,
  if◌then◌else◌, ==_iff,
}
use vimix_os.PageAlloc.{
  bytes, page_shift, page_alloc_max_order, flip_bit, keep, get_specific_page, KernelMemory,
  free_from, free_at, free_pages, fetch_add,
}
use vimix_os.PageAlloc.Counting.{
  inside, in_blocks, holders, IsAligned, AreAligned, AllAligned, IsValid, bytes_suc, inside_halves,
  flip_bit_lem,
}

-- the block at an address has left its free list
abbrev Removed : ℕ → ℕ → List ℕ → Option (List ℕ) → Type 0
Removed order pa blocks none = Unit {0}
Removed order pa blocks (some blocks1) =
    (AreAligned order blocks → AreAligned order blocks1)
    × ((x : ℕ) → in_blocks x order blocks ≡ inside x pa (bytes order) + in_blocks x order blocks1)

keep-Removed :
    (order pa block : ℕ) (blocks : List ℕ) (result : Option (List ℕ))
    → Removed order pa blocks result
    → Removed order pa (block ∷ blocks) (keep block result)
unfolding keep in_blocks
keep-Removed order pa block blocks none r = tt
keep-Removed order pa block blocks (some blocks1) (aligned, counts) = (
  elim [ AreAligned.cons here there ↦ AreAligned.cons here (aligned there) ],
  λ x. let c = counts x in omega arith,
)

get_specific_page-Removed :
    (order pa : ℕ) (blocks : List ℕ) → Removed order pa blocks (get_specific_page pa blocks)
unfolding get_specific_page in_blocks
get_specific_page-Removed order pa [] = tt
get_specific_page-Removed order pa (block ∷ blocks) = elim (Bool-cases (pa == block)) [
  | inl found ↦ rw found (
    elim [ AreAligned.cons here there ↦ there ],
    λ x.
        ap (λ a. inside x a (bytes order) + in_blocks x order blocks)
          (sym ((==_iff pa block).0 found)),
  )
  | inr other ↦ rw other (
      keep-Removed order pa block blocks (get_specific_page pa blocks)
        (get_specific_page-Removed order pa blocks))
]

-- what freeing an aligned block adds to the lists from its order up
abbrev pub Given : ℕ → ℕ → List (List ℕ) → List (List ℕ) → Type 0
Given order pa lists lists1 =
    AllAligned order lists1
    × ((length lists1 ≡ length lists)
        × ((x : ℕ) → holders x order lists1 ≡ inside x pa (bytes order) + holders x order lists))

joined_lem :
    (x s pa buddy left : ℕ)
    → (((buddy ≡ pa + s) × (left ≡ pa)) ⊎ ((pa ≡ buddy + s) × (left ≡ buddy)))
    → inside x left (2 * s) ≡ inside x pa s + inside x buddy s
joined_lem x s pa buddy left (inl (e, l)) = rw (e, l) (inside_halves x pa s)
joined_lem x s pa buddy left (inr (e, l)) = rw (e, l) (inside_halves x buddy s ∙ omega arith)

halves_lem :
    (x order pa : ℕ)
    → IsAligned order pa
    → let buddy = flip_bit pa (page_shift + order) in
      inside x (min pa buddy) (bytes (suc order))
      ≡ inside x pa (bytes order) + inside x buddy (bytes order)
halves_lem x order pa aligned =
    let (buddy_aligned, (left_aligned, sides)) = flip_bit_lem order pa aligned in
    let buddy = flip_bit pa (page_shift + order) in
    ap (λ n. inside x (min pa buddy) n) (bytes_suc order)
    ∙ joined_lem x (bytes order) pa buddy (min pa buddy) sides

free_from-Given :
    (order pa : ℕ) (blocks : List ℕ) (lists : List (List ℕ))
    → IsAligned order pa
    → AllAligned order (blocks ∷ lists)
    → Given order pa (blocks ∷ lists) (free_from pa order (blocks ∷ lists))
unfolding free_from holders in_blocks
free_from-Given order pa blocks [] at (AllAligned.cons here above) =
    (AllAligned.cons (AreAligned.cons at here) above, (refl, λ x. omega arith))
free_from-Given order pa blocks (next ∷ lists) at (AllAligned.cons here above) =
    let buddy = flip_bit pa (page_shift + order) in
    elim (Option-cases (get_specific_page buddy blocks)) [
      | inl alone ↦
          rw (alone, free_from)
            (AllAligned.cons (AreAligned.cons at here) above, (refl, λ x. omega arith))
      | inr (blocks1, found) ↦
          rw (found, free_from)
            (let (buddy_aligned, (left_aligned, sides)) = flip_bit_lem order pa at in
              let (kept, fewer) : Removed order buddy blocks (some blocks1) =
                subst (Removed order buddy blocks) found
                  (get_specific_page-Removed order buddy blocks) in
              let (aligned1, (same, counts)) =
                free_from-Given (suc order) (min pa buddy) next lists left_aligned above in
              (
                AllAligned.cons (kept here) aligned1,
                (
                  ap suc same,
                  λ x.
                      let c = counts x in
                      let f = fewer x in let h = halves_lem x order pa at in omega arith,
                ),
              ))
    ]

free_at-Given :
    (skip base order pa : ℕ) (lists : List (List ℕ))
    → base + skip ≡ order
    → skip < length lists
    → IsAligned order pa
    → AllAligned base lists
    → AllAligned base (free_at skip pa order lists)
      × ((length (free_at skip pa order lists) ≡ length lists)
          × ((x : ℕ)
              → holders x base (free_at skip pa order lists)
                ≡ inside x pa (bytes order) + holders x base lists))
unfolding free_at holders
free_at-Given zero base order pa [] e short at aligned = absurd (omega arith)
free_at-Given zero base order pa (blocks ∷ lists) e short at aligned =
    let start : order ≡ base = omega arith in
    rw start (free_from-Given base pa blocks lists (subst (λ o. IsAligned o pa) start at) aligned)
free_at-Given (suc skip) base order pa [] e short at aligned = absurd (omega arith)
free_at-Given (suc skip) base order pa (blocks ∷ lists) e short at (AllAligned.cons here above) =
    let (aligned1, (same, counts)) =
      free_at-Given skip (suc base) order pa lists (omega arith) (omega arith) at above in
    (AllAligned.cons here aligned1, (ap suc same, λ x. let c = counts x in omega arith))

-- Freeing an aligned block of a valid order, no byte of which is free, does not panic: every address
-- of the block is then free, every other address is held by as many free blocks as before, however
-- far the block was merged with its buddies, the memory stays valid and the pages are uncounted.
pub free_pages-Gives :
    (kva order : ℕ) (mem : KernelMemory)
    → IsValid mem
    → order ≤ page_alloc_max_order
    → IsAligned order kva
    → ((x : ℕ) → inside x kva (bytes order) + holders x 0 mem.list_of_free_memory ≤ 1)
    → (mem1 : KernelMemory) × ((free_pages kva order mem ≡ some mem1)
        × (IsValid mem1
            × ((mem1.pages_allocated ≡ fetch_add mem.pages_allocated (2 ^ 64 - 2 ^ order))
                × ((x : ℕ)
                    → holders x 0 mem1.list_of_free_memory
                      ≡ inside x kva (bytes order) + holders x 0 mem.list_of_free_memory))))
unfolding free_pages
free_pages-Gives kva order mem valid small at used =
    let lists = free_at order kva order mem.list_of_free_memory in
    let long = valid.orders in
    let (aligned1, (same, counts)) =
      free_at-Given order 0 order kva mem.list_of_free_memory (omega arith) (omega arith) at
        valid.aligned in
    let mem1 : KernelMemory = record {
      list_of_free_memory = lists;
      pages_allocated = fetch_add mem.pages_allocated (2 ^ 64 - 2 ^ order);
    } in
    let within : ltb page_alloc_max_order order ≡ false = ground arith in
    (
      mem1,
      (
        ap (λ b. if b then none else some mem1) within,
        (
          record {
            orders = same ∙ valid.orders;
            aligned = aligned1;
            disjoint = λ x. let c = counts x in let u = used x in omega arith;
          },
          (refl, counts),
        ),
      ),
    )
