-- ===== src/PageAlloc/Alloc.antt =====
-- kernel/mm/kalloc.c: `__alloc_pages` takes exactly the returned block out of the free memory.
use Prim.{tt}
use vimix_os.Base.{
  ℕ, zero, suc, ◌+◌, ◌*◌, ◌^◌, ◌≡◌, refl, ap, ◌∙◌, subst, Option, none, some, List, [], ◌∷◌, arith,
  All, drop, length,
}
use vimix_os.PageAlloc.{
  bytes, KernelMemory, account, split, alloc_from, alloc_at, alloc_pages, fetch_add,
}
use vimix_os.PageAlloc.Counting.{
  IsValid, inside, holders, IsAligned, AreAligned, AllAligned, bytes_suc, inside_halves,
}

-- The outcome of an allocation from the lists that start at `base`, the first `skip` of which it
-- passes over: none if no block is free in the others, or an aligned block that was free and is not.
abbrev pub Took : ℕ → ℕ → ℕ → List (List ℕ) → Option ℕ → List (List ℕ) → Type 0
Took skip base order lists none lists1 =
    (lists1 ≡ lists) × All (λ blocks. blocks ≡ []) (drop skip lists)
Took skip base order lists (some pages) lists1 =
    IsAligned order pages
    × (AllAligned base lists1
        × ((length lists1 ≡ length lists)
            × ((x : ℕ)
                → holders x base lists ≡ inside x pages (bytes order) + holders x base lists1)))

even_multiple : (q s : ℕ) → q * (2 * s) ≡ 2 * q * s
even_multiple q s = omega arith

odd_multiple : (q s : ℕ) → q * (2 * s) + s ≡ suc (2 * q) * s
odd_multiple q s = omega arith

half_lem :
    (order a : ℕ) → IsAligned (suc order) a → IsAligned order a × IsAligned order (a + bytes order)
half_lem order a (q, e) =
    let twice = e ∙ ap (λ n. q * n) (bytes_suc order) in
    (
      (2 * q, twice ∙ even_multiple q (bytes order)),
      (suc (2 * q), ap (λ n. n + bytes order) twice ∙ odd_multiple q (bytes order)),
    )

holders_split :
    (x order a : ℕ) (lists : List (List ℕ))
    → inside x a (bytes (suc order)) + holders x (suc order) lists
      ≡ inside x a (bytes order) + holders x order (((a + bytes order) ∷ []) ∷ lists)
unfolding holders
holders_split x order a lists =
    ap (λ n. inside x a n + holders x (suc order) lists) (bytes_suc order)
    ∙ (let halves = inside_halves x a (bytes order) in omega arith)

split-Took :
    (order : ℕ) (lists : List (List ℕ)) (result : Option ℕ) (lists1 : List (List ℕ))
    → Took 0 (suc order) (suc order) lists result lists1
    → let (result2, lists2) = split order result lists1 in
      Took 0 order order ([] ∷ lists) result2 lists2
unfolding split holders
split-Took order lists none lists1 (same, empty) = (ap (λ l. [] ∷ l) same, (refl, empty))
split-Took order lists (some pages) lists1 (here, (above, (same, counts))) =
    let (left, right) = half_lem order pages here in
    (
      left,
      (
        AllAligned.cons (AreAligned.cons right AreAligned.nil) above,
        (
          ap suc same,
          λ x.
              let above_x = counts x ∙ holders_split x order pages lists1 in omega (arith, above_x),
        ),
      ),
    )

alloc_from-Took :
    (order : ℕ) (lists : List (List ℕ))
    → AllAligned order lists
    → let (result, lists1) = alloc_from order lists in Took 0 order order lists result lists1
unfolding alloc_from holders
alloc_from-Took order [] aligned = (refl, tt)
alloc_from-Took order ((block ∷ blocks) ∷ lists)
      (AllAligned.cons (AreAligned.cons here there) above) =
    (here, (AllAligned.cons there above, (refl, λ x. omega arith)))
alloc_from-Took order ([] ∷ lists) (AllAligned.cons nothing above) =
    let (result, lists1) = alloc_from (suc order) lists in
    split-Took order lists result lists1 (alloc_from-Took (suc order) lists above)

alloc_at-Took :
    (skip base order : ℕ) (lists : List (List ℕ))
    → base + skip ≡ order
    → AllAligned base lists
    → let (result, lists1) = alloc_at skip order lists in Took skip base order lists result lists1
unfolding alloc_at holders
alloc_at-Took zero base order lists e aligned =
    let start : base ≡ order = omega arith in
    subst (λ o. let (result, lists1) = alloc_from o lists in Took 0 base o lists result lists1)
      start (alloc_from-Took base lists aligned)
alloc_at-Took (suc skip) base order [] e aligned = (refl, tt)
alloc_at-Took (suc skip) base order (blocks ∷ lists) e (AllAligned.cons here above) =
    let (result, lists1) = alloc_at skip order lists in
    below result lists1 (alloc_at-Took skip (suc base) order lists (omega arith) above)
  where
    below :
        (result : Option ℕ) (lists1 : List (List ℕ))
        → Took skip (suc base) order lists result lists1
        → Took (suc skip) base order (blocks ∷ lists) result (blocks ∷ lists1)
    below none lists1 (same, empty) = (ap (λ l. blocks ∷ l) same, empty)
    below (some pages) lists1 (at, (aligned1, (same, counts))) =
        (at, (AllAligned.cons here aligned1, (ap suc same, λ x. let c = counts x in omega arith)))

-- what `alloc_pages` promises of its answer and of the memory it leaves
abbrev pub Allocated : ℕ → KernelMemory → Option ℕ → KernelMemory → Type 0
Allocated order mem none mem1 =
    (mem1 ≡ mem) × All (λ blocks. blocks ≡ []) (drop order mem.list_of_free_memory)
Allocated order mem (some pages) mem1 =
    IsValid mem1
    × (IsAligned order pages
        × ((mem1.pages_allocated ≡ fetch_add mem.pages_allocated (2 ^ order))
            × ((x : ℕ)
                → holders x 0 mem.list_of_free_memory
                  ≡ inside x pages (bytes order) + holders x 0 mem1.list_of_free_memory)))

counted_lem :
    (order : ℕ) (mem : KernelMemory) (result : Option ℕ) (lists : List (List ℕ))
    → IsValid mem
    → Took order 0 order mem.list_of_free_memory result lists
    → let (answer, mem1) = account order result lists mem in Allocated order mem answer mem1
unfolding account
counted_lem order mem none lists valid (same, empty) = (
  ap (λ l. record { list_of_free_memory = l; pages_allocated = mem.pages_allocated }) same,
  empty,
)
counted_lem order mem (some pages) lists valid (at, (aligned1, (same, counts))) = (
  record {
    orders = same ∙ valid.orders;
    aligned = aligned1;
    disjoint = λ x. let c = counts x in let d = valid.disjoint x in omega arith;
  },
  (at, (refl, counts)),
)

-- Of a valid memory `alloc_pages` returns NULL and changes nothing if no block of the order or a
-- larger one is free, as for every order above the largest. Otherwise it returns an aligned block
-- that was free: every address is held by as many free blocks as before, less the returned block, the
-- memory stays valid, and the pages are counted.
pub alloc_pages-Takes :
    (order : ℕ) (mem : KernelMemory)
    → IsValid mem
    → let (answer, mem1) = alloc_pages order mem in Allocated order mem answer mem1
unfolding alloc_pages
alloc_pages-Takes order mem valid =
    let (result, lists) = alloc_at order order mem.list_of_free_memory in
    counted_lem order mem result lists valid
      (alloc_at-Took order 0 order mem.list_of_free_memory (omega arith) valid.aligned)
