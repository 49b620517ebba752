-- ===== src/PageAlloc/Region.antt =====
-- kernel/mm/kalloc.c: `kalloc_init_memory_region` frees exactly the pages of its region.
use vimix_os.Base.{
  ℕ, zero, suc, ◌+◌, ◌-◌, ◌*◌, ◌/◌, ◌^◌, ◌≤◌, ◌<◌, ◌%◌, ◌≡◌, refl, ap, ◌∙◌, Option, none, some,
  arith, leb, ltb, ◌==◌, Bool-cases, inl, inr, ==_iff,
}
use vimix_os.PageAlloc.{
  bytes, page_shift, page_size, page_alloc_max_order, KernelMemory, fetch_add, order_of,
  region_order, init_region, kalloc_init_memory_region,
}
use vimix_os.PageAlloc.Counting.{inside, holders, IsAligned, IsValid, bytes_positive}
use vimix_os.PageAlloc.Free.{free_pages-Gives}

order_le : (fuel tmp : ℕ) → order_of fuel tmp ≤ fuel
unfolding order_of
order_le zero tmp = omega arith
order_le (suc fuel) tmp = let ih = order_le fuel (tmp / 2) in ground arith

twice : (tmp q p : ℕ) → tmp % 2 ≡ 0 → tmp / 2 ≡ q * p → tmp ≡ q * (2 * p)
twice tmp q p even half = grind arith

-- The order found divides the page number.
order_divides : (fuel tmp : ℕ) → (q : ℕ) × (tmp ≡ q * 2 ^ order_of fuel tmp)
unfolding order_of
order_divides zero tmp = (tmp, omega arith)
order_divides (suc fuel) tmp = elim (Bool-cases (tmp % 2 == 0)) [
  | inl even ↦
      let (q, half) = order_divides fuel (tmp / 2) in
      let power : 2 * 2 ^ order_of fuel (tmp / 2) ≡ 2 ^ suc (order_of fuel (tmp / 2)) =
        omega arith in
      rw even (
        q,
        twice tmp q (2 ^ order_of fuel (tmp / 2)) ((==_iff (tmp % 2) 0).0 even) half
            ∙ ap (λ n. q * n) power,
      )
  | inr odd ↦ rw odd (tmp, omega arith)
]

page_multiple : (a q p : ℕ) → a ≡ q * p → a * 4096 ≡ q * (4096 * p)
page_multiple a q p e = grind arith

page_index : (a : ℕ) → a * page_size / 2 ^ page_shift ≡ a
page_index a = omega arith

-- The block of a round is aligned, of a valid order, and ends in the region.
region_order_lem :
    (a e : ℕ)
    → a < e
    → (region_order (a * page_size) (e * page_size) ≤ page_alloc_max_order)
      × (IsAligned (region_order (a * page_size) (e * page_size)) (a * page_size)
          × (a * page_size + bytes (region_order (a * page_size) (e * page_size)) ≤ e * page_size))
unfolding region_order
region_order_lem a e below = rw (page_index a) (
    let small = order_le 9 a in
    let (q, divides) = order_divides 9 a in
    elim (Bool-cases (leb (a * page_size + bytes (order_of 9 a)) (e * page_size))) [
      | inl fits ↦
          rw fits (small, ((q, page_multiple a q (2 ^ order_of 9 a) divides), ground arith))
      | inr big ↦ rw big (omega arith, ((a, refl), omega arith))
    ])

counted : ℕ → KernelMemory → KernelMemory
counted order mem = record {
  list_of_free_memory = mem.list_of_free_memory;
  pages_allocated = fetch_add mem.pages_allocated (2 ^ order);
}

counted-IsValid : (order : ℕ) (mem : KernelMemory) → IsValid mem → IsValid (counted order mem)
unfolding counted
counted-IsValid order mem valid = record {
  orders = valid.orders;
  aligned = valid.aligned;
  disjoint = valid.disjoint;
}

-- what adding the pages from a up to e promises
abbrev pub Added : ℕ → ℕ → KernelMemory → Option KernelMemory → Type 0
Added a e mem result =
    (mem1 : KernelMemory) × ((result ≡ some mem1)
      × (IsValid mem1
          × ((x : ℕ)
              → holders x 0 mem1.list_of_free_memory
                ≡ inside x (a * page_size) ((e - a) * page_size)
                  + holders x 0 mem.list_of_free_memory)))

no_page : (x a e h : ℕ) → e ≤ a → h ≡ inside x (a * page_size) ((e - a) * page_size) + h
no_page x a e h above = let none_left : e - a ≡ 0 = omega arith in rw none_left (ground arith)

block_then_rest :
    (x a e p : ℕ)
    → a * page_size + page_size * p ≤ e * page_size
    → inside x (a * page_size) ((e - a) * page_size)
      ≡ inside x (a * page_size) (page_size * p)
        + inside x ((a + p) * page_size) ((e - (a + p)) * page_size)
block_then_rest x a e p fits = ground arith

init_region-Added :
    (fuel a e : ℕ) (mem : KernelMemory)
    → e ≤ a + fuel
    → IsValid mem
    → ((x : ℕ)
        → inside x (a * page_size) ((e - a) * page_size) + holders x 0 mem.list_of_free_memory ≤ 1)
    → Added a e mem (init_region fuel (a * page_size) (e * page_size) mem)
unfolding init_region counted
init_region-Added zero a e mem enough valid used =
    (mem, (refl, (valid, λ x. no_page x a e (holders x 0 mem.list_of_free_memory) (omega arith))))
init_region-Added (suc fuel) a e mem enough valid used =
    elim (Bool-cases (ltb (a * page_size) (e * page_size))) [
      | inr done ↦ rw done (
        mem,
        (refl, (valid, λ x. no_page x a e (holders x 0 mem.list_of_free_memory) (ground arith))),
      )
      | inl more ↦ rw more (
          let order = region_order (a * page_size) (e * page_size) in
          let (small, (at, fits)) = region_order_lem a e (ground arith) in
          let (mem1, (freed, (valid1, (pages, counts)))) =
            free_pages-Gives (a * page_size) order (counted order mem)
              (counted-IsValid order mem valid) small at
              (λ x.
                let u = used x in let b = block_then_rest x a e (2 ^ order) fits in omega arith) in
          let positive = bytes_positive order in
          let step : a * page_size + bytes order ≡ (a + 2 ^ order) * page_size = omega arith in
          let (mem2, (ran, (valid2, added))) =
            init_region-Added fuel (a + 2 ^ order) e mem1 (omega arith) valid1 (λ x.
              let u = used x in
              let b = block_then_rest x a e (2 ^ order) fits in let c = counts x in omega arith) in
          (
            mem2,
            (
              ap
                    (λ r. elim r [
                      | none ↦ none
                      | some m ↦ init_region fuel (a * page_size + bytes order) (e * page_size) m
                    ])
                    freed
                  ∙ (ap (λ addr. init_region fuel addr (e * page_size) mem1) step ∙ ran),
              (
                valid2,
                λ x.
                    let b = block_then_rest x a e (2 ^ order) fits in
                    let c = counts x in let d = added x in omega arith,
              ),
            ),
          ))
    ]

-- Adding a region of whole pages, from page a up to page e, to a valid memory in which no byte of it is
-- free never panics, and the loop ends: afterwards exactly one free block holds each byte of the region,
-- every other address is held as before, and the memory is valid.
pub kalloc_init_memory_region-Added :
    (a e : ℕ) (mem : KernelMemory)
    → IsValid mem
    → ((x : ℕ)
        → inside x (a * page_size) ((e - a) * page_size) + holders x 0 mem.list_of_free_memory ≤ 1)
    → Added a e mem (kalloc_init_memory_region (a * page_size) (e * page_size) mem)
unfolding kalloc_init_memory_region
kalloc_init_memory_region-Added a e mem valid used =
    init_region-Added ((e * page_size - a * page_size) / page_size + 1) a e mem (omega arith) valid
      used
