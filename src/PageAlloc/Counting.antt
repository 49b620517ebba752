-- ===== src/PageAlloc/Counting.antt =====
-- How many free blocks of kernel/mm/kalloc.c hold an address, and the arithmetic of buddies.
use vimix_os.Base.{
  ℕ, zero, suc, ◌+◌, ◌-◌, ◌*◌, ◌/◌, ◌%◌, ◌^◌, ◌≤◌, ◌<◌, min, ◌≡◌, ◌⊎◌, inl, inr, refl, ap, ◌∙◌,
  List, [], ◌∷◌, ◌==◌, leb, ltb, length, ◌&&◌, Bool-cases, if◌then◌else◌, arith,
}
use vimix_os.PageAlloc.{page_alloc_max_order, KernelMemory, bytes, page_shift, flip_bit}

-- 1 if the address x is one of the n bytes from a, 0 if not
abbrev pub inside : ℕ → ℕ → ℕ → ℕ
inside x a n = if leb a x && ltb x (a + n) then 1 else 0

-- the number of the blocks of one order that hold x
unfoldable pub in_blocks : ℕ → ℕ → List ℕ → ℕ
in_blocks x order [] = 0
in_blocks x order (block ∷ blocks) = inside x block (bytes order) + in_blocks x order blocks

-- the number of the free blocks that hold x, in the lists from an order up
unfoldable pub holders : ℕ → ℕ → List (List ℕ) → ℕ
unfolding in_blocks
holders x order [] = 0
holders x order (blocks ∷ lists) = in_blocks x order blocks + holders x (suc order) lists

-- A block of an order starts at a multiple of its size.
abbrev pub IsAligned : ℕ → ℕ → Type 0
IsAligned order a = (q : ℕ) × (a ≡ q * bytes order)

pub data AreAligned (order : ℕ) : List ℕ → Type 0 where
  nil : AreAligned order []
  cons :
      {a : ℕ} {blocks : List ℕ}
      → IsAligned order a
      → AreAligned order blocks
      → AreAligned order (a ∷ blocks)

pub data AllAligned : ℕ → List (List ℕ) → Type 0 where
  nil : {order : ℕ} → AllAligned order []
  cons :
      {order : ℕ} {blocks : List ℕ} {lists : List (List ℕ)}
      → AreAligned order blocks
      → AllAligned (suc order) lists
      → AllAligned order (blocks ∷ lists)

pub bytes_suc : (order : ℕ) → bytes (suc order) ≡ 2 * bytes order
bytes_suc order = omega arith

pub bytes_positive : (order : ℕ) → 0 < bytes order
bytes_positive zero = omega arith
bytes_positive (suc order) = let ih = bytes_positive order in omega arith

pub bytes_shift : (order : ℕ) → 2 ^ (page_shift + order) ≡ bytes order
bytes_shift zero = refl
bytes_shift (suc order) =
    let ih = bytes_shift order in
    let next : page_shift + suc order ≡ suc (page_shift + order) = omega arith in
    ap (λ n. 2 ^ n) next ∙ omega arith

parity : (q : ℕ) → ((h : ℕ) × (q ≡ h + h)) ⊎ ((h : ℕ) × (q ≡ suc (h + h)))
parity q = elim (Bool-cases (q % 2 == 0)) [
  | inl t ↦ inl (q / 2, ground arith)
  | inr f ↦ inr (q / 2, ground arith)
]

multiple_div : (q s : ℕ) → 0 < s → q * s / s ≡ q
multiple_div q s pos = grind arith

pub inside_halves : (x a s : ℕ) → inside x a (2 * s) ≡ inside x a s + inside x (a + s) s
inside_halves x a s = ground arith

-- the address with the bit of value s flipped
abbrev flipped : ℕ → ℕ → ℕ
flipped pa s = if pa / s % 2 == 0 then pa + s else pa - s

flipped_even : (h s : ℕ) → 0 < s → flipped ((h + h) * s) s ≡ (h + h) * s + s
flipped_even h s pos = rw (multiple_div (h + h) s pos) (ground arith)

flipped_odd : (h s : ℕ) → 0 < s → flipped (suc (h + h) * s) s ≡ (h + h) * s
flipped_odd h s pos = rw (multiple_div (suc (h + h)) s pos) (ground arith)

-- what two buddies of size s are to each other
abbrev AreBuddies : ℕ → ℕ → ℕ → Type 0
AreBuddies s pa buddy =
    ((q : ℕ) × (buddy ≡ q * s))
    × (((q : ℕ) × (min pa buddy ≡ q * (2 * s)))
        × (((buddy ≡ pa + s) × (min pa buddy ≡ pa)) ⊎ ((pa ≡ buddy + s) × (min pa buddy ≡ buddy))))

even_buddies : (h s : ℕ) → 0 < s → AreBuddies s ((h + h) * s) (flipped ((h + h) * s) s)
even_buddies h s pos =
    rw (flipped_even h s pos)
      ((suc (h + h), omega arith), ((h, ground arith), inl (refl, ground arith)))

odd_buddies : (h s : ℕ) → 0 < s → AreBuddies s (suc (h + h) * s) (flipped (suc (h + h) * s) s)
odd_buddies h s pos =
    rw (flipped_odd h s pos) ((h + h, refl), ((h, ground arith), inr (omega arith, ground arith)))

flipped_lem : (s pa q : ℕ) → 0 < s → pa ≡ q * s → AreBuddies s pa (flipped pa s)
flipped_lem s pa q pos e = elim (parity q) [
  | inl (h, even) ↦ rw (e, even) (even_buddies h s pos)
  | inr (h, odd) ↦ rw (e, odd) (odd_buddies h s pos)
]

-- The buddy of an aligned block is aligned and beside it, and the left one of the two is aligned for
-- the next order.
pub flip_bit_lem :
    (order pa : ℕ)
    → IsAligned order pa
    → IsAligned order (flip_bit pa (page_shift + order))
      × (IsAligned (suc order) (min pa (flip_bit pa (page_shift + order)))
          × (((flip_bit pa (page_shift + order) ≡ pa + bytes order)
                × (min pa (flip_bit pa (page_shift + order)) ≡ pa))
              ⊎ ((pa ≡ flip_bit pa (page_shift + order) + bytes order)
                  × (min pa (flip_bit pa (page_shift + order))
                      ≡ flip_bit pa (page_shift + order)))))
unfolding flip_bit
flip_bit_lem order pa (q, e) =
    rw (bytes_shift order, bytes_suc order)
      (flipped_lem (bytes order) pa q (bytes_positive order) e)

-- The ten free lists hold aligned blocks that do not overlap.
pub record IsValid (mem : KernelMemory) : Type 0 where
  pub orders : length mem.list_of_free_memory ≡ suc page_alloc_max_order
  pub aligned : AllAligned 0 mem.list_of_free_memory
  pub disjoint : (x : ℕ) → holders x 0 mem.list_of_free_memory ≤ 1
