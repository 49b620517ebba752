-- ===== src/BlockMap/Free.antt =====
-- kernel/fs/vimixfs/bmap.c: giving a block back.
use vimix_os.Base.{
  ℕ, ◌/◌, ◌%◌, ◌≡◌, ◌≢◌, inl, inr, refl, true, false, arith, ◌==◌, if◌then◌else◌, Bool-cases, ap,
  sym, ◌∙◌,
}
use vimix_os.BlockMap.{Volume, bits_per_block, block_alloc_init, block_free}
use vimix_os.BlockMap.Alloc.{in_use, block_alloc_init-Allocates}

free-in_use :
    (b : ℕ) (s : Volume) (y : ℕ)
    → in_use (block_free b s) y ≡ (if y == b then false else in_use s y)
unfolding block_free
free-in_use b s y = elim (Bool-cases (y / bits_per_block == b / bits_per_block)) [
  | inl e ↦
      let same_block : y / bits_per_block ≡ b / bits_per_block = ground arith in
      elim (Bool-cases (y == b)) [
        | inl freed ↦
            let bit_same : (y % bits_per_block == b % bits_per_block) ≡ true = ground arith in
            rw (e, bit_same, freed) refl
        | inr other ↦
            let bit_other : (y % bits_per_block == b % bits_per_block) ≡ false = ground arith in
            rw (e, bit_other, other, sym same_block) refl
      ]
  | inr e ↦ let other : (y == b) ≡ false = ground arith in rw (e, other) refl
]

free_size : (b : ℕ) (s : Volume) → (block_free b s).size ≡ s.size
unfolding block_free
free_size b s = refl

-- Two volumes of one size with the same bits in use allocate the same block.
same_bits-alloc :
    (s t : Volume)
    → in_use s 0 ≡ true
    → s.size ≡ t.size
    → ((y : ℕ) → in_use t y ≡ in_use s y)
    → (block_alloc_init t).0 ≡ (block_alloc_init s).0
same_bits-alloc s t boot sizes bits = elim (block_alloc_init-Allocates s boot) [
  | inl (a_none, (_, a_full)) ↦ elim (block_alloc_init-Allocates t (bits 0 ∙ boot)) [
    | inl (b_none, (_, b_full)) ↦ b_none ∙ sym a_none
    | inr (b_some, (b_inside, (b_free, _))) ↦
        let used = a_full (block_alloc_init t).0 (omega arith) in
        absurd (let e = bits (block_alloc_init t).0 in ground arith)
  ]
  | inr (a_some, (a_inside, (a_free, (a_lower, _)))) ↦
      elim (block_alloc_init-Allocates t (bits 0 ∙ boot)) [
        | inl (b_none, (_, b_full)) ↦
            let used = b_full (block_alloc_init s).0 (omega arith) in
            absurd (let e = bits (block_alloc_init s).0 in ground arith)
        | inr (b_some, (b_inside, (b_free, (b_lower, _)))) ↦
            let e = bits (block_alloc_init s).0 in
            let f = bits (block_alloc_init t).0 in
            let g = a_lower (block_alloc_init t).0 in
            let h = b_lower (block_alloc_init s).0 in ground arith
      ]
]

-- Freeing a block that was just allocated brings back the bitmap, so that the next allocation gives
-- the same block.
pub free-alloc :
    (s : Volume)
    → in_use s 0 ≡ true
    → let (a, s1) = block_alloc_init s in
      a ≢ 0
      → ((y : ℕ) → in_use (block_free a s1) y ≡ in_use s y)
        × ((block_alloc_init (block_free a s1)).0 ≡ a)
free-alloc s boot nonzero = elim (block_alloc_init-Allocates s boot) [
  | inl (none_free, _) ↦ absurd (nonzero none_free)
  | inr (_, (inside, (free, (lower, takes)))) ↦
      let back : (y : ℕ)
          → in_use (block_free (block_alloc_init s).0 (block_alloc_init s).1) y ≡ in_use s y =
        λ y.
          free-in_use (block_alloc_init s).0 (block_alloc_init s).1 y
          ∙ elim (Bool-cases (y == (block_alloc_init s).0)) [
            | inl e ↦
                let here : y ≡ (block_alloc_init s).0 = ground arith in
                rw e (sym (ap (in_use s) here ∙ free))
            | inr e ↦ rw e (takes.bits y ∙ rw e refl)
          ] in
      (
        back,
        same_bits-alloc s (block_free (block_alloc_init s).0 (block_alloc_init s).1) boot
            (sym (free_size (block_alloc_init s).0 (block_alloc_init s).1 ∙ takes.size_kept)) back,
      )
]
