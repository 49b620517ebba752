-- ===== src/BlockMap/Lookup.antt =====
-- kernel/fs/vimixfs/bmap.c: finding or allocating the n-th block of a file.
use Prim.{tt}
use vimix_os.Base.{
  ℕ, ◌+◌, ◌-◌, ◌*◌, ◌/◌, ◌%◌, ◌<◌, ◌≡◌, ◌≢◌, inl, inr, refl, subst, ltb, true, false, some, arith,
  ◌==◌, if◌then◌else◌, Bool-cases, ap, sym, ◌∙◌,
}
use mathlib.Core.Path.{fun_ext}
use vimix_os.BlockMap.{
  update, Volume, n_direct, n_indirect, indirect_idx, double_indirect_idx, in_inode, in_block,
  write, block_alloc_init, bmap_from_block_range, bmap_from_block, with_block,
  bmap_get_block_address,
}
use vimix_os.BlockMap.Alloc.{block_alloc_init-Allocates}
use vimix_os.BlockMap.Slots.{Slot, top, single, double, leaf, at, IsValid}
use vimix_os.BlockMap.Store.{home, index, IsPresent}
use vimix_os.BlockMap.Gives.{
  Gives, found-Gives, refused-Gives, write-Gives, range-Gives, logged-Gives,
}

-- A slot in the block of another slot.
pub record In (t parent : Slot) : Type 0 where
  pub place : (s : Volume) → home t s ≡ in_block (at parent s)
  pub present : (s : Volume) → at parent s ≢ 0 → IsPresent t s
  pub absent : (s : Volume) → at parent s ≡ 0 → at t s ≡ 0

single-In : (j : ℕ) → In (single j) (top indirect_idx)
unfolding home at
single-In j = record { place = λ s. refl; present = λ s h. h; absent = λ s h. ground arith }

double-In : (i : ℕ) → In (double i) (top double_indirect_idx)
unfolding home at
double-In i = record { place = λ s. refl; present = λ s h. h; absent = λ s h. ground arith }

leaf-In : (i j : ℕ) → In (leaf i j) (double i)
unfolding home at
leaf-In i j = record { place = λ s. refl; present = λ s h. h; absent = λ s h. rw h refl }

-- A slot in a block that is there.
bmap_from_block-Gives :
    (t parent : Slot) (s : Volume)
    → In t parent
    → IsValid s
    → at parent s ≢ 0
    → let (addr, after) = bmap_from_block (at parent s) (index t) s in Gives t s addr after
unfolding bmap_from_block
bmap_from_block-Gives t parent s inside valid there =
    let given : (at parent s == 0) ≡ false = ground arith in
    let place = inside.place s in
    let (gives, empty) =
      subst
        (λ p.
          Gives t s (bmap_from_block_range p (index t) s).0 (bmap_from_block_range p (index t) s).2
          × ((bmap_from_block_range p (index t) s).1 ≡ true → at t s ≡ 0))
        place (range-Gives t s valid (inside.present s there)) in
    elim (Bool-cases (bmap_from_block_range (in_block (at parent s)) (index t) s).1) [
      | inl did ↦
          rw (given, did, bmap_from_block)
            (logged-Gives t s (bmap_from_block_range (in_block (at parent s)) (index t) s).2
              (bmap_from_block_range (in_block (at parent s)) (index t) s).0 (at parent s)
              (empty did) gives)
      | inr did ↦ rw (given, did, bmap_from_block) gives
    ]

chain-Gives :
    (t parent : Slot) (s s1 after : Volume) (ib_addr addr : ℕ)
    → In t parent
    → Gives parent s ib_addr s1
    → Gives t s1 addr after
    → Gives t s addr after
chain-Gives t parent s s1 after ib_addr addr inside g g2 = record {
  valid = g2.valid;
  size_kept = g2.size_kept ∙ g.size_kept;
  address = g2.address;
  kept = λ u there. g2.kept u (λ z. there (sym (g.kept u there) ∙ z)) ∙ g.kept u there;
  stable = λ there.
      (let unchanged = g.stable (λ z. there (inside.absent s z)) in
        g2.stable (subst (λ x. at t x ≢ 0) (sym unchanged) there) ∙ unchanged);
  full = λ z y h. g2.full z y (let e = g.size_kept in omega arith);
}

absent-Gives :
    (t parent : Slot) (s s1 : Volume) → In t parent → Gives parent s 0 s1 → Gives t s 0 s1
absent-Gives t parent s s1 inside g = record {
  valid = g.valid;
  size_kept = g.size_kept;
  address = inside.absent s1 g.address;
  kept = g.kept;
  stable = λ there. g.stable (λ z. there (inside.absent s z));
  full = g.full;
}

-- The block of a slot after that of the slot it stands in.
step-Gives :
    (t parent : Slot) (s s1 : Volume) (ib_addr : ℕ)
    → In t parent
    → Gives parent s ib_addr s1
    → let (addr, after) = bmap_from_block ib_addr (index t) s1 in Gives t s addr after
unfolding bmap_from_block
step-Gives t parent s s1 ib_addr inside g = elim (Bool-cases (ib_addr == 0)) [
  | inl z ↦
      let none_given : ib_addr ≡ 0 = ground arith in
      rw (z, bmap_from_block)
        (absent-Gives t parent s s1 inside (subst (λ a. Gives parent s a s1) none_given g))
  | inr there ↦
      let here = g.address in
      chain-Gives t parent s s1 (bmap_from_block ib_addr (index t) s1).1 ib_addr
        (bmap_from_block ib_addr (index t) s1).0 inside g
        (subst
          (λ a. Gives t s1 (bmap_from_block a (index t) s1).0 (bmap_from_block a (index t) s1).1)
          here (bmap_from_block-Gives t parent s1 inside g.valid (λ z. absurd (ground arith))))
]

-- Storing the 0 of a failed allocation where a 0 is changes nothing.
write_zero : (i a : ℕ) (s s1 : Volume) → s.addrs i ≡ 0 → a ≡ 0 → s1 ≡ s → write in_inode i a s1 ≡ s
unfolding write
write_zero i a s s1 empty zero unchanged =
    subst (λ x. write in_inode i a x ≡ s) (sym unchanged)
      (ap (λ f. record s { addrs = f }) (fun_ext λ k. at_index k))
  where
    at_index : (k : ℕ) → update i a s.addrs k ≡ s.addrs k
    at_index k = elim (Bool-cases (k == i)) [
      | inl e ↦ let here : k ≡ i = ground arith in rw e (zero ∙ sym (ap s.addrs here ∙ empty))
      | inr e ↦ rw e refl
    ]

allocated-Gives :
    (i : ℕ) (s : Volume)
    → IsValid s
    → s.addrs i ≡ 0
    → let (new, s1) = block_alloc_init s in Gives (top i) s new (write in_inode i new s1)
unfolding at home index
allocated-Gives i s valid empty = elim (block_alloc_init-Allocates s valid.boot) [
  | inl (none_free, (unchanged, full)) ↦
      subst
        (λ a. Gives (top i) s a (write in_inode i (block_alloc_init s).0 (block_alloc_init s).1))
        (sym none_free)
        (refused-Gives (top i) s (write in_inode i (block_alloc_init s).0 (block_alloc_init s).1)
          valid empty
          (write_zero i (block_alloc_init s).0 s (block_alloc_init s).1 empty none_free unchanged)
          full)
  | inr (nonzero, (inside, (free, (lower, takes)))) ↦
      write-Gives (top i) s (block_alloc_init s).1 (block_alloc_init s).0 valid tt empty nonzero
        free takes
]

with_block-Gives :
    (i : ℕ) (s : Volume) → IsValid s → Gives (top i) s ((with_block i s).addrs i) (with_block i s)
unfolding with_block at
with_block-Gives i s valid = elim (Bool-cases (s.addrs i == 0)) [
  | inl z ↦
      let g = allocated-Gives i s valid (ground arith) in
      rw (z, with_block)
        (subst
          (λ a. Gives (top i) s a (write in_inode i (block_alloc_init s).0 (block_alloc_init s).1))
          (sym g.address) g)
  | inr there ↦ rw (there, with_block) (found-Gives (top i) s valid (λ z. absurd (ground arith)))
]

-- the slot of the n-th block
pub slot : ℕ → Slot
slot n =
    if ltb n n_direct
    then top n
    else if ltb (n - n_direct) n_indirect
    then single (n - n_direct)
    else (let n2 = n - n_direct - n_indirect in leaf (n2 / n_indirect) (n2 % n_indirect))

-- For every block number of a file up to the largest, and whatever is allocated so far, the call
-- returns: the address that the inode and its indirect blocks then hold for that number, or 0, and
-- then every block of the disk is in use. No address that was there changes, no block is held twice
-- or free after it, and a block that was there is found without any change.
pub bmap_get_block_address-Gives :
    (n : ℕ) (s : Volume)
    → IsValid s
    → n < n_direct + (n_indirect + n_indirect * n_indirect)
    → (result : ℕ × Volume) × ((bmap_get_block_address n s ≡ some result)
        × Gives (slot n) s result.0 result.1)
unfolding bmap_get_block_address slot home index
bmap_get_block_address-Gives n s valid small =
    let s1 = with_block indirect_idx s in
    let g1 = with_block-Gives indirect_idx s valid in
    let s2 = with_block double_indirect_idx s in
    let g2 = with_block-Gives double_indirect_idx s valid in
    let row = (n - n_direct - n_indirect) / n_indirect in
    let column = (n - n_direct - n_indirect) % n_indirect in
    elim (Bool-cases (ltb n n_direct)) [
      | inl direct ↦
          rw (direct, bmap_get_block_address, slot) (_, (refl, (range-Gives (top n) s valid tt).0))
      | inr far ↦ elim (Bool-cases (ltb (n - n_direct) n_indirect)) [
        | inl indirect ↦
            rw (far, indirect, bmap_get_block_address, slot)
              (
                _,
                (
                  refl,
                  step-Gives (single (n - n_direct)) (top indirect_idx) s s1 (s1.addrs indirect_idx)
                      (single-In (n - n_direct)) g1,
                ),
              )
        | inr further ↦
            let inside : ltb (n - n_direct - n_indirect) (n_indirect * n_indirect) ≡ true =
              ground arith in
            rw (far, further, inside, bmap_get_block_address, slot)
              (
                _,
                (
                  refl,
                  step-Gives (leaf row column) (double row) s
                      (bmap_from_block (s2.addrs double_indirect_idx) row s2).1
                      (bmap_from_block (s2.addrs double_indirect_idx) row s2).0 (leaf-In row column)
                      (step-Gives (double row) (top double_indirect_idx) s s2
                        (s2.addrs double_indirect_idx) (double-In row) g2),
                ),
              )
      ]
    ]
