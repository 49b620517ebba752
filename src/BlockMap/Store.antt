-- ===== src/BlockMap/Store.antt =====
-- kernel/fs/vimixfs/bmap.c: storing the address of a new block.
use vimix_os.Base.{
  ℕ, ◌≡◌, ◌≢◌, ◌⊎◌, inl, inr, refl, subst, false, ◌&&◌, arith, ◌==◌, if◌then◌else◌, Bool-cases, ap,
  sym, ◌∙◌,
}
use vimix_os.BlockMap.{
  Volume, indirect_idx, double_indirect_idx, Place, in_inode, in_block, read, write, update,
}
use vimix_os.BlockMap.Alloc.{in_use, Takes}
use vimix_os.BlockMap.Slots.{Slot, top, single, double, leaf, same, through, at, IsValid}

-- the place of a slot, and its index there
unfoldable pub home : Slot → Volume → Place
unfolding at
home (top i) s = in_inode
home (single j) s = in_block (at (top indirect_idx) s)
home (double i) s = in_block (at (top double_indirect_idx) s)
home (leaf i j) s = in_block (at (double i) s)

unfoldable pub index : Slot → ℕ
index (top i) = i
index (single j) = j
index (double i) = i
index (leaf i j) = j

-- The block that a slot stands in is there.
abbrev pub IsPresent : Slot → Volume → Type 0
IsPresent (top i) s = Unit {0}
IsPresent (single j) s = at (top indirect_idx) s ≢ 0
IsPresent (double i) s = at (top double_indirect_idx) s ≢ 0
IsPresent (leaf i j) s = at (double i) s ≢ 0

-- The words of a block that is not new, and of the new one.
module _ (p j a : ℕ) (words words2 : ℕ → ℕ → ℕ) (not_new : p ≢ a)
    (stored : (b k : ℕ)
      → words2 b k ≡ (if b == p && k == j then a else if b == a then 0 else words b k)) where
  old_block :
      (q k : ℕ)
      → q ≢ a
      → p ≢ 0
      → through words2 q k ≡ (if q == p && k == j then a else through words q k)
  old_block q k other present = let e = stored q k in ground arith

  other_block : (q k : ℕ) → q ≢ a → q ≢ p ⊎ (q ≡ 0) → p ≢ 0 → through words2 q k ≡ through words q k
  other_block q k other apart present = let e = stored q k in ground arith

  new_block : (k : ℕ) → through words2 a k ≡ 0
  new_block k = let e = stored a k in ground arith

-- Storing a new block's address at a slot that was empty fills that slot and moves no other address.
abbrev pub Fills : Slot → ℕ → Volume → Volume → Type 0
Fills t a s after = (u : Slot) → at u after ≡ (if same u t then a else at u s)

module _ (s s1 : Volume) (a : ℕ) (valid : IsValid s) (takes : Takes s a s1) (nonzero : a ≢ 0)
    (free : in_use s a ≡ false) where
  not_held : (u : Slot) → at u s ≢ a
  not_held u e =
      let held = valid.used u (λ z. nonzero (sym e ∙ z)) in
      absurd (let clash = ap (in_use s) e in ground arith)

  unmoved : (q k : ℕ) → q ≢ a → through s1.words q k ≡ through s.words q k
  unmoved q k other = let e = takes.zeroed q k in ground arith

  behind_top :
      (i idx k : ℕ)
      → at (top i) s ≡ 0
      → through s1.words (update i a s1.addrs idx) k ≡ through s.words (s.addrs idx) k
  unfolding at
  behind_top i idx k empty = elim (Bool-cases (idx == i)) [
    | inl e ↦
        let here : idx ≡ i = ground arith in
        let z = takes.zeroed a k in
        let none_yet : s.addrs idx ≡ 0 = ap s.addrs here ∙ empty in rw (e, none_yet) (ground arith)
    | inr e ↦ rw (e, takes.kept idx) (unmoved (s.addrs idx) k (not_held (top idx)))
  ]

  top-Fills : (i : ℕ) → at (top i) s ≡ 0 → Fills (top i) a s (write in_inode i a s1)
  unfolding at same write
  top-Fills i empty (top k) = let e = takes.kept k in ground arith
  top-Fills i empty (single k) = behind_top i indirect_idx k empty
  top-Fills i empty (double k) = behind_top i double_indirect_idx k empty
  top-Fills i empty (leaf k l) =
      ap (λ q. through s1.words q l) (behind_top i double_indirect_idx k empty)
      ∙ unmoved (at (double k) s) l (not_held (double k))

  -- Storing at index j of block p, which the file holds at slot t.
  module _ (t : Slot) (j : ℕ) (present : at t s ≢ 0) where
    stored :
        (b k : ℕ)
        → (write (in_block (at t s)) j a s1).words b k
          ≡ (if b == at t s && k == j then a else if b == a then 0 else s.words b k)
    unfolding write
    stored b k = elim (Bool-cases (b == at t s)) [
      | inl e ↦
          let here : b ≡ at t s = ground arith in
          let z = takes.zeroed (at t s) k in let n = not_held t in rw (e, here) (ground arith)
      | inr e ↦ let z = takes.zeroed b k in rw e z
    ]

    apart : (u : Slot) → same u t ≡ false → (at u s ≢ at t s) ⊎ (at u s ≡ 0)
    apart u other = elim (Bool-cases (at u s == 0)) [
      | inl e ↦ inr (ground arith)
      | inr e ↦
          inl (λ shared.
            absurd (let clash = valid.unshared u t shared (ground arith) in ground arith))
    ]

    -- what a slot in the block reads, and one in another block
    hit :
        (k : ℕ)
        → through (write (in_block (at t s)) j a s1).words (at t s) k
          ≡ (if k == j then a else through s.words (at t s) k)
    hit k =
        let e =
          old_block (at t s) j a s.words (write (in_block (at t s)) j a s1).words (not_held t)
            stored (at t s) k (not_held t) present in
        ground arith

    miss :
        (u : Slot) (k : ℕ)
        → same u t ≡ false
        → through (write (in_block (at t s)) j a s1).words (at u s) k ≡ through s.words (at u s) k
    miss u k other =
        other_block (at t s) j a s.words (write (in_block (at t s)) j a s1).words (not_held t)
          stored (at u s) k (not_held u) (apart u other) present

    fresh : (k : ℕ) → through (write (in_block (at t s)) j a s1).words a k ≡ 0
    fresh k =
        new_block (at t s) j a s.words (write (in_block (at t s)) j a s1).words (not_held t) stored
          k

    addrs_kept : (i : ℕ) → (write (in_block (at t s)) j a s1).addrs i ≡ s.addrs i
    unfolding write
    addrs_kept i = takes.kept i

  single_double :
      (j k : ℕ)
      → IsPresent (single j) s
      → at (double k) (write (in_block (at (top indirect_idx) s)) j a s1) ≡ at (double k) s
  unfolding at same
  single_double j k p =
      rw (addrs_kept (top indirect_idx) j p double_indirect_idx)
        (miss (top indirect_idx) j p (top double_indirect_idx) k refl)

  single-Fills :
      (j : ℕ)
      → IsPresent (single j) s
      → Fills (single j) a s (write (in_block (at (top indirect_idx) s)) j a s1)
  unfolding at same
  single-Fills j p (top k) = addrs_kept (top indirect_idx) j p k
  single-Fills j p (single k) =
      rw (addrs_kept (top indirect_idx) j p indirect_idx) (hit (top indirect_idx) j p k)
  single-Fills j p (double k) = single_double j k p
  single-Fills j p (leaf k l) =
      ap (λ q. through (write (in_block (at (top indirect_idx) s)) j a s1).words q l)
        (single_double j k p)
      ∙ miss (top indirect_idx) j p (double k) l refl

  double_double :
      (i k : ℕ)
      → IsPresent (double i) s
      → at (double k) (write (in_block (at (top double_indirect_idx) s)) i a s1)
        ≡ (if k == i then a else at (double k) s)
  unfolding at
  double_double i k p =
      rw (addrs_kept (top double_indirect_idx) i p double_indirect_idx)
        (hit (top double_indirect_idx) i p k)

  double-Fills :
      (i : ℕ)
      → IsPresent (double i) s
      → at (double i) s ≡ 0
      → Fills (double i) a s (write (in_block (at (top double_indirect_idx) s)) i a s1)
  unfolding at same
  double-Fills i p empty (top k) = addrs_kept (top double_indirect_idx) i p k
  double-Fills i p empty (single k) =
      rw (addrs_kept (top double_indirect_idx) i p indirect_idx)
        (miss (top double_indirect_idx) i p (top indirect_idx) k refl)
  double-Fills i p empty (double k) = double_double i k p
  double-Fills i p empty (leaf k l) =
      ap (λ q. through (write (in_block (at (top double_indirect_idx) s)) i a s1).words q l)
        (double_double i k p)
      ∙ elim (Bool-cases (k == i)) [
        | inl e ↦
            let here : k ≡ i = ground arith in
            let none_yet : at (double k) s ≡ 0 = ap (λ z. at (double z) s) here ∙ empty in
            rw (e, fresh (top double_indirect_idx) i p l, none_yet) refl
        | inr e ↦ rw e (miss (top double_indirect_idx) i p (double k) l refl)
      ]

  leaf_double :
      (i j k : ℕ)
      → IsPresent (leaf i j) s
      → at (double k) (write (in_block (at (double i) s)) j a s1) ≡ at (double k) s
  unfolding at same
  leaf_double i j k p =
      rw (addrs_kept (double i) j p double_indirect_idx)
        (miss (double i) j p (top double_indirect_idx) k refl)

  leaf-Fills :
      (i j : ℕ)
      → IsPresent (leaf i j) s
      → Fills (leaf i j) a s (write (in_block (at (double i) s)) j a s1)
  unfolding at same
  leaf-Fills i j p (top k) = addrs_kept (double i) j p k
  leaf-Fills i j p (single k) =
      rw (addrs_kept (double i) j p indirect_idx) (miss (double i) j p (top indirect_idx) k refl)
  leaf-Fills i j p (double k) = leaf_double i j k p
  leaf-Fills i j p (leaf k l) =
      ap (λ q. through (write (in_block (at (double i) s)) j a s1).words q l) (leaf_double i j k p)
      ∙ elim (Bool-cases (k == i)) [
        | inl e ↦
            let here : k ≡ i = ground arith in
            rw e (
              subst
                (λ z.
                  through (write (in_block (at (double i) s)) j a s1).words (at (double z) s) l
                  ≡ (if l == j then a else through s.words (at (double z) s) l))
                (sym here) (hit (double i) j p l))
        | inr e ↦ rw e (miss (double i) j p (double k) l e)
      ]

  pub write-Fills :
      (t : Slot) → IsPresent t s → at t s ≡ 0 → Fills t a s (write (home t s) (index t) a s1)
  unfolding home index
  write-Fills (top i) p empty = top-Fills i empty
  write-Fills (single j) p empty = single-Fills j p
  write-Fills (double i) p empty = double-Fills i p empty
  write-Fills (leaf i j) p empty = leaf-Fills i j p

pub read_lem : (t : Slot) (s : Volume) → IsPresent t s → read (home t s) (index t) s ≡ at t s
unfolding home index read at
read_lem (top i) s p = refl
read_lem (single j) s p = ground arith
read_lem (double i) s p = ground arith
read_lem (leaf i j) s p = ground arith
