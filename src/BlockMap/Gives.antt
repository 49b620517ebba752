-- ===== src/BlockMap/Gives.antt =====
-- kernel/fs/vimixfs/bmap.c: finding or allocating the block of one slot.
use vimix_os.Base.{
  ℕ, ◌<◌, ◌≡◌, ◌≢◌, inl, inr, refl, subst, true, false, arith, ◌==◌, if◌then◌else◌, Bool-cases, ap,
  sym, ◌∙◌,
}
use vimix_os.BlockMap.{
  Volume, log_write, Place, in_inode, in_block, read, write, block_alloc_init,
  bmap_from_block_range,
}
use vimix_os.BlockMap.Alloc.{in_use, Takes, block_alloc_init-Allocates}
use vimix_os.BlockMap.Slots.{
  Slot, top, single, double, leaf, same, same_sound, same_refl, at, IsValid,
}
use vimix_os.BlockMap.Store.{home, index, IsPresent, Fills, write-Fills, read_lem}

-- What finding the block of a slot gives.
pub record Gives (t : Slot) (s : Volume) (addr : ℕ) (after : Volume) : Type 0 where
  pub valid : IsValid after
  pub size_kept : after.size ≡ s.size
  pub address : at t after ≡ addr
  -- No address that was there changes.
  pub kept : (u : Slot) → at u s ≢ 0 → at u after ≡ at u s
  -- What is there is found without a change.
  pub stable : at t s ≢ 0 → after ≡ s
  -- Without a block the disk is full.
  pub full : addr ≡ 0 → (y : ℕ) → y < s.size → in_use after y ≡ true

Fills-IsValid :
    (t : Slot) (a : ℕ) (s after : Volume)
    → IsValid s
    → a ≢ 0
    → in_use s a ≡ false
    → ((y : ℕ) → in_use after y ≡ (if y == a then true else in_use s y))
    → Fills t a s after
    → IsValid after
Fills-IsValid t a s after valid nonzero free bits fills = record {
  boot = (let b = bits 0 in let old = valid.boot in ground arith);
  used = λ u there. held u there;
  unshared = λ u v e there. alone u v e there;
}
  where
    fresh : (u : Slot) → at u s ≢ a
    fresh u e = absurd (
        let clash = ap (in_use s) e in
        let old = valid.used u (λ z. nonzero (sym e ∙ z)) in ground arith)

    held : (u : Slot) → at u after ≢ 0 → in_use after (at u after) ≡ true
    held u there = elim (Bool-cases (same u t)) [
      | inl e ↦ let f = fills u in let b = bits (at u after) in ground arith
      | inr e ↦
          let f : at u after ≡ at u s = fills u ∙ rw e refl in
          let old = valid.used u (λ z. there (f ∙ z)) in
          let b = bits (at u s) in subst (λ z. in_use after z ≡ true) (sym f) (ground arith)
    ]

    alone : (u v : Slot) → at u after ≡ at v after → at u after ≢ 0 → same u v ≡ true
    alone u v e there =
        let f = fills u in
        let g = fills v in
        elim (Bool-cases (same u t)) [
          | inl eu ↦ elim (Bool-cases (same v t)) [
            | inl ev ↦ subst (λ z. same u z ≡ true) (sym (same_sound v t ev)) eu
            | inr ev ↦ absurd (let n = fresh v in ground arith)
          ]
          | inr eu ↦ elim (Bool-cases (same v t)) [
            | inl ev ↦ absurd (let n = fresh u in ground arith)
            | inr ev ↦ valid.unshared u v (ground arith) (ground arith)
          ]
        ]

-- The log does not change what a slot holds.
at-logged : (u : Slot) (b : ℕ) (s : Volume) → at u (log_write b s) ≡ at u s
unfolding at
at-logged (top i) b s = refl
at-logged (single j) b s = refl
at-logged (double i) b s = refl
at-logged (leaf i j) b s = refl

IsValid-logged : (b : ℕ) (s : Volume) → IsValid s → IsValid (log_write b s)
IsValid-logged b s valid = record {
  boot = valid.boot;
  used = λ u there.
      subst (λ z. in_use s z ≡ true) (sym (at-logged u b s))
        (valid.used u (λ z. there (at-logged u b s ∙ z)));
  unshared = λ u v e there.
      valid.unshared u v (sym (at-logged u b s) ∙ (e ∙ at-logged v b s))
        (λ z. there (at-logged u b s ∙ z));
}

write-kept :
    (p : Place) (i a : ℕ) (s : Volume) (y : ℕ)
    → (in_use (write p i a s) y ≡ in_use s y) × ((write p i a s).size ≡ s.size)
unfolding write
write-kept in_inode i a s y = (refl, refl)
write-kept (in_block b) i a s y = (refl, refl)

-- Allocating a block for an empty slot.
pub write-Gives :
    (t : Slot) (s s1 : Volume) (a : ℕ)
    → IsValid s
    → IsPresent t s
    → at t s ≡ 0
    → a ≢ 0
    → in_use s a ≡ false
    → Takes s a s1
    → Gives t s a (write (home t s) (index t) a s1)
write-Gives t s s1 a valid present empty nonzero free takes =
    let fills = write-Fills s s1 a valid takes nonzero free t present empty in
    record {
      valid =
          Fills-IsValid t a s (write (home t s) (index t) a s1) valid nonzero free
            (λ y. (write-kept (home t s) (index t) a s1 y).0 ∙ takes.bits y) fills;
      size_kept = (write-kept (home t s) (index t) a s1 0).1 ∙ takes.size_kept;
      address = fills t ∙ rw (same_refl t) refl;
      kept = λ u there. unmoved u there;
      stable = λ there. absurd (there empty);
      full = λ z. absurd (nonzero z);
    }
  where
    unmoved : (u : Slot) → at u s ≢ 0 → at u (write (home t s) (index t) a s1) ≡ at u s
    unmoved u there = elim (Bool-cases (same u t)) [
      | inl e ↦ absurd (there (ap (λ z. at z s) (same_sound u t e) ∙ empty))
      | inr e ↦ write-Fills s s1 a valid takes nonzero free t present empty u ∙ rw e refl
    ]

pub refused-Gives :
    (t : Slot) (s s1 : Volume)
    → IsValid s
    → at t s ≡ 0
    → s1 ≡ s
    → ((y : ℕ) → y < s.size → in_use s y ≡ true)
    → Gives t s 0 s1
refused-Gives t s s1 valid empty unchanged full = subst (Gives t s 0) (sym unchanged) (record {
  valid = valid;
  size_kept = refl;
  address = empty;
  kept = λ u there. refl;
  stable = λ there. refl;
  full = λ z. full;
})

pub found-Gives : (t : Slot) (s : Volume) → IsValid s → at t s ≢ 0 → Gives t s (at t s) s
found-Gives t s valid there = record {
  valid = valid;
  size_kept = refl;
  address = refl;
  kept = λ u h. refl;
  stable = λ h. refl;
  full = λ z. absurd (there z);
}

pub range-Gives :
    (t : Slot) (s : Volume)
    → IsValid s
    → IsPresent t s
    → let (addr, did_allocate, after) = bmap_from_block_range (home t s) (index t) s in
      Gives t s addr after × (did_allocate ≡ true → at t s ≡ 0)
unfolding bmap_from_block_range
range-Gives t s valid present =
    let e = read_lem t s present in
    elim (Bool-cases (at t s == 0)) [
      | inl z ↦
          let empty : at t s ≡ 0 = ground arith in
          let zero_read : (read (home t s) (index t) s == 0) ≡ true = ground arith in
          elim (block_alloc_init-Allocates s valid.boot) [
            | inl (none_free, (unchanged, full)) ↦
                let refused : ((block_alloc_init s).0 == 0) ≡ true = ground arith in
                rw (zero_read, refused, bmap_from_block_range)
                  (refused-Gives t s (block_alloc_init s).1 valid empty unchanged full, λ h. empty)
            | inr (nonzero, (inside, (free, (lower, takes)))) ↦
                let given : ((block_alloc_init s).0 == 0) ≡ false = ground arith in
                rw (zero_read, given, bmap_from_block_range)
                  (
                    write-Gives t s (block_alloc_init s).1 (block_alloc_init s).0 valid present
                        empty nonzero free takes,
                    λ h. empty,
                  )
          ]
      | inr there ↦
          let full_read : (read (home t s) (index t) s == 0) ≡ false = ground arith in
          rw (full_read, bmap_from_block_range)
            (
              subst (λ z. Gives t s z s) (sym e) (found-Gives t s valid (ground arith)),
              λ h. absurd (ground arith),
            )
    ]

-- Logging a block after it changes no address.
pub logged-Gives :
    (t : Slot) (s after : Volume) (addr b : ℕ)
    → at t s ≡ 0
    → Gives t s addr after
    → Gives t s addr (log_write b after)
logged-Gives t s after addr b empty g = record {
  valid = IsValid-logged b after g.valid;
  size_kept = g.size_kept;
  address = at-logged t b after ∙ g.address;
  kept = λ u there. at-logged u b after ∙ g.kept u there;
  stable = λ there. absurd (there empty);
  full = g.full;
}
