-- ===== src/BlockMap/Alloc.antt =====
-- kernel/fs/vimixfs/bmap.c: which block is allocated, and what changes with it.
use vimix_os.Base.{
  ℕ, zero, suc, ◌+◌, ◌-◌, ◌/◌, ◌%◌, ◌<◌, ◌≤◌, ◌≡◌, ◌≢◌, ◌⊎◌, inl, inr, refl, subst, ltb, Bool, true,
  false, ◌&&◌, Option, none, some, ◌∷◌, arith, ◌==◌, if◌then◌else◌, Bool-cases, ap, sym, ◌∙◌,
  Option-cases, Option-cases,
}
use vimix_os.BlockMap.{
  Volume, bits_per_block, update, scan_bits, take_block, block_zero, found, alloc_from,
  block_alloc_init,
}

abbrev pub in_use : Volume → ℕ → Bool
in_use s b = s.bit (b / bits_per_block) (b % bits_per_block)

-- the first clear bit from bi on, or none
abbrev Scans : ℕ → ℕ → (ℕ → Bool) → ℕ → Option ℕ → Type 0
Scans bi b bits size none = (y : ℕ) → bi ≤ y → y < bits_per_block → b + y < size → bits y ≡ true
Scans bi b bits size (some x) =
    (bi ≤ x)
    × ((x < bits_per_block)
        × ((b + x < size) × ((bits x ≡ false) × ((y : ℕ) → bi ≤ y → y < x → bits y ≡ true))))

Scans-next :
    (bi b : ℕ) (bits : ℕ → Bool) (size : ℕ) (o : Option ℕ)
    → bits bi ≡ true
    → Scans (suc bi) b bits size o
    → Scans bi b bits size o
Scans-next bi b bits size none set h = λ y lo hi inside. elim (Bool-cases (y == bi)) [
  | inl e ↦ let same : y ≡ bi = ground arith in rw same set
  | inr e ↦ h y (ground arith) hi inside
]
Scans-next bi b bits size (some x) set (lo, (hi, (inside, (clear, h)))) =
    (omega arith, (hi, (inside, (clear, λ y l r. before y l r))))
  where
    before : (y : ℕ) → bi ≤ y → y < x → bits y ≡ true
    before y l r = elim (Bool-cases (y == bi)) [
      | inl e ↦ let same : y ≡ bi = ground arith in rw same set
      | inr e ↦ h y (ground arith) r
    ]

scan_bits-Scans :
    (n bi b : ℕ) (bits : ℕ → Bool) (size : ℕ)
    → bits_per_block ≤ n + bi
    → Scans bi b bits size (scan_bits n bi b bits size)
unfolding scan_bits
scan_bits-Scans zero bi b bits size enough = λ y lo hi inside. absurd (omega arith)
scan_bits-Scans (suc n) bi b bits size enough =
    let rest = scan_bits-Scans n (suc bi) b bits size (omega arith) in
    elim (Bool-cases (ltb bi bits_per_block && ltb (b + bi) size)) [
      | inl inside ↦ elim (Bool-cases (bits bi)) [
        | inl set ↦
            rw (inside, set, scan_bits)
              (Scans-next bi b bits size (scan_bits n (suc bi) b bits size) set rest)
        | inr clear ↦
            rw (inside, clear, scan_bits)
              (omega arith, (ground arith, (ground arith, (clear, λ y l r. absurd (omega arith)))))
      ]
      | inr outside ↦ rw (outside, scan_bits) (λ y lo hi inside. absurd (ground arith))
    ]

-- what allocating a block changes: its bit, its words, and the log
pub record Takes (s : Volume) (a : ℕ) (after : Volume) : Type 0 where
  pub bits : (y : ℕ) → in_use after y ≡ (if y == a then true else in_use s y)
  pub zeroed : (b k : ℕ) → after.words b k ≡ (if b == a then 0 else s.words b k)
  pub kept : (i : ℕ) → after.addrs i ≡ s.addrs i
  pub size_kept : after.size ≡ s.size
  pub logs : after.logged ≡ a ∷ (a / bits_per_block + s.bmapstart) ∷ s.logged

take_block-Takes :
    (b bi : ℕ) (s : Volume)
    → b % bits_per_block ≡ 0
    → bi < bits_per_block
    → Takes s (b + bi) (take_block b bi s)
unfolding take_block block_zero
take_block-Takes b bi s aligned small =
    let same : (b + bi) / bits_per_block ≡ b / bits_per_block = omega arith in
    record {
      bits = λ y. marked y;
      zeroed = λ c k. elim (Bool-cases (c == b + bi)) [ inl e ↦ rw e refl | inr e ↦ rw e refl ];
      kept = λ i. refl;
      size_kept = refl;
      logs = rw same refl;
    }
  where
    marked :
        (y : ℕ)
        → update
            (b / bits_per_block)
            (update bi true (s.bit (b / bits_per_block)))
            s.bit
            (y / bits_per_block)
            (y % bits_per_block)
          ≡ (if y == b + bi then true else in_use s y)
    marked y = elim (Bool-cases (y / bits_per_block == b / bits_per_block)) [
      | inl e ↦
          let same_block : y / bits_per_block ≡ b / bits_per_block = ground arith in
          elim (Bool-cases (y == b + bi)) [
            | inl y_taken ↦
                let bit_same : (y % bits_per_block == bi) ≡ true = ground arith in
                rw (e, bit_same, y_taken) refl
            | inr other ↦
                let bit_other : (y % bits_per_block == bi) ≡ false = ground arith in
                rw (e, bit_other, other, sym same_block) refl
          ]
      | inr e ↦ let other : (y == b + bi) ≡ false = ground arith in rw (e, other) refl
    ]

-- The first free block was taken, or there is none and nothing changed.
abbrev pub Allocates : Volume → ℕ → Volume → Type 0
Allocates s a after =
    ((a ≡ 0) × ((after ≡ s) × ((y : ℕ) → y < s.size → in_use s y ≡ true)))
    ⊎ ((a ≢ 0)
        × ((a < s.size)
            × ((in_use s a ≡ false) × (((y : ℕ) → y < a → in_use s y ≡ true) × Takes s a after))))

-- Bits that start a bitmap block stand at their places in it.
bits_of_block :
    (s : Volume) (b x : ℕ)
    → b % bits_per_block ≡ 0
    → x < bits_per_block
    → in_use s (b + x) ≡ s.bit (b / bits_per_block) x
bits_of_block s b x aligned small =
    let block : (b + x) / bits_per_block ≡ b / bits_per_block = omega arith in
    let place : (b + x) % bits_per_block ≡ x = omega arith in
    ap (λ k. s.bit k ((b + x) % bits_per_block)) block
    ∙ ap (λ i. s.bit (b / bits_per_block) i) place

-- A round that finds a clear bit allocates its block.
take_block-Allocates :
    (b bi : ℕ) (s : Volume)
    → b % bits_per_block ≡ 0
    → in_use s 0 ≡ true
    → ((y : ℕ) → y < b → y < s.size → in_use s y ≡ true)
    → Scans 0 b (s.bit (b / bits_per_block)) s.size (some bi)
    → Allocates s (b + bi) (take_block b bi s)
take_block-Allocates b bi s aligned boot before (lo, (small, (inside, (clear, earlier)))) =
    let free : in_use s (b + bi) ≡ false = bits_of_block s b bi aligned small ∙ clear in
    inr (not_boot free, (inside, (free, (used, take_block-Takes b bi s aligned small))))
  where
    not_boot : in_use s (b + bi) ≡ false → b + bi ≢ 0
    not_boot free e = absurd (let same = ap (in_use s) e in ground arith)

    used : (y : ℕ) → y < b + bi → in_use s y ≡ true
    used y h = elim (Bool-cases (ltb y b)) [
      | inl e ↦ before y (ground arith) (omega arith)
      | inr e ↦
          let split : b + (y - b) ≡ y = ground arith in
          subst (λ z. in_use s z ≡ true) split
            (bits_of_block s b (y - b) aligned (omega arith)
              ∙ earlier (y - b) (omega arith) (ground arith))
    ]

-- After a round that finds none, all bits before the next round are set.
round_used :
    (b : ℕ) (s : Volume)
    → b % bits_per_block ≡ 0
    → ((y : ℕ) → y < b → y < s.size → in_use s y ≡ true)
    → Scans 0 b (s.bit (b / bits_per_block)) s.size none
    → (y : ℕ) → y < b + bits_per_block
    → y < s.size
    → in_use s y ≡ true
round_used b s aligned before set y h inside = elim (Bool-cases (ltb y b)) [
  | inl e ↦ before y (ground arith) inside
  | inr e ↦
      let split : b + (y - b) ≡ y = ground arith in
      subst (λ z. in_use s z ≡ true) split
        (bits_of_block s b (y - b) aligned (omega arith)
          ∙ set (y - b) (omega arith) (omega arith) (omega arith))
]

alloc_from-Allocates :
    (n b : ℕ) (s : Volume)
    → s.size ≤ b + n
    → b % bits_per_block ≡ 0
    → in_use s 0 ≡ true
    → ((y : ℕ) → y < b → y < s.size → in_use s y ≡ true)
    → let (a, after) = alloc_from n b s in Allocates s a after
unfolding alloc_from
alloc_from-Allocates zero b s enough aligned boot before =
    inl (refl, (refl, λ y h. before y (omega arith) h))
alloc_from-Allocates (suc n) b s enough aligned boot before = elim (Bool-cases (ltb b s.size)) [
  | inl inside ↦
      rw (inside, alloc_from)
        (let scans =
            scan_bits-Scans bits_per_block 0 b (s.bit (b / bits_per_block)) s.size (omega arith) in
          elim (Option-cases (scan_bits bits_per_block 0 b (s.bit (b / bits_per_block)) s.size)) [
            | inl e ↦
                rw (e, found)
                  (alloc_from-Allocates n (b + bits_per_block) s (omega arith) (omega arith) boot (
                    round_used b s aligned before
                      (subst (Scans 0 b (s.bit (b / bits_per_block)) s.size) e scans)))
            | inr (bi, e) ↦
                rw (e, found)
                  (take_block-Allocates b bi s aligned boot before
                    (subst (Scans 0 b (s.bit (b / bits_per_block)) s.size) e scans))
          ])
  | inr outside ↦ rw (outside, alloc_from) (inl (refl, (refl, λ y h. before y (ground arith) h)))
]

-- When block 0 is in use, the allocation gives the first free block of the disk, which alone is then
-- marked in the bitmap, zeroed, and logged with its bitmap block; or 0 when every block is in use,
-- and then it changes nothing.
pub block_alloc_init-Allocates :
    (s : Volume) → in_use s 0 ≡ true → let (a, after) = block_alloc_init s in Allocates s a after
unfolding block_alloc_init
block_alloc_init-Allocates s boot =
    alloc_from-Allocates s.size 0 s (omega arith) refl boot (λ y h inside. absurd (omega arith))
