-- ===== src/Print/Bounded.antt =====
-- kernel/lib/print_impl.c: what fill_destination writes to its destination.
use vimix_os.Base.{
  ℕ, zero, suc, ◌+◌, ◌-◌, ◌%◌, ◌<◌, ◌≤◌, ◌≡◌, ◌⊎◌, min, refl, ltb, true, false, inl, inr, List, [],
  ◌∷◌, get_or, length, arith, ◌==◌, Bool-cases, ap, ◌∙◌,
}
use vimix_os.Print.{SprintfPayload, store, put_char_in_buffer, put_all, fill_destination}

-- what the callback writes: as many characters as there is room for, and nothing elsewhere
record Writes (cs : List ℕ) (n d : ℕ) (m : ℕ → ℕ) (p : SprintfPayload) : Type 0 where
  left : p.n_left ≡ n - length cs
  position : p.dst_pos ≡ d + min n (length cs)
  inside : (i : ℕ) → i < min n (length cs) → p.memory (d + i) ≡ get_or cs i 0 % 256
  outside : (k : ℕ) → (k < d) ⊎ (d + min n (length cs) ≤ k) → p.memory k ≡ m k

put_all-full :
    (cs : List ℕ) (d : ℕ) (m : ℕ → ℕ)
    → put_all cs (record { n_left = 0; dst_pos = d; memory = m })
      ≡ record { n_left = 0; dst_pos = d; memory = m }
unfolding put_all put_char_in_buffer
put_all-full [] d m = refl
put_all-full (c ∷ cs) d m = put_all-full cs d m

put_char_lem :
    (c n d : ℕ) (m : ℕ → ℕ)
    → put_char_in_buffer c (record { n_left = suc n; dst_pos = d; memory = m })
      ≡ record { n_left = n; dst_pos = d + 1; memory = store d (c % 256) m }
unfolding put_char_in_buffer
put_char_lem c n d m =
    let room : (suc n == 0) ≡ false = ground arith in
    let less : suc n - 1 ≡ n = omega arith in rw (room, less) refl

step-Writes :
    (c : ℕ) (cs : List ℕ) (n d : ℕ) (m : ℕ → ℕ) (p : SprintfPayload)
    → Writes cs n (d + 1) (store d (c % 256) m) p
    → Writes (c ∷ cs) (suc n) d m p
step-Writes c cs n d m p rest = record {
  left = (let e = rest.left in omega arith);
  position = (let e = rest.position in omega arith);
  inside = λ i h. at_index i h;
  outside = λ k apart.
      rest.outside k (ground arith)
      ∙ (let other : (k == d) ≡ false = ground arith in rw other refl);
}
  where
    at_index :
        (i : ℕ) → i < min (suc n) (suc (length cs)) → p.memory (d + i) ≡ get_or (c ∷ cs) i 0 % 256
    at_index zero h =
        ap p.memory (omega arith)
        ∙ (rest.outside d (inl (omega arith))
            ∙ (let here : (d == d) ≡ true = ground arith in rw here refl))
    at_index (suc i) h = ap p.memory (omega arith) ∙ rest.inside i (omega arith)

put_all-Writes :
    (cs : List ℕ) (n d : ℕ) (m : ℕ → ℕ)
    → Writes cs n d m (put_all cs (record { n_left = n; dst_pos = d; memory = m }))
unfolding put_all put_char_in_buffer
put_all-Writes [] n d m = record {
  left = omega arith;
  position = omega arith;
  inside = λ i h. absurd (omega arith);
  outside = λ k h. refl;
}
put_all-Writes (c ∷ cs) zero d m = rw (put_all-full cs d m) (record {
  left = omega arith;
  position = omega arith;
  inside = λ i h. absurd (omega arith);
  outside = λ k h. refl;
})
put_all-Writes (c ∷ cs) (suc n) d m = rw (put_char_lem c n d m) (
    step-Writes c cs n d m
      (put_all cs (record { n_left = n; dst_pos = d + 1; memory = store d (c % 256) m }))
      (put_all-Writes cs n (d + 1) (store d (c % 256) m)))

-- The 0 goes behind the characters, or over the last one.
terminated :
    (dst n : ℕ) (printed : List ℕ) (memory : ℕ → ℕ) (k : ℕ)
    → 0 < n
    → fill_destination dst n printed memory k
      ≡ store
          (dst + min (n - 1) (length printed))
          0
          (put_all printed (record { n_left = n; dst_pos = dst; memory = memory })).memory
          k
unfolding fill_destination
terminated dst n printed memory k positive =
    let p = put_all printed (record { n_left = n; dst_pos = dst; memory = memory }) in
    let w = put_all-Writes printed n dst memory in
    let l = w.left in
    let q = w.position in
    let room : ltb 0 n ≡ true = ground arith in
    elim (Bool-cases (p.n_left == 0)) [
      | inl e ↦
          let place : p.dst_pos - 1 ≡ dst + min (n - 1) (length printed) = ground arith in
          rw (room, e) (ap (λ i. store i 0 p.memory k) place)
      | inr e ↦
          let place : p.dst_pos ≡ dst + min (n - 1) (length printed) = ground arith in
          rw (room, e) (ap (λ i. store i 0 p.memory k) place)
    ]

no_room :
    (dst n : ℕ) (printed : List ℕ) (memory : ℕ → ℕ)
    → ltb 0 n ≡ false
    → (k : ℕ)
    → fill_destination dst n printed memory k
      ≡ (put_all printed (record { n_left = n; dst_pos = dst; memory = memory })).memory k
unfolding fill_destination
no_room dst n printed memory e k = rw e refl

-- With room for n bytes from dst on, fill_destination changes no other byte; when n is not 0 it leaves there the
-- first n - 1 characters, or all when they are fewer, and a 0 behind them.
pub fill_destination-Bounded :
    (dst n : ℕ) (printed : List ℕ) (memory : ℕ → ℕ)
    → let after = fill_destination dst n printed memory in
      let count = min (n - 1) (length printed) in
      ((k : ℕ) → (k < dst) ⊎ (dst + n ≤ k) → after k ≡ memory k)
      × ((n ≡ 0)
          ⊎ (((i : ℕ) → i < count → after (dst + i) ≡ get_or printed i 0 % 256)
              × (after (dst + count) ≡ 0)))
fill_destination-Bounded dst n printed memory = (
  λ k apart. outer k apart,
  (elim (Bool-cases (n == 0)) [
    | inl e ↦ inl (ground arith)
    | inr e ↦ inr (λ i h. inner i (ground arith) h, last (ground arith))
  ]),
)
  where
    p : SprintfPayload
    p = put_all printed (record { n_left = n; dst_pos = dst; memory = memory })

    w : Writes printed n dst memory p
    w = put_all-Writes printed n dst memory

    outer : (k : ℕ) → (k < dst) ⊎ (dst + n ≤ k) → fill_destination dst n printed memory k ≡ memory k
    outer k apart = elim (Bool-cases (ltb 0 n)) [
      | inl e ↦
          let other : (k == dst + min (n - 1) (length printed)) ≡ false = ground arith in
          terminated dst n printed memory k (ground arith)
          ∙ (rw other refl ∙ w.outside k (ground arith))
      | inr e ↦ no_room dst n printed memory e k ∙ w.outside k (ground arith)
    ]

    inner :
        (i : ℕ)
        → 0 < n
        → i < min (n - 1) (length printed)
        → fill_destination dst n printed memory (dst + i) ≡ get_or printed i 0 % 256
    inner i positive h =
        let other : (dst + i == dst + min (n - 1) (length printed)) ≡ false = ground arith in
        terminated dst n printed memory (dst + i) positive
        ∙ (rw other refl ∙ w.inside i (omega arith))

    last : 0 < n → fill_destination dst n printed memory (dst + min (n - 1) (length printed)) ≡ 0
    last positive =
        let here : (dst + min (n - 1) (length printed) == dst + min (n - 1) (length printed))
            ≡ true =
          ground arith in
        terminated dst n printed memory (dst + min (n - 1) (length printed)) positive ∙ rw here refl
