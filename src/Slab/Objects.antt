-- ===== src/Slab/Objects.antt =====
-- kernel/mm/slab.c: the objects of a new slab.
use vimix_os.Base.{
  ℕ, zero, suc, ◌+◌, ◌-◌, ◌/◌, ◌<◌, ◌≤◌, ◌≡◌, ◌≢◌, ◌⊎◌, inl, inr, leb, List, [], ◌∷◌, length, arith,
  ◌==◌, if◌then◌else◌, Bool-cases, ap, ◌∙◌,
}
use native.Mathlib.Nat.{div-eq-sub-div, div-eq_of_lt}
use vimix_os.Slab.{page_size, slab_bytes, add_objects}

-- how often an address is in a list
unfoldable pub count : ℕ → List ℕ → ℕ
count a [] = 0
count a (x ∷ xs) = (if a == x then 1 else 0) + count a xs

-- The addresses are objects of the page in front of an offset, each at most once.
pub record AreObjects (page size next : ℕ) (xs : List ℕ) : Type 0 where
  pub once : (a : ℕ) → count a xs ≤ 1
  pub placed : (a : ℕ) → 0 < count a xs → (page + slab_bytes ≤ a) × (a + size ≤ page + next)
  -- Two of them share no byte.
  pub apart : (a b : ℕ) → 0 < count a xs → 0 < count b xs → a ≢ b → (a + size ≤ b) ⊎ (b + size ≤ a)

AreObjects-next :
    (page size next : ℕ) (xs : List ℕ)
    → slab_bytes ≤ next
    → 0 < size
    → AreObjects page size next xs
    → AreObjects page size (next + size) ((page + next) ∷ xs)
unfolding count
AreObjects-next page size next xs lo positive h = record {
  once = λ a. (let o = h.once a in let p = h.placed a in ground arith);
  placed = λ a there. (let p = h.placed a in ground arith);
  apart = λ a b x y differ.
      (let p = h.placed a in let q = h.placed b in let d = h.apart a b in ground arith);
}

pub add_objects-AreObjects :
    (rounds page size next : ℕ) (xs : List ℕ)
    → slab_bytes ≤ next
    → next ≤ page_size
    → 0 < size
    → AreObjects page size next xs
    → AreObjects page size page_size (add_objects rounds page size next xs)
unfolding add_objects
add_objects-AreObjects zero page size next xs lo hi positive h = record {
  once = h.once;
  placed = λ a there. (let p = h.placed a there in (p.0, omega arith));
  apart = h.apart;
}
add_objects-AreObjects (suc rounds) page size next xs lo hi positive h =
    elim (Bool-cases (leb (next + size) page_size)) [
      | inl e ↦
          rw (e, add_objects)
            (add_objects-AreObjects rounds page size (next + size) ((page + next) ∷ xs)
              (omega arith) (ground arith) positive
              (AreObjects-next page size next xs lo positive h))
      | inr e ↦
          rw (e, add_objects)
            (record {
              once = h.once;
              placed = λ a there. (let p = h.placed a there in (p.0, omega arith));
              apart = h.apart;
            })
    ]

-- As many objects as fit between an offset and the end of the page are added.
pub length-add_objects :
    (rounds page size next : ℕ) (xs : List ℕ)
    → next ≤ page_size
    → 0 < size
    → page_size < next + rounds
    → length (add_objects rounds page size next xs) ≡ length xs + (page_size - next) / size
unfolding add_objects
length-add_objects zero page size next xs hi positive enough = absurd (omega arith)
length-add_objects (suc rounds) page size next xs hi positive enough =
    elim (Bool-cases (leb (next + size) page_size)) [
      | inl e ↦
          let fits : next + size ≤ page_size = ground arith in
          let step = div-eq-sub-div {m = size} {n = page_size - next} positive (omega arith) in
          let less : page_size - next - size ≡ page_size - (next + size) = omega arith in
          rw (e, add_objects)
            (length-add_objects rounds page size (next + size) ((page + next) ∷ xs) fits positive
                (omega arith)
              ∙ (let q = ap (λ x. x / size) less in omega (arith, step, q)))
      | inr e ↦
          let none_fits = div-eq_of_lt {n = page_size - next} {m = size} (ground arith) in
          rw (e, add_objects) (omega (arith, none_fits))
    ]
