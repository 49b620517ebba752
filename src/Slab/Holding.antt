-- ===== src/Slab/Holding.antt =====
-- kernel/mm/slab.c: the objects that callers hold, over any sequence of calls.
use vimix_os.Base.{
  ℕ, suc, ◌+◌, ◌-◌, ◌<◌, ◌≤◌, ◌≡◌, ◌≢◌, ◌⊎◌, inl, inr, refl, subst, ltb, Bool, true, false, Option,
  none, some, List, [], ◌∷◌, ◌++◌, length, arith, ◌==◌, if◌then◌else◌, ap, sym, ◌∙◌,
}
use vimix_os.Slab.{
  page_size, slab_bytes, max_slab_size, round_to_min_slab_size, KmemSlab, add_objects,
  kmem_slab_create, kmem_slab_alloc, take_first, is_nil, kmem_slab_free, kmem_slab_get_max_objects,
  kmem_slab_get_free_count, kmem_slab_is_empty, kmem_slab_is_full,
}
use vimix_os.Slab.Objects.{count, add_objects-AreObjects, length-add_objects}

-- A slab, and the objects that were handed out and not given back.
pub data Reachable (page size : ℕ) : KmemSlab → List ℕ → Type 0 where
  created : {s : KmemSlab} → kmem_slab_create page size ≡ some s → Reachable page size s []
  allocated :
      {s after : KmemSlab} {held : List ℕ} {object : ℕ}
      → Reachable page size s held
      → kmem_slab_alloc s ≡ (some object, after)
      → Reachable page size after (object ∷ held)
  -- Only an object that is held is given back.
  freed :
      {s : KmemSlab} {held left : List ℕ} (object : ℕ) (xs ys : List ℕ)
      → Reachable page size s held
      → held ≡ xs ++ (object ∷ ys)
      → left ≡ xs ++ ys
      → Reachable page size (kmem_slab_free object s) left

-- No object is free and held, or held twice, each lies in the page behind the slab's own bytes, no two
-- share a byte, and each has the requested bytes; the counters say how many are held and free.
pub record IsValid (page size : ℕ) (s : KmemSlab) (held : List ℕ) : Type 0 where
  pub once : (a : ℕ) → count a s.free_list + count a held ≤ 1
  pub placed :
      (a : ℕ)
      → 0 < count a s.free_list + count a held
      → (page + slab_bytes ≤ a) × (a + s.object_size ≤ page + page_size)
  pub apart :
      (a b : ℕ)
      → 0 < count a s.free_list + count a held
      → 0 < count b s.free_list + count b held
      → a ≢ b
      → (a + s.object_size ≤ b) ⊎ (b + s.object_size ≤ a)
  pub enough : size ≤ s.object_size
  pub counted : s.objects_allocated ≡ length held
  pub total : length s.free_list + length held ≡ kmem_slab_get_max_objects s

List-cases : (xs : List ℕ) → (xs ≡ []) ⊎ ((y : ℕ) × ((ys : List ℕ) × (xs ≡ y ∷ ys)))
List-cases [] = inl refl
List-cases (y ∷ ys) = inr (y, (ys, refl))

length-append_one :
    (object : ℕ) (xs ys : List ℕ) → length (xs ++ (object ∷ ys)) ≡ suc (length (xs ++ ys))
length-append_one object [] ys = refl
length-append_one object (x ∷ xs) ys = ap suc (length-append_one object xs ys)

count-append_one :
    (a object : ℕ) (xs ys : List ℕ)
    → count a (xs ++ (object ∷ ys)) ≡ (if a == object then 1 else 0) + count a (xs ++ ys)
unfolding count
count-append_one a object [] ys = refl
count-append_one a object (x ∷ xs) ys = let h = count-append_one a object xs ys in omega (arith, h)

new_slab-IsValid :
    (page size requested : ℕ)
    → 0 < size
    → requested ≤ size
    → IsValid page requested
        (record {
          page = page;
          free_list = add_objects page_size page size 48 [];
          object_size = size;
          objects_allocated = 0;
        })
        []
unfolding kmem_slab_get_max_objects count
new_slab-IsValid page size requested positive enough =
    let objects =
      add_objects-AreObjects page_size page size 48 [] (omega arith) (omega arith) positive
        (record {
          once = λ a. omega arith;
          placed = λ a there. absurd (omega arith);
          apart = λ a b x y differ. absurd (omega arith);
        }) in
    let total = length-add_objects page_size page size 48 [] (omega arith) positive (omega arith) in
    record {
      once = λ a. (let h = objects.once a in omega arith);
      placed = λ a there. objects.placed a (omega arith);
      apart = λ a b x y differ. objects.apart a b (omega arith) (omega arith) differ;
      enough = enough;
      counted = refl;
      total = omega (arith, total);
    }

some_value : (x : KmemSlab) → Option KmemSlab → KmemSlab
some_value x none = x
some_value x (some y) = y

created_value :
    (refused : Bool) (x s : KmemSlab) → (if refused then none else some x) ≡ some s → x ≡ s
unfolding some_value
created_value true x s e = absurd (ground arith)
created_value false x s e = ap (some_value x) e

pub create-IsValid :
    (page size : ℕ) (s : KmemSlab)
    → 0 < size
    → kmem_slab_create page size ≡ some s
    → IsValid page size s []
unfolding kmem_slab_create
create-IsValid page size s positive e =
    let rounded = round_to_min_slab_size size in
    let new : KmemSlab = record {
      page = page;
      free_list = add_objects page_size page rounded 48 [];
      object_size = rounded;
      objects_allocated = 0;
    } in
    let valid = new_slab-IsValid page rounded size (omega arith) (omega arith) in
    subst (λ x. IsValid page size x []) (created_value (ltb max_slab_size rounded) new s e) valid

small_enough : (n : ℕ) → n ≤ max_slab_size → ltb max_slab_size n ≡ false
small_enough n fits = ground arith

-- A slab is created for a size that fits.
pub create-some :
    (page size : ℕ)
    → round_to_min_slab_size size ≤ max_slab_size
    → (s : KmemSlab) × ((kmem_slab_create page size ≡ some s)
        × ((s.page ≡ page)
            × ((s.objects_allocated ≡ 0) × (s.object_size ≡ round_to_min_slab_size size))))
unfolding kmem_slab_create
create-some page size fits =
    let new : KmemSlab = record {
      page = page;
      free_list = add_objects page_size page (round_to_min_slab_size size) 48 [];
      object_size = round_to_min_slab_size size;
      objects_allocated = 0;
    } in
    (new, (ap (λ t. if t then none else some new) (small_enough _ fits), (refl, (refl, refl))))

pub alloc-cases :
    (s : KmemSlab)
    → ((s.free_list ≡ []) × (kmem_slab_alloc s ≡ (none, s)))
      ⊎ ((x : ℕ) × ((xs : List ℕ) × ((s.free_list ≡ x ∷ xs)
              × (kmem_slab_alloc s ≡ (
                some x,
                record s { free_list = xs; objects_allocated = s.objects_allocated + 1 },
              )))))
unfolding kmem_slab_alloc take_first
alloc-cases s = elim (List-cases s.free_list) [
  | inl e ↦ inl (e, ap (λ l. take_first l s) e)
  | inr (x, (xs, e)) ↦ inr (x, (xs, (e, ap (λ l. take_first l s) e)))
]

taken-IsValid :
    (page size : ℕ) (s : KmemSlab) (held xs : List ℕ) (x : ℕ)
    → IsValid page size s held
    → s.free_list ≡ x ∷ xs
    → IsValid page size
        (record s { free_list = xs; objects_allocated = s.objects_allocated + 1 })
        (x ∷ held)
unfolding count kmem_slab_get_max_objects
taken-IsValid page size s held xs x valid e =
    let c = valid.counted in
    let t = valid.total in
    let l = ap length e in
    let counts : (a : ℕ) → count a s.free_list ≡ (if a == x then 1 else 0) + count a xs =
      λ a. ap (count a) e in
    record {
      once = λ a. (let o = valid.once a in let n = counts a in omega arith);
      placed = λ a there. (let n = counts a in valid.placed a (omega arith));
      apart = λ a b x y differ.
          (let n = counts a in
            let m = counts b in valid.apart a b (omega arith) (omega arith) differ);
      enough = valid.enough;
      counted = omega arith;
      total = omega arith;
    }

pub alloc-IsValid :
    (page size : ℕ) (s after : KmemSlab) (held : List ℕ) (object : ℕ)
    → IsValid page size s held
    → kmem_slab_alloc s ≡ (some object, after)
    → IsValid page size after (object ∷ held)
alloc-IsValid page size s after held object valid e = elim (alloc-cases s) [
  | inl (empty, refused) ↦ absurd (let clash = ap (λ r. r.0) (sym refused ∙ e) in ground arith)
  | inr (x, (xs, (first, given))) ↦
      let both = sym given ∙ e in
      let result = ap (λ r. r.1) both in
      let same : x ≡ object = (let o = ap (λ r. r.0) both in ground arith) in
      subst (λ o. IsValid page size after (o ∷ held)) same
        (subst (λ r. IsValid page size r (x ∷ held)) result
          (taken-IsValid page size s held xs x valid first))
]

pub free-IsValid :
    (page size : ℕ) (s : KmemSlab) (held left xs ys : List ℕ) (object : ℕ)
    → IsValid page size s held
    → held ≡ xs ++ (object ∷ ys)
    → left ≡ xs ++ ys
    → IsValid page size (kmem_slab_free object s) left
unfolding kmem_slab_free kmem_slab_get_max_objects count
free-IsValid page size s held left xs ys object valid e f =
    let c = valid.counted in
    let t = valid.total in
    let l = ap length e ∙ length-append_one object xs ys in
    let m = ap length f in
    let counts : (a : ℕ) → count a held ≡ (if a == object then 1 else 0) + count a left = λ a.
      ap (count a) e
      ∙ (count-append_one a object xs ys
          ∙ ap (λ z. (if a == object then 1 else 0) + count a z) (sym f)) in
    record {
      once = λ a. (let o = valid.once a in let n = counts a in omega arith);
      placed = λ a there. (let n = counts a in valid.placed a (omega arith));
      apart = λ a b x y differ.
          (let n = counts a in
            let m = counts b in valid.apart a b (omega arith) (omega arith) differ);
      enough = valid.enough;
      counted = omega arith;
      total = omega arith;
    }

is_nil-length : (xs : List ℕ) → is_nil xs ≡ (length xs == 0)
unfolding is_nil
is_nil-length [] = refl
is_nil-length (x ∷ xs) = ground arith

-- What the queries of a slab say of it.
abbrev pub Tells : KmemSlab → List ℕ → Type 0
Tells s held =
    (kmem_slab_get_free_count s ≡ length s.free_list)
    × ((kmem_slab_is_empty s ≡ (length held == 0))
        × (kmem_slab_is_full s ≡ (kmem_slab_get_free_count s == 0)))

queries : (page size : ℕ) (s : KmemSlab) (held : List ℕ) → IsValid page size s held → Tells s held
unfolding kmem_slab_get_free_count kmem_slab_is_empty kmem_slab_is_full
queries page size s held valid =
    let c = valid.counted in
    let t = valid.total in
    let free : kmem_slab_get_max_objects s - s.objects_allocated ≡ length s.free_list =
      omega arith in
    (free, (ap (λ n. n == 0) c, is_nil-length s.free_list ∙ ap (λ n. n == 0) (sym free)))

-- From a slab for objects of a size that is not 0, whatever sequence of allocations and of frees of held
-- objects: no object is free and held, or handed out twice, each has at least the requested bytes, which
-- lie in the page behind the slab's own bytes and in no other object; and the counts, the test for an
-- empty slab and that for a full one say what is held.
pub Reachable-IsValid :
    (page size : ℕ) (s : KmemSlab) (held : List ℕ)
    → 0 < size
    → Reachable page size s held
    → IsValid page size s held × Tells s held
Reachable-IsValid page size s held positive reachable =
    let valid = invariant reachable in (valid, queries page size s held valid)
  where
    invariant :
        {s : KmemSlab} {held : List ℕ} → Reachable page size s held → IsValid page size s held
    invariant (created {s = s} e) = create-IsValid page size s positive e
    invariant (allocated {s = s} {after = after} {held = held} {object = object} r e) =
        alloc-IsValid page size s after held object (invariant r) e
    invariant (freed {s = s} {held = held} {left = left} object xs ys r e f) =
        free-IsValid page size s held left xs ys object (invariant r) e f
