-- ===== src/ObjectCache/Sound.antt =====
-- kernel/mm/cache.c: what holds of a cache between calls.
use vimix_os.Base.{
  ℕ, ◌+◌, ◌/◌, ◌%◌, ◌<◌, ◌≤◌, ◌≡◌, ◌≢◌, refl, sym, ap, ◌∙◌, subst, Option, none, some, List, [],
  ◌∷◌, ◌++◌, length, All, arith, ◌==◌, if◌then◌else◌,
}
use native.Mathlib.Nat.{le-div_iff_mul-le}
use vimix_os.Slab.{
  page_size, max_slab_size, round_to_min_slab_size, KmemSlab, kmem_slab_get_max_objects,
}
use vimix_os.Slab.Objects.{count}
use vimix_os.Slab.Holding.{IsValid}
use vimix_os.ObjectCache.{infer_slab, KmemCache, sum_allocated, kmem_cache_get_object_count}
use vimix_os.ObjectCache.Pages.{objects_on, slabs_on, IsPart}
use vimix_os.ObjectCache.Alloc.{AreApart}

-- A cache and the objects that callers hold: the slabs are in pages of their own, each holds an object and
-- is valid with the held objects of its page; each held object is in the page of a slab; the count of
-- objects is that of the held ones.
pub record IsSound (cache : KmemCache) (held : List ℕ) : Type 0 where
  pub positive : 0 < cache.object_size
  pub fits : round_to_min_slab_size cache.object_size ≤ max_slab_size
  pub parts : All (IsPart cache.object_size held) cache.slab_list
  pub apart : AreApart cache.slab_list
  pub homes : (a : ℕ) → 0 < count a held → 0 < slabs_on (infer_slab a) cache.slab_list
  pub counted : kmem_cache_get_object_count cache ≡ length held

-- The page allocator gives a page that no slab of the cache is in.
abbrev pub IsFreshPage : Option ℕ → KmemCache → Type 0
IsFreshPage page cache =
    (p : ℕ) → page ≡ some p → (p % page_size ≡ 0) × (slabs_on p cache.slab_list ≡ 0)

-- The outcome of an allocation: none without a page, and the cache as it was, or one object more.
abbrev pub Outcome : Option ℕ → KmemCache → List ℕ → Option ℕ × KmemCache → Type 0
Outcome page cache held (none, after) = (page ≡ none) × (after ≡ cache)
Outcome page cache held (some object, after) = IsSound after (object ∷ held)

pub objects_on-none :
    (page : ℕ) (held : List ℕ)
    → ((a : ℕ) → 0 < count a held → infer_slab a ≢ page)
    → objects_on page held ≡ []
unfolding objects_on count
objects_on-none page [] away = refl
objects_on-none page (x ∷ held) away =
    let differ : infer_slab x ≢ page = away x (ground arith) in
    let ih = objects_on-none page held (λ a there. away a (omega arith)) in ground arith

pub slabs_on-append :
    (p : ℕ) (l : List KmemSlab) (s : KmemSlab)
    → slabs_on p (l ++ (s ∷ [])) ≡ slabs_on p l + (if s.page == p then 1 else 0)
unfolding slabs_on
slabs_on-append p [] s = omega arith
slabs_on-append p (x ∷ l) s = let ih = slabs_on-append p l s in omega arith

pub sum_allocated-append :
    (l : List KmemSlab) (s : KmemSlab)
    → sum_allocated (l ++ (s ∷ [])) ≡ sum_allocated l + s.objects_allocated
unfolding sum_allocated
sum_allocated-append [] s = omega arith
sum_allocated-append (x ∷ l) s = let ih = sum_allocated-append l s in omega arith

pub All-append :
    (P : KmemSlab → Type 0) (l : List KmemSlab) (s : KmemSlab)
    → All P l
    → P s
    → All P (l ++ (s ∷ []))
All-append P [] s h p = (p, tt)
All-append P (x ∷ l) s h p = (h.0, All-append P l s h.1 p)

pub count-append : (a : ℕ) (xs ys : List ℕ) → count a (xs ++ ys) ≡ count a xs + count a ys
unfolding count
count-append a [] ys = omega arith
count-append a (x ∷ xs) ys = let ih = count-append a xs ys in omega arith

pub removed-counted :
    (object : ℕ) (held xs ys : List ℕ) → held ≡ xs ++ (object ∷ ys) → 0 < count object held
unfolding count
removed-counted object held xs ys e =
    let c = ap (count object) e ∙ count-append object xs (object ∷ ys) in
    let h : 0 < count object (object ∷ ys) = ground arith in omega arith

pub left-counted :
    (a object : ℕ) (held left xs ys : List ℕ)
    → held ≡ xs ++ (object ∷ ys)
    → left ≡ xs ++ ys
    → 0 < count a left
    → 0 < count a held
unfolding count
left-counted a object held left xs ys e f there =
    let c = ap (count a) e ∙ count-append a xs (object ∷ ys) in
    let d = ap (count a) f ∙ count-append a xs ys in omega arith

-- A new slab has room for an object.
room : (size : ℕ) → 0 < size → size ≤ 1280 → 0 < 4048 / size
room size positive small = (le-div_iff_mul-le {x = 1} {y = 4048} positive).1 (omega arith)

pub new_slab-room :
    (page size : ℕ) (s : KmemSlab)
    → IsValid page size s []
    → 0 < size
    → s.object_size ≤ max_slab_size
    → s.free_list ≢ []
unfolding kmem_slab_get_max_objects
new_slab-room page size s valid positive small none_free =
    let t = valid.total in
    let n = ap length none_free in
    let e = valid.enough in let r = room s.object_size (omega arith) small in omega arith

pub first-counted : (x : ℕ) (xs l : List ℕ) → l ≡ x ∷ xs → 0 < count x l
unfolding count
first-counted x xs l e =
    subst (λ m. 0 < count x m) (sym e) (let h : 0 < count x (x ∷ xs) = ground arith in h)
