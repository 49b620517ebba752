-- ===== src/ObjectCache/Holding.antt =====
-- kernel/mm/cache.c: the objects that callers hold, over any sequence of calls.
use vimix_os.Base.{
  ℕ, ◌<◌, ◌≤◌, ◌≡◌, inl, inr, refl, sym, ap, ◌∙◌, subst, false, Bool-cases, Option, none, some,
  List, [], ◌∷◌, ◌++◌, arith, if◌then◌else◌, ltb,
}
use vimix_os.Slab.{max_slab_size, round_to_min_slab_size}
use vimix_os.Slab.Objects.{count}
use vimix_os.ObjectCache.{
  KmemCache, kmem_cache_init, kmem_cache_alloc, kmem_cache_free, kmem_cache_get_object_count,
}
use vimix_os.ObjectCache.Pages.{slabs_on}
use vimix_os.ObjectCache.Sound.{IsSound, IsFreshPage, Outcome}
use vimix_os.ObjectCache.Calls.{alloc-Outcome, free-IsSound}
use vimix_os.ObjectCache.Separate.{AreSeparate, separate}

-- A cache for objects of a size, and the objects that were handed out and not given back.
pub data Reachable (size : ℕ) : KmemCache → List ℕ → Type 0 where
  created : {c : KmemCache} → kmem_cache_init size ≡ some c → Reachable size c []
  allocated :
      {c after : KmemCache} {held : List ℕ} {object : ℕ} (page : Option ℕ)
      → Reachable size c held
      → IsFreshPage page c
      → kmem_cache_alloc page c ≡ some (some object, after)
      → Reachable size after (object ∷ held)
  -- Only an object that is held is given back.
  freed :
      {c : KmemCache} {held left : List ℕ} (object : ℕ) (xs ys : List ℕ)
      → Reachable size c held
      → held ≡ xs ++ (object ∷ ys)
      → left ≡ xs ++ ys
      → Reachable size (kmem_cache_free object c) left

cache_or : KmemCache → Option KmemCache → KmemCache
cache_or other none = other
cache_or other (some c) = c

empty_cache : ℕ → KmemCache
empty_cache size = record { object_size = round_to_min_slab_size size; slab_list = [] }

rounded_fits :
    (size : ℕ)
    → ltb max_slab_size (round_to_min_slab_size size) ≡ false
    → round_to_min_slab_size (round_to_min_slab_size size) ≤ max_slab_size
rounded_fits size fits =
    let small : round_to_min_slab_size size ≤ max_slab_size = ground arith in omega arith

init-IsSound : (size : ℕ) (c : KmemCache) → 0 < size → kmem_cache_init size ≡ some c → IsSound c []
unfolding kmem_cache_init cache_or empty_cache slabs_on kmem_cache_get_object_count count
init-IsSound size c positive e =
    elim (Bool-cases (ltb max_slab_size (round_to_min_slab_size size))) [
      | inl large ↦ absurd (
          let clash : ◌≡◌ {A = Option KmemCache} none (some c) =
            ap (λ t. if t then none else some (empty_cache size)) (sym large) ∙ e in
          ground arith)
      | inr fits ↦
          subst (λ x. IsSound x [])
            (ap (λ t. cache_or (empty_cache size) (if t then none else some (empty_cache size)))
                (sym fits)
              ∙ ap (cache_or (empty_cache size)) e)
            (record {
              positive = omega arith;
              fits = rounded_fits size fits;
              parts = tt;
              apart = λ p. omega arith;
              homes = λ a there. absurd (omega arith);
              counted = refl;
            })
    ]

result_or : Option ℕ × KmemCache → Option (Option ℕ × KmemCache) → Option ℕ × KmemCache
result_or other none = other
result_or other (some r) = r

reached-IsSound :
    {size : ℕ} {c : KmemCache} {held : List ℕ} → 0 < size → Reachable size c held → IsSound c held
unfolding result_or
reached-IsSound {size} positive r = reached r
  where
    reached : {c : KmemCache} {held : List ℕ} → Reachable size c held → IsSound c held
    reached (created {c = c} e) = init-IsSound size c positive e
    reached (allocated {c = c} {after = after} {held = held} {object = object} page r fresh e) =
        let sound = reached r in
        let (got, (f, outcome)) = alloc-Outcome c held sound page fresh in
        subst (Outcome page c held) (ap (result_or (none, c)) (sym f ∙ e)) outcome
    reached (freed {c = c} {held = held} {left = left} object xs ys r e f) =
        free-IsSound c held (reached r) object left xs ys e f

-- From a new cache for objects of a size that is not 0, whatever sequence of allocations, which may get
-- pages of their own, and of frees of held objects: no object is handed out twice, two held objects share no
-- byte of their size, each slab is valid and holds one at least, and the count of objects is that of the
-- held ones.
pub Reachable-IsSound :
    (size : ℕ) (c : KmemCache) (held : List ℕ)
    → 0 < size
    → Reachable size c held
    → AreSeparate c.object_size held × IsSound c held
Reachable-IsSound size c held positive r =
    let sound = reached-IsSound positive r in (separate c held sound, sound)

-- A call of kmem_cache_alloc on such a cache does not panic. It fails only where the page allocator has no
-- page, and leaves the cache as it was; else it hands out one object, and the cache stays sound.
pub kmem_cache_alloc-Outcome :
    (size : ℕ) (c : KmemCache) (held : List ℕ) (page : Option ℕ)
    → 0 < size
    → Reachable size c held
    → IsFreshPage page c
    → (r : Option ℕ × KmemCache) × ((kmem_cache_alloc page c ≡ some r) × Outcome page c held r)
kmem_cache_alloc-Outcome size c held page positive r fresh =
    alloc-Outcome c held (reached-IsSound positive r) page fresh
