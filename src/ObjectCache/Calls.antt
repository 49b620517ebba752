-- ===== src/ObjectCache/Calls.antt =====
-- kernel/mm/cache.c: an allocation and a free keep a cache sound.
use vimix_os.Base.{
  ℕ, ◌+◌, ◌%◌, ◌≤◌, ◌≡◌, inl, inr, refl, sym, ap, ◌∙◌, subst, Option, none, some, List, [], ◌∷◌,
  ◌++◌, length, arith, length-append,
}
use vimix_os.Slab.{page_size, max_slab_size, KmemSlab}
use vimix_os.Slab.Objects.{count}
use vimix_os.Slab.Holding.{IsValid, alloc-cases, create-IsValid, create-some}
use vimix_os.ObjectCache.{
  infer_slab, KmemCache, alloc_in, add_slab, grow, alloc_found, kmem_cache_alloc, kmem_cache_free,
  kmem_cache_get_object_count,
}
use vimix_os.ObjectCache.Pages.{objects_on, slabs_on, IsPart, parts-elsewhere, objects_on-other}
use vimix_os.ObjectCache.Alloc.{Gave, taken-IsPart, alloc_in-Gave}
use vimix_os.ObjectCache.Free.{free_in-Freed}
use vimix_os.ObjectCache.Sound.{
  IsSound, IsFreshPage, Outcome, objects_on-none, slabs_on-append, sum_allocated-append, All-append,
  removed-counted, left-counted, new_slab-room, first-counted,
}

module _ (cache : KmemCache) (held : List ℕ) (sound : IsSound cache held) where
  none-held : (page : ℕ) → slabs_on page cache.slab_list ≡ 0 → objects_on page held ≡ []
  none-held page fresh = objects_on-none page held (λ a there home.
      (let h = sound.homes a there in
        let n = ap (λ p. slabs_on p cache.slab_list) home in omega arith))

  -- the cache with a slab in a new page, of which one object is taken
  with_slab-IsSound :
      (s : KmemSlab) (x : ℕ)
      → slabs_on s.page cache.slab_list ≡ 0
      → infer_slab x ≡ s.page
      → s.objects_allocated ≡ 1
      → IsPart cache.object_size (x ∷ held) s
      → IsSound (record cache { slab_list = cache.slab_list ++ (s ∷ []) }) (x ∷ held)
  unfolding kmem_cache_get_object_count count
  with_slab-IsSound s x fresh home first part = record {
    positive = sound.positive;
    fits = sound.fits;
    parts =
        All-append (IsPart cache.object_size (x ∷ held)) cache.slab_list s
          (parts-elsewhere cache.object_size s.page held (x ∷ held) cache.slab_list
            (λ p differ. objects_on-other p x held (λ e. differ (e ∙ home))) fresh sound.parts)
          part;
    apart = λ p.
        let a = sound.apart p in
        let e = slabs_on-append p cache.slab_list s in
        let same = λ (h : s.page ≡ p). subst (λ q. slabs_on q cache.slab_list ≡ 0) h fresh in
        ground (arith, same);
    homes = λ a there.
        let h = sound.homes a in
        let e = slabs_on-append (infer_slab a) cache.slab_list s in
        let same = λ (h : a ≡ x). ap infer_slab h ∙ home in ground (arith, same);
    counted =
        let c = sound.counted in let e = sum_allocated-append cache.slab_list s in omega arith;
  }

  new-Outcome :
      (page : ℕ)
      → page % page_size ≡ 0
      → slabs_on page cache.slab_list ≡ 0
      → (r : Option ℕ × KmemCache) × ((grow (some page) cache ≡ some r)
          × Outcome (some page) cache held r)
  unfolding grow add_slab count
  new-Outcome page aligned fresh =
      let (s, (made, (at, (empty, width)))) = create-some page cache.object_size sound.fits in
      let valid = create-IsValid page cache.object_size s sound.positive made in
      let fits : s.object_size ≤ max_slab_size = (let f = sound.fits in omega arith) in
      let same_fresh = subst (λ p. slabs_on p cache.slab_list ≡ 0) (sym at) fresh in
      elim (alloc-cases s) [
        | inl (full, refused) ↦
            absurd (new_slab-room page cache.object_size s valid sound.positive fits full)
        | inr (x, (xs, (first, al))) ↦
            let after : KmemSlab = record s {
              free_list = xs;
              objects_allocated = s.objects_allocated + 1;
            } in
            let on = none-held page fresh in
            let (part, home) =
              taken-IsPart cache.object_size held s after x sound.positive
                (ap (λ p. p % page_size) at ∙ aligned)
                (subst (λ p. IsValid p cache.object_size s (objects_on p held)) (sym at)
                  (subst (IsValid page cache.object_size s) (sym on) valid))
                (first-counted x xs s.free_list first) refl refl al in
            (
              (some x, record cache { slab_list = cache.slab_list ++ (after ∷ []) }),
              (
                ap (λ o. add_slab o cache) made
                    ∙ ap
                        (λ r.
                          some (r.0, record cache { slab_list = cache.slab_list ++ (r.1 ∷ []) }))
                        al,
                with_slab-IsSound after x same_fresh home (omega arith) part,
              ),
            )
      ]

  -- An allocation from a slab of the cache.
  taken-Outcome :
      (object : ℕ) (slabs : List KmemSlab)
      → Gave cache.object_size held cache.slab_list (some (object, slabs))
      → IsSound (record cache { slab_list = slabs }) (object ∷ held)
  unfolding kmem_cache_get_object_count count
  taken-Outcome object slabs (inside, (same, (there, more))) = record {
    positive = sound.positive;
    fits = sound.fits;
    parts = inside;
    apart = λ p. (let a = sound.apart p in let e = same p in omega arith);
    homes = λ a held_there.
        let h = sound.homes a in
        let e = same (infer_slab a) in
        let f = λ (h : a ≡ object). ap (λ x. slabs_on (infer_slab x) cache.slab_list) h in
        ground (arith, f);
    counted = let c = sound.counted in omega arith;
  }

  pub alloc-Outcome :
      (page : Option ℕ)
      → IsFreshPage page cache
      → (r : Option ℕ × KmemCache) × ((kmem_cache_alloc page cache ≡ some r)
          × Outcome page cache held r)
  unfolding kmem_cache_alloc alloc_found grow
  alloc-Outcome page fresh =
      by_found (alloc_in cache.slab_list)
        (alloc_in-Gave cache.object_size held cache.slab_list sound.positive sound.parts
          sound.apart)
        page fresh
    where
      by_found :
          (o : Option (ℕ × List KmemSlab))
          → Gave cache.object_size held cache.slab_list o
          → (g : Option ℕ) → IsFreshPage g cache
          → (r : Option ℕ × KmemCache) × ((alloc_found g o cache ≡ some r) × Outcome g cache held r)
      by_found (some (object, slabs)) gave g new = (
        (some object, record cache { slab_list = slabs }),
        (refl, taken-Outcome object slabs gave),
      )
      by_found none gave none new = ((none, cache), (refl, (refl, refl)))
      by_found none gave (some p) new = new-Outcome p (new p refl).0 (new p refl).1

  pub free-IsSound :
      (object : ℕ) (left xs ys : List ℕ)
      → held ≡ xs ++ (object ∷ ys)
      → left ≡ xs ++ ys
      → IsSound (kmem_cache_free object cache) left
  unfolding kmem_cache_free kmem_cache_get_object_count
  free-IsSound object left xs ys e f =
      let there = sound.homes object (removed-counted object held xs ys e) in
      let (inside, (fewer, (homes, one_less))) =
        free_in-Freed cache.object_size object held left xs ys sound.positive e f cache.slab_list
          sound.parts sound.apart there in
      record {
        positive = sound.positive;
        fits = sound.fits;
        parts = inside;
        apart = λ p. (let a = sound.apart p in let n = fewer p in omega arith);
        homes = λ a held_there.
            homes a held_there
              (sound.homes a (left-counted a object held left xs ys e f held_there));
        counted =
            let c = sound.counted in
            let n = ap length e ∙ length-append xs (object ∷ ys) in
            let m = ap length f ∙ length-append xs ys in omega arith;
      }
