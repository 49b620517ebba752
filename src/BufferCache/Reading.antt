-- ===== src/BufferCache/Reading.antt =====
-- kernel/kernel/bio.c: bio_read in each of the three ways to a buffer.
use vimix_os.Base.{
  ℕ, ◌<◌, ◌≡◌, inl, inr, refl, sym, ap, ◌∙◌, Bool, true, false, Bool-cases, Option, some, List, ◌∷◌,
  arith, subst,
}
use vimix_os.BufferCache.Buffers.{Buf, BioCache, Allocation, find_at, buf_init, buf_reinit, update}
use vimix_os.BufferCache.Operations.{bio_read, read_buf, bio_get_from_cache, add_reference}
use vimix_os.BufferCache.Lists.{total, find-update, All-find}
use vimix_os.BufferCache.Search.{key}
use vimix_os.BufferCache.Invariant.{IsValid, more}
use vimix_os.BufferCache.Get.{
  hit, reused, Got, was_cached, was_unused, is_new, bio_get_from_cache-Got,
}
use vimix_os.BufferCache.Acquire.{IsFresh, Got-IsValid}
use vimix_os.BufferCache.Coherence.{
  Blocks, IsCurrent, IsCoherent, pins-find, update-update, update-IsCoherent, pins_zero,
}
use vimix_os.BufferCache.Read.{Reads, read-valid, Reads-fresh}

update-first : (f : Buf → Buf) (c : Buf) (l : List Buf) → update f c.address (c ∷ l) ≡ f c ∷ l
unfolding update
update-first f c l = ground arith

not_used : (b : Buf) → b.valid ≡ false → (0 < b.refcnt → b.valid ≡ true) → b.refcnt ≡ 0
not_used b invalid used = ground arith

module _ (memory : Option Allocation) (is_device : ℕ → Bool) (disk store : Blocks) (dev blockno : ℕ)
    (cache : BioCache) (held : ℕ → ℕ) (valid : IsValid cache held)
    (coherent : IsCoherent cache.buf_list disk store) (fresh : IsFresh memory cache)
    (known : is_device dev ≡ true) (device : 0 < dev) where
  -- A read returns a buffer.
  abbrev Returns : Type 0
  Returns =
      (result : ℕ × BioCache) × ((bio_read memory is_device disk dev blockno cache ≡ some result)
        × Reads dev blockno held disk store result)

  cached_reads :
      (b : Buf)
      → find_at b.address cache.buf_list ≡ some b
      → b.dev ≡ dev
      → b.blockno ≡ blockno
      → bio_get_from_cache memory dev blockno cache ≡ some (b.address, hit b cache)
      → IsValid (hit b cache) (more b.address held)
      → Returns
  unfolding add_reference read_buf
  cached_reads b e same_dev same_blockno got ok =
      let good = All-find (IsCurrent store) b.address b cache.buf_list e coherent.current in
      let found = find-update add_reference b.address b cache.buf_list e refl in
      elim (Bool-cases b.valid) [
        | inl is_valid ↦ (
          (b.address, hit b cache),
          (
            read-valid memory is_device disk store dev blockno cache (hit b cache) held b.address
                (add_reference b) got found known is_valid,
            (
              ok,
              (
                update-IsCoherent add_reference b.address b cache.buf_list disk store coherent e
                    (good.0, λ used. (is_valid, subst (λ d. 0 < d) (sym same_dev) device))
                    (λ d k. ground arith),
                (
                  add_reference b,
                  (
                    found,
                    (
                      same_dev,
                      (
                        same_blockno,
                        (
                          is_valid,
                          good.0 is_valid
                              ∙ (ap (λ d. store d b.blockno) same_dev
                                  ∙ ap (store dev) same_blockno),
                        ),
                      ),
                    ),
                  ),
                ),
              ),
            ),
          ),
        )
        | inr invalid ↦
            let idle : b.refcnt ≡ 0 = not_used b invalid (λ used. (good.1 used).0) in
            let settled = coherent.settled dev blockno device (
              pins-find b.address dev blockno b cache.buf_list e same_dev same_blockno
                (valid.counts.unique dev blockno device)
              ∙ idle) in
            Reads-fresh memory is_device disk store dev blockno cache (hit b cache) held b.address
              (add_reference b) got found known invalid same_dev same_blockno ok
              (subst (λ l. IsCoherent l disk store)
                (sym
                  (update-update add_reference (read_buf disk) b.address b cache.buf_list e refl))
                (update-IsCoherent (λ x. read_buf disk (add_reference x)) b.address b cache.buf_list
                  disk store coherent e
                  (
                    (λ v.
                        ap (λ d. disk d b.blockno) same_dev
                        ∙ (ap (disk dev) same_blockno
                            ∙ (sym settled
                                ∙ (ap (λ k. store dev k) (sym same_blockno)
                                    ∙ ap (λ d. store d b.blockno) (sym same_dev))))),
                    λ used. (refl, subst (λ d. 0 < d) (sym same_dev) device),
                  )
                  (λ d k. ground arith)))
              settled
      ]

  unused_reads :
      (b : Buf)
      → find_at b.address cache.buf_list ≡ some b
      → total (key dev blockno) cache.buf_list ≡ 0
      → b.refcnt ≡ 0
      → bio_get_from_cache memory dev blockno cache ≡ some (b.address, reused dev blockno b cache)
      → IsValid (reused dev blockno b cache) (more b.address held)
      → Returns
  unfolding buf_reinit read_buf
  unused_reads b e absent free got ok =
      let found = find-update (buf_reinit dev blockno) b.address b cache.buf_list e refl in
      let settled =
        coherent.settled dev blockno device (pins_zero dev blockno cache.buf_list absent) in
      Reads-fresh memory is_device disk store dev blockno cache (reused dev blockno b cache) held
        b.address (buf_reinit dev blockno b) got found known refl refl refl ok
        (subst (λ l. IsCoherent l disk store)
          (sym (
            update-update (buf_reinit dev blockno) (read_buf disk) b.address b cache.buf_list e
              refl))
          (update-IsCoherent (λ x. read_buf disk (buf_reinit dev blockno x)) b.address b
            cache.buf_list disk store coherent e ((λ v. sym settled), λ used. (refl, device))
            (λ d k. ground arith)))
        settled

  new_reads :
      (m : Allocation)
      → total (key dev blockno) cache.buf_list ≡ 0
      → bio_get_from_cache memory dev blockno cache ≡ some (m.address, buf_init m dev blockno cache)
      → IsValid (buf_init m dev blockno cache) (more m.address held)
      → Returns
  unfolding buf_init buf_reinit read_buf find_at total
  new_reads m absent got ok =
      let settled =
        coherent.settled dev blockno device (pins_zero dev blockno cache.buf_list absent) in
      let c : Buf = record {
        address = m.address;
        dev = dev;
        blockno = blockno;
        valid = false;
        refcnt = 1;
        contents = m.bytes;
      } in
      let l = c ∷ cache.buf_list in
      let found : find_at m.address l ≡ some c = ground arith in
      let first : update (read_buf disk) m.address l ≡ read_buf disk c ∷ cache.buf_list =
        update-first (read_buf disk) c cache.buf_list in
      Reads-fresh memory is_device disk store dev blockno cache (buf_init m dev blockno cache) held
        m.address c got found known refl refl refl ok
        (subst (λ k. IsCoherent k disk store) (sym first)
          (record {
            current = (((λ v. sym settled), λ used. (refl, device)), coherent.current);
            settled = λ d k h none_left. coherent.settled d k h (omega arith);
          }))
        settled

  -- A read of a block of a device gives the store's bytes, if kmalloc gives memory.
  pub read-Returns : (m : Allocation) → memory ≡ some m → Returns
  read-Returns m gave = elim (bio_get_from_cache-Got memory dev blockno cache valid.counts.once) [
    | inr (lost, failed) ↦ absurd (ground arith)
    | inl (result, (got, way)) ↦
        by_way result got way (Got-IsValid memory dev blockno cache result held valid fresh way)
  ]
    where
      by_way :
          (result : ℕ × BioCache)
          → bio_get_from_cache memory dev blockno cache ≡ some result
          → Got memory dev blockno cache result
          → IsValid result.1 (more result.0 held)
          → Returns
      by_way result got (was_cached b e d k same) ok =
          cached_reads b e d k (got ∙ ap some same)
            (subst (λ r. IsValid r.1 (more r.0 held)) same ok)
      by_way result got (was_unused b e absent first free same) ok =
          unused_reads b e absent free (got ∙ ap some same)
            (subst (λ r. IsValid r.1 (more r.0 held)) same ok)
      by_way result got (is_new n gave_n absent busy same) ok =
          new_reads n absent (got ∙ ap some same) (subst (λ r. IsValid r.1 (more r.0 held)) same ok)
