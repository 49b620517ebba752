-- ===== src/BufferCache/Release.antt =====
-- kernel/kernel/bio.c: bio_release and bio_might_free.
use vimix_os.Base.{
  ℕ, ◌+◌, ◌<◌, ◌≡◌, inl, inr, sym, true, false, Bool-cases, some, arith, leb, subst,
}
use vimix_os.BufferCache.Buffers.{Buf, BioCache, size_max, uint32_max, find_at, remove, buf_deinit}
use vimix_os.BufferCache.Operations.{
  bio_put, bio_release, bio_might_free, bio_has_too_many_buffers, drop_reference, is_unused,
  move_to_tail,
}
use vimix_os.BufferCache.Lists.{
  total, at, found_address, total-update, total-remove, total-move, find-update, decrement_lem,
}
use vimix_os.BufferCache.Search.{key, unused}
use vimix_os.BufferCache.Invariant.{IsValid, one, refs, less, held-find, put-IsValid}

pub dropped-find :
    (cache : BioCache) (a : ℕ) (b : Buf)
    → find_at a cache.buf_list ≡ some b
    → find_at a (bio_put a cache).buf_list ≡ some (drop_reference b)
unfolding bio_put drop_reference
dropped-find cache a b e =
    find-update drop_reference a b cache.buf_list e (found_address a b cache.buf_list e)

pub release-kept :
    (cache : BioCache) (a : ℕ) (b : Buf)
    → find_at a cache.buf_list ≡ some b
    → 1 < b.refcnt
    → bio_release a cache ≡ bio_put a cache
unfolding bio_release is_unused drop_reference
release-kept cache a b e several =
    let f = dropped-find cache a b e in
    let fewer = decrement_lem uint32_max b.refcnt (omega arith) in ground arith

pub release-last :
    (cache : BioCache) (a : ℕ) (b : Buf)
    → find_at a cache.buf_list ≡ some b
    → b.refcnt ≡ 1
    → bio_release a cache ≡ bio_might_free a (bio_put a cache)
unfolding bio_release is_unused drop_reference
release-last cache a b e single =
    let f = dropped-find cache a b e in
    let fewer = decrement_lem uint32_max b.refcnt (omega arith) in ground arith

pub might_free-full :
    (cache : BioCache) (a : ℕ)
    → bio_has_too_many_buffers cache ≡ true
    → bio_might_free a cache ≡ buf_deinit a cache
unfolding bio_might_free
might_free-full cache a e = ground arith

pub might_free-kept :
    (cache : BioCache) (a : ℕ)
    → bio_has_too_many_buffers cache ≡ false
    → bio_might_free a cache ≡ record cache {
      buf_list = move_to_tail a cache.buf_list;
      free_buffers = cache.free_buffers + 1;
    }
unfolding bio_might_free
might_free-kept cache a e = ground arith

-- The sums over the list after the last reference of a buffer is dropped.
module _ (cache : BioCache) (held : ℕ → ℕ) (a : ℕ) (b : Buf) (valid : IsValid cache held)
    (e : find_at a cache.buf_list ≡ some b) (single : b.refcnt ≡ 1) (alone : held a ≡ 1) where
  pub dropped_sum :
      (weight : Buf → ℕ)
      → total weight (bio_put a cache).buf_list + weight b
        ≡ total weight cache.buf_list + weight (drop_reference b)
  unfolding bio_put
  dropped_sum weight = total-update weight drop_reference a b cache.buf_list e

  pub removed_sum :
      (weight : Buf → ℕ)
      → total weight (remove a (bio_put a cache).buf_list) + weight b ≡ total weight cache.buf_list
  removed_sum weight =
      let s = dropped_sum weight in
      let r =
        total-remove weight a (drop_reference b) (bio_put a cache).buf_list
          (dropped-find cache a b e) in
      omega arith

  freed-IsValid : IsValid (buf_deinit a (bio_put a cache)) (less a held)
  unfolding buf_deinit bio_put drop_reference
  freed-IsValid =
      let there = found_address a b cache.buf_list e in
      let n = removed_sum one in
      let c = valid.counts.counted in
      let fewer = decrement_lem size_max cache.num_buffers (omega arith) in
      record {
        counts = record {
          once = λ x. let s = removed_sum (at x) in let v = valid.counts.once x in omega arith;
          unique = λ dev blockno h.
              let s = removed_sum (key dev blockno) in
              let v = valid.counts.unique dev blockno h in omega arith;
          references = λ x.
              let s = removed_sum (refs x) in let v = valid.counts.references x in ground arith;
          counted = omega arith;
          idle = let s = removed_sum unused in let v = valid.counts.idle in ground arith;
        };
        trimmed = let t = valid.trimmed in omega arith;
      }

  moved-IsValid :
      bio_has_too_many_buffers (bio_put a cache) ≡ false
      → IsValid
          (record (bio_put a cache) {
            buf_list = move_to_tail a (bio_put a cache).buf_list;
            free_buffers = (bio_put a cache).free_buffers + 1;
          })
          (less a held)
  unfolding bio_put drop_reference bio_has_too_many_buffers
  moved-IsValid few =
      let there = found_address a b cache.buf_list e in
      let gone = decrement_lem uint32_max b.refcnt (omega arith) in
      let sum = λ (weight : Buf → ℕ).
        total-move weight a (drop_reference b) (bio_put a cache).buf_list
          (dropped-find cache a b e) in
      record {
        counts = record {
          once = λ x.
              let m = sum (at x) in
              let s = dropped_sum (at x) in let v = valid.counts.once x in omega arith;
          unique = λ dev blockno h.
              let m = sum (key dev blockno) in
              let s = dropped_sum (key dev blockno) in
              let v = valid.counts.unique dev blockno h in omega arith;
          references = λ x.
              let m = sum (refs x) in
              let s = dropped_sum (refs x) in let v = valid.counts.references x in ground arith;
          counted =
              let m = sum one in
              let s = dropped_sum one in let c = valid.counts.counted in omega arith;
          idle =
              let m = sum unused in
              let s = dropped_sum unused in let v = valid.counts.idle in ground arith;
        };
        trimmed = ground arith;
      }

  last-IsValid : IsValid (bio_might_free a (bio_put a cache)) (less a held)
  last-IsValid = elim (Bool-cases (bio_has_too_many_buffers (bio_put a cache))) [
    | inl full ↦
        subst (λ c. IsValid c (less a held)) (sym (might_free-full (bio_put a cache) a full))
          freed-IsValid
    | inr few ↦
        subst (λ c. IsValid c (less a held)) (sym (might_free-kept (bio_put a cache) a few))
          (moved-IsValid few)
  ]

pub release-IsValid :
    (cache : BioCache) (held : ℕ → ℕ) (a : ℕ)
    → IsValid cache held
    → 0 < held a
    → IsValid (bio_release a cache) (less a held)
release-IsValid cache held a valid positive =
    let (b, (e, amount)) = held-find cache held a valid positive in
    elim (Bool-cases (leb b.refcnt 1)) [
      | inl last ↦
          let single : b.refcnt ≡ 1 = ground arith in
          subst (λ c. IsValid c (less a held)) (sym (release-last cache a b e single))
            (last-IsValid cache held a b valid e single (omega arith))
      | inr several ↦
          let many : 1 < b.refcnt = ground arith in
          subst (λ c. IsValid c (less a held)) (sym (release-kept cache a b e many))
            (put-IsValid cache held a valid (omega arith))
    ]
