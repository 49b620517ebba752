-- ===== src/BufferCache/Leaving.antt =====
-- kernel/kernel/bio.c: bio_release and freeing keep the cache coherent where what leaves it is on the disk.
use vimix_os.Base.{
  ℕ, ◌+◌, ◌<◌, ◌≡◌, ◌⊎◌, inl, inr, sym, ◌∙◌, ◌&&◌, Bool-cases, some, List, [], ◌∷◌, ◌==◌, arith,
  ltb, subst, All,
}
use vimix_os.BufferCache.Buffers.{Buf, BioCache, uint32_max, find_at, remove, buf_deinit}
use vimix_os.BufferCache.Operations.{bio_put, drop_reference}
use vimix_os.BufferCache.Lists.{
  total, at, total-remove, All-find, All-move, All-remove, total-move, All-update, decrement_lem,
}
use vimix_os.BufferCache.Search.{AreDistinct}
use vimix_os.BufferCache.Invariant.{IsCounted, IsValid}
use vimix_os.BufferCache.Buffers.{uint32_max}
use vimix_os.BufferCache.Operations.{
  bio_release, bio_might_free, move_to_tail, bio_has_too_many_buffers, free_each,
  bio_cache_free_extra_buffers,
}
use vimix_os.BufferCache.Coherence.{Blocks, pins, IsCurrent, IsCoherent, put-IsCoherent}
use vimix_os.BufferCache.Release.{
  dropped-find, dropped_sum, removed_sum, release-last, release-kept, might_free-full,
  might_free-kept,
}
use vimix_os.BufferCache.Trim.{
  stay-removed, distinct-StandsIn, free_one, is_extra, free_each-extra, free_each-kept, StandsIn,
}

-- The sum of a block's references without a buffer that is on the disk.
module _ (cache : BioCache) (held : ℕ → ℕ) (a : ℕ) (b : Buf) (disk store : Blocks)
    (valid : IsValid cache held) (e : find_at a cache.buf_list ≡ some b) (single : b.refcnt ≡ 1)
    (alone : held a ≡ 1) (clean : b.contents ≡ disk b.dev b.blockno)
    (coherent : IsCoherent cache.buf_list disk store) where
  dropped-settled :
      (dev blockno after : ℕ)
      → 0 < dev
      → after + pins dev blockno b
        ≡ total (pins dev blockno) cache.buf_list + pins dev blockno (drop_reference b)
      → after ≡ 0
      → store dev blockno ≡ disk dev blockno
  unfolding drop_reference
  dropped-settled dev blockno after h sum none_left =
      let good = All-find (IsCurrent store) a b cache.buf_list e coherent.current in
      let current = good.0 (good.1 (omega arith)).0 in
      elim (Bool-cases ((b.dev == dev) && (b.blockno == blockno))) [
        | inl same ↦
            let d : b.dev ≡ dev = ground arith in
            let k : b.blockno ≡ blockno = ground arith in
            subst (λ x. store x blockno ≡ disk x blockno) d
              (subst (λ x. store b.dev x ≡ disk b.dev x) k (sym current ∙ clean))
        | inr other ↦ coherent.settled dev blockno h (ground arith)
      ]

  -- the list after the last reference is dropped, which holds an unused buffer
  dropped-IsCurrent : All (IsCurrent store) (bio_put a cache).buf_list
  unfolding bio_put drop_reference
  dropped-IsCurrent =
      let good = All-find (IsCurrent store) a b cache.buf_list e coherent.current in
      let fewer = decrement_lem uint32_max b.refcnt (omega arith) in
      All-update (IsCurrent store) drop_reference a b cache.buf_list e
        (good.0, λ used. absurd (omega arith)) coherent.current

  no_pins : (dev blockno : ℕ) → pins dev blockno (drop_reference b) ≡ 0
  unfolding drop_reference
  no_pins dev blockno = let fewer = decrement_lem uint32_max b.refcnt (omega arith) in ground arith

  freed-IsCoherent : IsCoherent (buf_deinit a (bio_put a cache)).buf_list disk store
  unfolding buf_deinit
  freed-IsCoherent = record {
    current = All-remove (IsCurrent store) a (bio_put a cache).buf_list dropped-IsCurrent;
    settled = λ dev blockno h none_left.
        let s = removed_sum cache held a b valid e single alone (pins dev blockno) in
        let z = no_pins dev blockno in
        dropped-settled dev blockno (total (pins dev blockno) (remove a (bio_put a cache).buf_list))
          h (omega arith) none_left;
  }

  moved-IsCoherent : IsCoherent (move_to_tail a (bio_put a cache).buf_list) disk store
  moved-IsCoherent = record {
    current =
        All-move (IsCurrent store) a (drop_reference b) (bio_put a cache).buf_list
          (dropped-find cache a b e) dropped-IsCurrent;
    settled = λ dev blockno h none_left.
        let s = dropped_sum cache held a b valid e single alone (pins dev blockno) in
        let m =
          total-move (pins dev blockno) a (drop_reference b) (bio_put a cache).buf_list
            (dropped-find cache a b e) in
        dropped-settled dev blockno
          (total (pins dev blockno) (move_to_tail a (bio_put a cache).buf_list)) h (omega arith)
          none_left;
  }

  pub last-IsCoherent : IsCoherent (bio_might_free a (bio_put a cache)).buf_list disk store
  last-IsCoherent = elim (Bool-cases (bio_has_too_many_buffers (bio_put a cache))) [
    | inl full ↦
        subst (λ c. IsCoherent c.buf_list disk store)
          (sym (might_free-full (bio_put a cache) a full)) freed-IsCoherent
    | inr few ↦
        subst (λ c. IsCoherent c.buf_list disk store)
          (sym (might_free-kept (bio_put a cache) a few)) moved-IsCoherent
  ]

pub release-IsCoherent :
    (cache : BioCache) (held : ℕ → ℕ) (a : ℕ) (b : Buf) (disk store : Blocks)
    → IsValid cache held
    → 0 < held a
    → find_at a cache.buf_list ≡ some b
    → b.refcnt ≡ held a
    → (1 < held a) ⊎ (b.contents ≡ disk b.dev b.blockno)
    → IsCoherent cache.buf_list disk store
    → IsCoherent (bio_release a cache).buf_list disk store
release-IsCoherent cache held a b disk store valid positive e amount leaves coherent =
    elim (Bool-cases (ltb 1 (held a))) [
      | inl several ↦
          let many : 1 < b.refcnt = ground arith in
          subst (λ c. IsCoherent c.buf_list disk store) (sym (release-kept cache a b e many))
            (put-IsCoherent cache held a disk store valid (ground arith) coherent)
      | inr last ↦
          let single : b.refcnt ≡ 1 = ground arith in
          let clean : b.contents ≡ disk b.dev b.blockno = ground arith in
          subst (λ c. IsCoherent c.buf_list disk store) (sym (release-last cache a b e single))
            (last-IsCoherent cache held a b disk store valid e single (omega arith) clean coherent)
    ]

-- Freeing unused buffers leaves the cache coherent.
pub free_each-IsCoherent :
    (rest : List Buf) (cache : BioCache) (disk store : Blocks)
    → AreDistinct rest
    → All (StandsIn cache.buf_list) rest
    → IsCoherent cache.buf_list disk store
    → IsCoherent (free_each rest cache).buf_list disk store
unfolding free_each total buf_deinit
free_each-IsCoherent [] cache disk store distinct stand coherent = coherent
free_each-IsCoherent (b ∷ rest) cache disk store distinct stand coherent =
    let tail_distinct : AreDistinct rest = λ a. let o = distinct a in omega arith in
    let apart : total (at b.address) rest ≡ 0 = (let o = distinct b.address in ground arith) in
    elim (Bool-cases (is_extra b cache)) [
      | inl extra ↦
          let unpinned : (d k : ℕ) → pins d k b ≡ 0 = λ d k. ground arith in
          subst (λ c. IsCoherent c.buf_list disk store) (sym (free_each-extra b rest cache extra))
            (free_each-IsCoherent rest (free_one b cache) disk store tail_distinct
              (stay-removed b.address rest cache.buf_list apart stand.1)
              (record {
                current = All-remove (IsCurrent store) b.address cache.buf_list coherent.current;
                settled = λ d k h none_left.
                    let r = total-remove (pins d k) b.address b cache.buf_list stand.0 in
                    let u = unpinned d k in coherent.settled d k h (omega arith);
              }))
      | inr usual ↦
          subst (λ c. IsCoherent c.buf_list disk store) (sym (free_each-kept b rest cache usual))
            (free_each-IsCoherent rest cache disk store tail_distinct stand.1 coherent)
    ]

pub free_extra-IsCoherent :
    (cache : BioCache) (held : ℕ → ℕ) (disk store : Blocks)
    → IsCounted cache held
    → IsCoherent cache.buf_list disk store
    → IsCoherent (bio_cache_free_extra_buffers cache).buf_list disk store
unfolding bio_cache_free_extra_buffers
free_extra-IsCoherent cache held disk store counts coherent =
    free_each-IsCoherent cache.buf_list cache disk store counts.once
      (distinct-StandsIn cache.buf_list counts.once) coherent
