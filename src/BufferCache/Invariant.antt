-- ===== src/BufferCache/Invariant.antt =====
-- kernel/kernel/bio.c: the counters of the buffer cache and the references that callers hold.
use vimix_os.Base.{
  ℕ, ◌+◌, ◌-◌, ◌<◌, ◌≤◌, ◌≡◌, ◌⊎◌, refl, some, List, [], ◌∷◌, ◌==◌, if◌then◌else◌, arith,
}
use vimix_os.BufferCache.Buffers.{Buf, BioCache, uint32_max, find_at}
use vimix_os.BufferCache.Operations.{bio_get, bio_put, add_reference, drop_reference}
use vimix_os.BufferCache.Lists.{total, at, found_address, counted-find, total-update, decrement_lem}
use vimix_os.BufferCache.Search.{key, unused, AreDistinct}

abbrev pub one : Buf → ℕ
one b = 1

-- the references that the buffer at an address counts
abbrev pub refs : ℕ → Buf → ℕ
refs a b = if b.address == a then b.refcnt else 0

-- No two buffers share an address, or a block of a device; each counts the references that callers hold
-- to its address, and the counters of the cache are right.
pub record IsCounted (cache : BioCache) (held : ℕ → ℕ) : Type 0 where
  pub once : AreDistinct cache.buf_list
  pub unique : (dev blockno : ℕ) → 0 < dev → total (key dev blockno) cache.buf_list ≤ 1
  pub references : (a : ℕ) → total (refs a) cache.buf_list ≡ held a
  pub counted : cache.num_buffers ≡ total one cache.buf_list
  pub idle : cache.free_buffers ≡ total unused cache.buf_list

-- What is more, the cache is at most one buffer above its limits.
pub record IsValid (cache : BioCache) (held : ℕ → ℕ) : Type 0 where
  pub counts : IsCounted cache held
  pub trimmed :
      (cache.num_buffers ≤ cache.min_buffers) ⊎ (cache.free_buffers ≤ cache.max_free_buffers + 1)

abbrev pub more : ℕ → (ℕ → ℕ) → ℕ → ℕ
more a held x = if x == a then held x + 1 else held x

abbrev pub less : ℕ → (ℕ → ℕ) → ℕ → ℕ
less a held x = if x == a then held x - 1 else held x

refs_zero : (a : ℕ) (l : List Buf) → total (at a) l ≡ 0 → total (refs a) l ≡ 0
unfolding total
refs_zero a [] h = refl
refs_zero a (x ∷ l) h = let ih = refs_zero a l in ground arith

pub refs-find :
    (a : ℕ) (b : Buf) (l : List Buf)
    → find_at a l ≡ some b
    → total (at a) l ≤ 1
    → total (refs a) l ≡ b.refcnt
unfolding total find_at
refs-find a b [] e h = ground arith
refs-find a b (x ∷ l) e h =
    let ih = refs-find a b l in let zero_rest = refs_zero a l in ground arith

held_counted : (a : ℕ) (l : List Buf) → 0 < total (refs a) l → 0 < total (at a) l
unfolding total
held_counted a [] h = absurd (omega arith)
held_counted a (x ∷ l) h = let ih = held_counted a l in ground arith

-- A buffer that is held is there, and counts the references.
pub held-find :
    (cache : BioCache) (held : ℕ → ℕ) (a : ℕ)
    → IsValid cache held
    → 0 < held a
    → (b : Buf) × ((find_at a cache.buf_list ≡ some b) × (b.refcnt ≡ held a))
held-find cache held a valid positive =
    let r = valid.counts.references a in
    let (b, e) = counted-find a cache.buf_list (held_counted a cache.buf_list (omega arith)) in
    let amount = refs-find a b cache.buf_list e (valid.counts.once a) in (b, (e, omega arith))

pub get-IsValid :
    (cache : BioCache) (held : ℕ → ℕ) (a : ℕ)
    → IsValid cache held
    → 0 < held a
    → IsValid (bio_get a cache) (more a held)
unfolding bio_get add_reference
get-IsValid cache held a valid positive =
    let (b, (e, amount)) = held-find cache held a valid positive in
    let sum = λ (weight : Buf → ℕ). total-update weight add_reference a b cache.buf_list e in
    let there = found_address a b cache.buf_list e in
    record {
      counts = record {
        once = λ x. let s = sum (at x) in let v = valid.counts.once x in omega arith;
        unique = λ dev blockno h.
            let s = sum (key dev blockno) in
            let v = valid.counts.unique dev blockno h in omega arith;
        references = λ x. let s = sum (refs x) in let v = valid.counts.references x in ground arith;
        counted = let s = sum one in let v = valid.counts.counted in omega arith;
        idle = let s = sum unused in let v = valid.counts.idle in ground arith;
      };
      trimmed = valid.trimmed;
    }

-- A reference is dropped this way while another is held.
pub put-IsValid :
    (cache : BioCache) (held : ℕ → ℕ) (a : ℕ)
    → IsValid cache held
    → 1 < held a
    → IsValid (bio_put a cache) (less a held)
unfolding bio_put drop_reference
put-IsValid cache held a valid several =
    let (b, (e, amount)) = held-find cache held a valid (omega arith) in
    let sum = λ (weight : Buf → ℕ). total-update weight drop_reference a b cache.buf_list e in
    let there = found_address a b cache.buf_list e in
    let fewer = decrement_lem uint32_max b.refcnt (omega arith) in
    record {
      counts = record {
        once = λ x. let s = sum (at x) in let v = valid.counts.once x in omega arith;
        unique = λ dev blockno h.
            let s = sum (key dev blockno) in
            let v = valid.counts.unique dev blockno h in omega arith;
        references = λ x. let s = sum (refs x) in let v = valid.counts.references x in ground arith;
        counted = let s = sum one in let v = valid.counts.counted in omega arith;
        idle = let s = sum unused in let v = valid.counts.idle in ground arith;
      };
      trimmed = valid.trimmed;
    }
