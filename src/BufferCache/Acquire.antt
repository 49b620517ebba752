-- ===== src/BufferCache/Acquire.antt =====
-- kernel/kernel/bio.c: bio_get_from_cache keeps the counters and references right.
use vimix_os.Base.{ℕ, ◌<◌, ◌≡◌, sym, Option, some, List, arith, subst}
use vimix_os.BufferCache.Buffers.{
  Buf, BioCache, Allocation, size_max, find_at, buf_reinit, buf_init,
}
use vimix_os.BufferCache.Operations.{add_reference}
use vimix_os.BufferCache.Lists.{total, at, total-update, total-remove, decrement_lem}
use vimix_os.BufferCache.Search.{key, unused}
use vimix_os.BufferCache.Invariant.{IsValid, one, refs, more}
use vimix_os.BufferCache.Get.{hit, reused, Got, was_cached, was_unused, is_new}

-- Sums of numbers that are equal are equal.
same_at : (a x : ℕ) (l : List Buf) → total (at a) l ≡ 0 → a ≡ x → total (at x) l ≡ 0
same_at a x l h e = subst (λ y. total (at y) l ≡ 0) e h

same_key :
    (dev blockno d k : ℕ) (l : List Buf)
    → total (key dev blockno) l ≡ 0
    → dev ≡ d
    → blockno ≡ k
    → total (key d k) l ≡ 0
same_key dev blockno d k l h e f =
    subst (λ y. total (key y k) l ≡ 0) e (subst (λ y. total (key dev y) l ≡ 0) f h)

-- An unused buffer is counted as one.
unused_counted :
    (b : Buf) (l : List Buf) → find_at b.address l ≡ some b → b.refcnt ≡ 0 → 0 < total unused l
unused_counted b l e free = let r = total-remove unused b.address b l e in ground arith

hit-IsValid :
    (cache : BioCache) (held : ℕ → ℕ) (b : Buf)
    → IsValid cache held
    → find_at b.address cache.buf_list ≡ some b
    → IsValid (hit b cache) (more b.address held)
unfolding add_reference
hit-IsValid cache held b valid e =
    let sum =
      λ (weight : Buf → ℕ). total-update weight add_reference b.address b cache.buf_list e in
    let i = valid.counts.idle in
    let fewer = λ (free : b.refcnt ≡ 0).
      decrement_lem size_max cache.free_buffers
        (let u = unused_counted b cache.buf_list e free in omega arith) in
    record {
      counts = record {
        once = λ x. let s = sum (at x) in let v = valid.counts.once x in omega arith;
        unique = λ dev blockno h.
            let s = sum (key dev blockno) in
            let v = valid.counts.unique dev blockno h in omega arith;
        references = λ x. let s = sum (refs x) in let v = valid.counts.references x in ground arith;
        counted = let s = sum one in let v = valid.counts.counted in omega arith;
        idle = let s = sum unused in ground (arith, fewer);
      };
      trimmed = let t = valid.trimmed in ground (arith, fewer);
    }

reused-IsValid :
    (cache : BioCache) (held : ℕ → ℕ) (dev blockno : ℕ) (b : Buf)
    → IsValid cache held
    → find_at b.address cache.buf_list ≡ some b
    → b.refcnt ≡ 0
    → total (key dev blockno) cache.buf_list ≡ 0
    → IsValid (reused dev blockno b cache) (more b.address held)
unfolding buf_reinit
reused-IsValid cache held dev blockno b valid e free absent =
    let sum = λ (weight : Buf → ℕ).
      total-update weight (buf_reinit dev blockno) b.address b cache.buf_list e in
    let i = valid.counts.idle in
    let u = unused_counted b cache.buf_list e free in
    let fewer = decrement_lem size_max cache.free_buffers (omega arith) in
    record {
      counts = record {
        once = λ x. let s = sum (at x) in let v = valid.counts.once x in omega arith;
        unique = λ d k h.
            let s = sum (key d k) in
            let v = valid.counts.unique d k h in
            let z = same_key dev blockno d k cache.buf_list absent in ground (arith, z);
        references = λ x. let s = sum (refs x) in let v = valid.counts.references x in ground arith;
        counted = let s = sum one in let v = valid.counts.counted in omega arith;
        idle = let s = sum unused in ground arith;
      };
      trimmed = let t = valid.trimmed in ground arith;
    }

new-IsValid :
    (cache : BioCache) (held : ℕ → ℕ) (dev blockno : ℕ) (memory : Allocation)
    → IsValid cache held
    → total (at memory.address) cache.buf_list ≡ 0
    → total unused cache.buf_list ≡ 0
    → total (key dev blockno) cache.buf_list ≡ 0
    → IsValid (buf_init memory dev blockno cache) (more memory.address held)
unfolding buf_init buf_reinit total
new-IsValid cache held dev blockno memory valid fresh busy absent =
    let i = valid.counts.idle in
    record {
      counts = record {
        once = λ x.
            let v = valid.counts.once x in
            (let z = same_at memory.address x cache.buf_list fresh in ground (arith, z));
        unique = λ d k h.
            let v = valid.counts.unique d k h in
            (let z = same_key dev blockno d k cache.buf_list absent in ground (arith, z));
        references = λ x. let v = valid.counts.references x in ground arith;
        counted = let v = valid.counts.counted in omega arith;
        idle = ground arith;
      };
      trimmed = ground arith;
    }

-- kmalloc gives memory that no buffer of the cache stands in.
abbrev pub IsFresh : Option Allocation → BioCache → Type 0
IsFresh memory cache = (m : Allocation) → memory ≡ some m → total (at m.address) cache.buf_list ≡ 0

pub Got-IsValid :
    (memory : Option Allocation) (dev blockno : ℕ) (cache : BioCache) (result : ℕ × BioCache)
    (held : ℕ → ℕ)
    → IsValid cache held
    → IsFresh memory cache
    → Got memory dev blockno cache result
    → IsValid result.1 (more result.0 held)
Got-IsValid memory dev blockno cache result held valid fresh (was_cached b found d k e) =
    subst (λ r. IsValid r.1 (more r.0 held)) (sym e) (hit-IsValid cache held b valid found)
Got-IsValid memory dev blockno cache result held valid fresh (was_unused b found absent g free e) =
    subst (λ r. IsValid r.1 (more r.0 held)) (sym e)
      (reused-IsValid cache held dev blockno b valid found free absent)
Got-IsValid memory dev blockno cache result held valid fresh (is_new m gave absent busy e) =
    subst (λ r. IsValid r.1 (more r.0 held)) (sym e)
      (new-IsValid cache held dev blockno m valid (fresh m gave) busy absent)
