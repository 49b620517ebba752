-- ===== src/BufferCache/Runs.antt =====
-- kernel/kernel/bio.c: any sequence of calls of the buffer cache.
use vimix_os.Base.{pos}
use vimix_os.Base.{
  ℕ, ◌+◌, ◌<◌, ◌≤◌, ◌≡◌, ◌⊎◌, refl, sym, ap, ◌∙◌, Bool, true, some, List, arith, subst, length,
}
use vimix_os.BufferCache.Buffers.{Buf, BioCache, Allocation, find_at}
use vimix_os.BufferCache.Operations.{bio_read, bio_get, bio_put}
use vimix_os.BufferCache.Lists.{total}
use vimix_os.BufferCache.Invariant.{IsValid, more, less}
use vimix_os.BufferCache.Acquire.{IsFresh}
use vimix_os.BufferCache.Operations.{
  bio_write, bio_release, success, bio_cache_set_min_buffers, bio_cache_set_max_free_buffers,
  bio_init,
}
use vimix_os.BufferCache.Coherence.{Blocks, get-IsCoherent, put-IsCoherent}
use vimix_os.BufferCache.Invariant.{get-IsValid, put-IsValid}
use vimix_os.BufferCache.Release.{release-IsValid}
use vimix_os.BufferCache.Limits.{AreFresh, set_max_free_buffers-Sets}
use vimix_os.BufferCache.Read.{Reads}
use vimix_os.BufferCache.Reading.{read-Returns}
use vimix_os.BufferCache.Changes.{
  with_contents, stored, change-IsCoherent, change-IsValid, write-IsCoherent,
}
use vimix_os.BufferCache.Leaving.{release-IsCoherent}
use vimix_os.BufferCache.Settings.{
  no_buffers, no_references, IsRight, result_pair, held-amount, set_max-IsCoherent, set_min-IsRight,
  result_cache,
}

-- Any sequence of calls after bio_init: the cache, the references that callers hold, the disk, and what the
-- callers stored. kmalloc gives memory that no buffer stands in, blocks are those of devices that
-- get_block_device finds, callers change and write buffers that they hold, and the last reference to a
-- buffer is released when the disk has its contents.
pub data Runs (is_device : ℕ → Bool) : BioCache → (ℕ → ℕ) → Blocks → Blocks → Type 0 where
  booted :
      {cache : BioCache} (memory : List Allocation) (disk : Blocks)
      → AreFresh memory no_buffers
      → 16 ≤ length memory
      → bio_init memory ≡ some (success cache)
      → Runs is_device cache no_references disk disk
  has_read :
      {cache after : BioCache} {held : ℕ → ℕ} {disk store : Blocks} {a : ℕ} (m : Allocation)
      (dev blockno : ℕ)
      → Runs is_device cache held disk store
      → 0 < dev
      → is_device dev ≡ true
      → IsFresh (some m) cache
      → bio_read (some m) is_device disk dev blockno cache ≡ some (a, after)
      → Runs is_device after (more a held) disk store
  has_changed :
      {cache : BioCache} {held : ℕ → ℕ} {disk store : Blocks} {b : Buf} (a : ℕ) (bytes : List ℕ)
      → Runs is_device cache held disk store
      → 0 < held a
      → find_at a cache.buf_list ≡ some b
      → Runs is_device (with_contents bytes a cache) held disk (stored b.dev b.blockno bytes store)
  has_written :
      {cache : BioCache} {held : ℕ → ℕ} {disk written store : Blocks} {b : Buf} (a : ℕ)
      → Runs is_device cache held disk store
      → 0 < held a
      → find_at a cache.buf_list ≡ some b
      → bio_write is_device b disk ≡ some written
      → Runs is_device cache held written store
  has_referenced :
      {cache : BioCache} {held : ℕ → ℕ} {disk store : Blocks} (a : ℕ)
      → Runs is_device cache held disk store
      → 0 < held a
      → Runs is_device (bio_get a cache) (more a held) disk store
  has_unreferenced :
      {cache : BioCache} {held : ℕ → ℕ} {disk store : Blocks} (a : ℕ)
      → Runs is_device cache held disk store
      → 1 < held a
      → Runs is_device (bio_put a cache) (less a held) disk store
  has_released :
      {cache : BioCache} {held : ℕ → ℕ} {disk store : Blocks} {b : Buf} (a : ℕ)
      → Runs is_device cache held disk store
      → 0 < held a
      → find_at a cache.buf_list ≡ some b
      → (1 < held a) ⊎ (b.contents ≡ disk b.dev b.blockno)
      → Runs is_device (bio_release a cache) (less a held) disk store
  has_set_min :
      {cache after : BioCache} {held : ℕ → ℕ} {disk store : Blocks} (memory : List Allocation)
      (min_buffers : ℕ)
      → Runs is_device cache held disk store
      → 3 ≤ min_buffers
      → AreFresh memory cache
      → min_buffers ≤ cache.num_buffers + length memory
      → bio_cache_set_min_buffers memory (pos min_buffers) cache ≡ some (success after)
      → Runs is_device after held disk store
  has_set_max :
      {cache after : BioCache} {held : ℕ → ℕ} {disk store : Blocks} (max_free_buffers : ℕ)
      → Runs is_device cache held disk store
      → bio_cache_set_max_free_buffers (pos max_free_buffers) cache ≡ success after
      → Runs is_device after held disk store

pub right :
    {is_device : ℕ → Bool} {cache : BioCache} {held : ℕ → ℕ} {disk store : Blocks}
    → Runs is_device cache held disk store
    → IsRight cache held disk store
unfolding bio_init total result_pair result_cache bio_cache_set_min_buffers
    bio_cache_set_max_free_buffers
right (booted {cache = cache} memory disk fresh enough e) =
    set_min-IsRight memory 16 no_buffers cache no_references disk disk
      (record {
        once = λ a. omega arith;
        unique = λ d k h. omega arith;
        references = λ a. refl;
        counted = refl;
        idle = refl;
      })
      (record { current = tt; settled = λ d k h none_left. refl }) (omega arith) fresh (omega arith)
      e
right
      (has_read {cache = cache} {after = after} {held = held} {disk = disk} {store = store} {a = a}
        m dev blockno r device known fresh e) =
    let (valid, coherent) = right r in
    let (result, (f, (ok, (kept, rest)))) =
      read-Returns (some m) _ disk store dev blockno cache held valid coherent fresh known device m
        refl in
    subst (λ p. IsRight p.1 (more p.0 held) disk store) (ap (result_pair (a, after)) (sym f ∙ e))
      (ok, kept)
right
      (has_changed {cache = cache} {held = held} {disk = disk} {store = store} {b = b} a bytes r
        positive e) =
    let (valid, coherent) = right r in
    let amount = held-amount cache held a b valid e in
    (
      change-IsValid cache held a b bytes valid e,
      change-IsCoherent cache held a b bytes disk store valid positive e amount coherent,
    )
right
      (has_written {cache = cache} {held = held} {disk = disk} {written = written} {store = store}
        {b = b} a r positive e w) =
    let (valid, coherent) = right r in
    let amount = held-amount cache held a b valid e in
    (valid, write-IsCoherent _ a b cache.buf_list disk written store e (omega arith) w coherent)
right (has_referenced {cache = cache} {held = held} {disk = disk} {store = store} a r positive) =
    let (valid, coherent) = right r in
    (
      get-IsValid cache held a valid positive,
      get-IsCoherent cache held a disk store valid positive coherent,
    )
right (has_unreferenced {cache = cache} {held = held} {disk = disk} {store = store} a r several) =
    let (valid, coherent) = right r in
    (
      put-IsValid cache held a valid several,
      put-IsCoherent cache held a disk store valid several coherent,
    )
right
      (has_released {cache = cache} {held = held} {disk = disk} {store = store} {b = b} a r positive
        e leaves) =
    let (valid, coherent) = right r in
    let amount = held-amount cache held a b valid e in
    (
      release-IsValid cache held a valid positive,
      release-IsCoherent cache held a b disk store valid positive e amount leaves coherent,
    )
right
      (has_set_min {cache = cache} {after = after} {held = held} {disk = disk} {store = store}
        memory min_buffers r large fresh enough e) =
    let (valid, coherent) = right r in
    set_min-IsRight memory min_buffers cache after held disk store valid.counts coherent large fresh
      enough e
right
      (has_set_max {cache = cache} {after = after} {held = held} {disk = disk} {store = store}
        max_free_buffers r e) =
    let (valid, coherent) = right r in
    subst (λ c. IsRight c held disk store) (ap (λ x. result_cache cache (some x)) e)
      (
        (set_max_free_buffers-Sets max_free_buffers cache held valid.counts).0,
        set_max-IsCoherent max_free_buffers cache held disk store valid.counts coherent,
      )

-- Whatever sequence of calls went before, a read of a block of a device returns a buffer with what the
-- callers stored there last, or else the disk held at the start; the cache's counters and references stay
-- right and its buffers current.
pub bio_read-Reads :
    (is_device : ℕ → Bool) (cache : BioCache) (held : ℕ → ℕ) (disk store : Blocks) (m : Allocation)
    (dev blockno : ℕ)
    → Runs is_device cache held disk store
    → 0 < dev
    → is_device dev ≡ true
    → IsFresh (some m) cache
    → (result : ℕ × BioCache) × ((bio_read (some m) is_device disk dev blockno cache ≡ some result)
        × Reads dev blockno held disk store result)
bio_read-Reads is_device cache held disk store m dev blockno r device known fresh =
    let (valid, coherent) = right r in
    read-Returns (some m) is_device disk store dev blockno cache held valid coherent fresh known
      device m refl

-- Whatever sequence of calls went before: no two buffers have one address or one block of a device; each
-- counts the references that callers hold to it; num_buffers and free_buffers count the buffers and the
-- unused ones; and the cache is at most one unused buffer above its limits.
pub Runs-IsValid :
    (is_device : ℕ → Bool) (cache : BioCache) (held : ℕ → ℕ) (disk store : Blocks)
    → Runs is_device cache held disk store
    → IsValid cache held
Runs-IsValid is_device cache held disk store r = (right r).0
