-- ===== src/BufferCache/Tests.antt =====
-- kernel/kernel/bio.c on small caches.
use vimix_os.Base.{pos, negsuc}
use vimix_os.Base.{
  ℕ, zero, suc, ◌≤◌, ◌≡◌, refl, Bool, true, Option, none, some, List, [], ◌∷◌, ◌==◌, arith, ap, inl,
  inr, Bool-cases, subst,
}
use vimix_os.BufferCache.Buffers.{BioCache, Allocation, find_at, update, buf_init, buf_alloc_init}
use vimix_os.BufferCache.Operations.{
  search_list, get_found, bio_get_from_cache, bio_read, add_unused, add_buffers, Result, success,
  einval, bio_cache_set_min_buffers, bio_init,
}
use vimix_os.BufferCache.Lists.{total, at}
use vimix_os.BufferCache.Invariant.{IsValid, more}
use vimix_os.BufferCache.Acquire.{IsFresh}
use vimix_os.BufferCache.Limits.{placed}
use vimix_os.BufferCache.Coherence.{Blocks}
use vimix_os.BufferCache.Read.{Reads}
use vimix_os.BufferCache.Changes.{with_contents, stored, write_contents}
use vimix_os.BufferCache.Settings.{no_buffers, no_references}
use vimix_os.BufferCache.Runs.{Runs, booted, has_read, has_changed, bio_read-Reads, Runs-IsValid}

-- memory at the addresses below a number
allocations : ℕ → List Allocation
allocations zero = []
allocations (suc n) = record { address = n; bytes = [] } ∷ allocations n

not_placed : (x n : ℕ) → n ≤ x → placed x (allocations n) ≡ 0
unfolding allocations placed
not_placed x zero h = refl
not_placed x (suc n) h = let ih = not_placed x n (omega arith) in ground arith

placed_once : (x n : ℕ) → placed x (allocations n) ≤ 1
unfolding allocations placed
placed_once x zero = omega arith
placed_once x (suc n) =
    let ih = placed_once x n in
    let z = not_placed n n (omega arith) in
    elim (Bool-cases (n == x)) [
      | inl here ↦
          let same : n ≡ x = ground arith in
          let w : placed x (allocations n) ≡ 0 = subst (λ y. placed y (allocations n) ≡ 0) same z in
          ground arith
      | inr other ↦ ground arith
    ]

memory : List Allocation
memory = allocations 16

all_devices : ℕ → Bool
all_devices dev = true

abbrev blank : Blocks
blank dev blockno = dev ∷ (blockno ∷ [])

cache_of : Option Result → BioCache
cache_of (some (success cache)) = cache
cache_of other = no_buffers

boot_cache : BioCache
unfolding bio_init cache_of memory
boot_cache = cache_of (bio_init memory)

start-Runs : Runs all_devices boot_cache no_references blank blank
unfolding boot_cache bio_init memory allocations cache_of placed total bio_cache_set_min_buffers
    add_buffers add_unused buf_init
start-Runs = booted memory blank (λ x. let p = placed_once x 16 in omega arith) (omega arith) refl

spare : Allocation
spare = record { address = 100; bytes = [] }

address_or : ℕ → Option Allocation → ℕ
address_or other none = other
address_or other (some m) = m.address

-- memory away from a cache
away-IsFresh : (cache : BioCache) → total (at 100) cache.buf_list ≡ 0 → IsFresh (some spare) cache
unfolding spare address_or
away-IsFresh cache h m e = subst (λ a. total (at a) cache.buf_list ≡ 0) (ap (address_or 0) e) h

after_or : Option (ℕ × BioCache) → BioCache
after_or none = no_buffers
after_or (some (a, cache)) = cache

-- block 7 of device 1 is read
read_cache : BioCache
unfolding after_or bio_read boot_cache spare
read_cache = after_or (bio_read (some spare) all_devices blank 1 7 boot_cache)

read-Runs : Runs all_devices read_cache (more 0 no_references) blank blank
unfolding read_cache after_or bio_read boot_cache spare all_devices memory allocations cache_of
    bio_init total
read-Runs = has_read spare 1 7 start-Runs (omega arith) refl (away-IsFresh boot_cache refl) refl

-- and its buffer is filled with other bytes
changed_cache : BioCache
unfolding read_cache
changed_cache = with_contents (5 ∷ []) 0 read_cache

changed-Runs :
    Runs all_devices changed_cache (more 0 no_references) blank (stored 1 7 (5 ∷ []) blank)
unfolding changed_cache read_cache after_or bio_read boot_cache spare all_devices memory allocations
    cache_of bio_init total find_at
changed-Runs =
    has_changed
      {b = record {
        address = 0;
        dev = 1;
        blockno = 7;
        valid = true;
        refcnt = 1;
        contents = 1 ∷ (7 ∷ []);
      }}
      0 (5 ∷ []) read-Runs (omega arith) refl

bio_read_example :
    (result : ℕ × BioCache) × ((bio_read (some spare) all_devices blank 1 7 changed_cache
        ≡ some result)
      × Reads 1 7 (more 0 no_references) blank (stored 1 7 (5 ∷ []) blank) result)
unfolding changed_cache read_cache after_or bio_read boot_cache spare all_devices memory allocations
    cache_of bio_init total write_contents update
bio_read_example =
    bio_read-Reads all_devices changed_cache (more 0 no_references) blank
      (stored 1 7 (5 ∷ []) blank) spare 1 7 changed-Runs (omega arith) refl
      (away-IsFresh changed_cache refl)

valid_example : IsValid changed_cache (more 0 no_references)
valid_example =
    Runs-IsValid all_devices changed_cache (more 0 no_references) blank (stored 1 7 (5 ∷ []) blank)
      changed-Runs

-- The minimum may not be below three.
set_min_test : bio_cache_set_min_buffers [] (pos 2) no_buffers ≡ some (einval no_buffers)
unfolding bio_cache_set_min_buffers
set_min_test = refl

-- A new block in a full cache, and no memory: the code goes on with a null pointer.
no_memory_test : bio_get_from_cache none 1 7 no_buffers ≡ none
unfolding bio_get_from_cache search_list get_found buf_alloc_init
no_memory_test = refl

-- Nor may a limit be negative.
negative_test : bio_cache_set_min_buffers [] (negsuc 0) no_buffers ≡ some (einval no_buffers)
unfolding bio_cache_set_min_buffers
negative_test = refl
