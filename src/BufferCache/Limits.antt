-- ===== src/BufferCache/Limits.antt =====
-- kernel/kernel/bio.c: the setters of the limits, and bio_init.
use vimix_os.Base.{
  ℕ, zero, suc, ◌+◌, ◌-◌, ◌<◌, ◌≤◌, ◌≡◌, refl, ap, ◌∙◌, true, false, some, List, [], ◌∷◌, ◌==◌,
  if◌then◌else◌, arith, subst, length,
}
use vimix_os.BufferCache.Buffers.{Buf, BioCache, Allocation, buf_init, buf_reinit, update}
use vimix_os.BufferCache.Operations.{
  bio_has_too_many_buffers, bio_cache_free_extra_buffers, add_unused, add_buffers,
  drop_all_references, success, einval, set_min_to, set_max_to,
}
use vimix_os.BufferCache.Lists.{total, at}
use vimix_os.BufferCache.Invariant.{IsCounted, IsValid}
use vimix_os.BufferCache.Trim.{free_extra-IsValid}

-- how many of the allocations stand at an address
unfoldable pub placed : ℕ → List Allocation → ℕ
placed x [] = 0
placed x (m ∷ rest) = (if m.address == x then 1 else 0) + placed x rest

-- No two of the buffers and allocations share an address.
abbrev pub AreFresh : List Allocation → BioCache → Type 0
AreFresh memory cache = (x : ℕ) → total (at x) cache.buf_list + placed x memory ≤ 1

-- a buffer that no block is in
abbrev pub empty_buffer : Allocation → Buf
empty_buffer m = record {
  address = m.address;
  dev = 0;
  blockno = 0;
  valid = false;
  refcnt = 0;
  contents = m.bytes;
}

abbrev pub with_unused : Allocation → BioCache → BioCache
with_unused m cache = record cache {
  buf_list = empty_buffer m ∷ cache.buf_list;
  num_buffers = cache.num_buffers + 1;
  free_buffers = cache.free_buffers + 1;
}

pub add_unused_lem : (m : Allocation) (cache : BioCache) → add_unused m cache ≡ with_unused m cache
unfolding add_unused buf_init buf_reinit update drop_all_references
add_unused_lem m cache =
    ap
      (λ t. record cache {
        buf_list =
            if t
            then empty_buffer m ∷ cache.buf_list
            else record (empty_buffer m) { refcnt = 1 }
              ∷ update drop_all_references m.address cache.buf_list;
        num_buffers = cache.num_buffers + 1;
        free_buffers = cache.free_buffers + 1;
      })
      (let same : (m.address == m.address) ≡ true = ground arith in same)

same_at :
    (m : Allocation) (x : ℕ) (cache : BioCache)
    → total (at m.address) cache.buf_list ≡ 0
    → m.address ≡ x
    → total (at x) cache.buf_list ≡ 0
same_at m x cache h e = subst (λ y. total (at y) cache.buf_list ≡ 0) e h

with_unused-IsCounted :
    (m : Allocation) (cache : BioCache) (held : ℕ → ℕ)
    → IsCounted cache held
    → total (at m.address) cache.buf_list ≡ 0
    → IsCounted (with_unused m cache) held
unfolding total
with_unused-IsCounted m cache held counts fresh =
    let i = counts.idle in
    let c = counts.counted in
    record {
      once = λ x. let o = counts.once x in let z = same_at m x cache fresh in ground (arith, z);
      unique = λ dev blockno h. let u = counts.unique dev blockno h in ground arith;
      references = λ x. let r = counts.references x in ground arith;
      counted = omega arith;
      idle = omega arith;
    }

-- What the loop of the setter leaves.
abbrev Filled : ℕ → BioCache → (ℕ → ℕ) → BioCache → Type 0
Filled rounds cache held after =
    IsCounted after held × (after.num_buffers ≡ cache.num_buffers + rounds)

add_buffers-Filled :
    (rounds : ℕ) (memory : List Allocation) (cache : BioCache) (held : ℕ → ℕ)
    → IsCounted cache held
    → AreFresh memory cache
    → rounds ≤ length memory
    → (after : BioCache) × ((add_buffers rounds memory cache ≡ some after)
        × Filled rounds cache held after)
unfolding add_buffers placed total
add_buffers-Filled zero memory cache held counts fresh enough =
    (cache, (refl, (counts, omega arith)))
add_buffers-Filled (suc rounds) [] cache held counts fresh enough = absurd (omega arith)
add_buffers-Filled (suc rounds) (m ∷ memory) cache held counts fresh enough =
    let at_m = fresh m.address in
    let (after, (e, (kept, sum))) =
      add_buffers-Filled rounds memory (with_unused m cache) held
        (with_unused-IsCounted m cache held counts (ground arith))
        (λ x. let f = fresh x in omega arith) (omega arith) in
    (after, (ap (add_buffers rounds memory) (add_unused_lem m cache) ∙ e, (kept, omega arith)))

-- The loop of the setter ends, and the extra buffers are freed.
pub set_min_buffers-added :
    (memory : List Allocation) (min_buffers : ℕ) (cache : BioCache) (held : ℕ → ℕ)
    → IsCounted cache held
    → 3 ≤ min_buffers
    → AreFresh memory cache
    → min_buffers ≤ cache.num_buffers + length memory
    → (added : BioCache) × ((add_buffers
            (min_buffers - cache.num_buffers)
            memory
            (record cache { min_buffers = min_buffers })
          ≡ some added)
        × (IsCounted added held
            × (set_min_to memory min_buffers cache
                ≡ some (success (bio_cache_free_extra_buffers added)))))
unfolding set_min_to
set_min_buffers-added memory min_buffers cache held counts large fresh enough =
    let (added, (e, (kept, sum))) =
      add_buffers-Filled (min_buffers - cache.num_buffers) memory
        (record cache { min_buffers = min_buffers }) held
        (record {
          once = counts.once;
          unique = counts.unique;
          references = counts.references;
          counted = counts.counted;
          idle = counts.idle;
        })
        fresh (omega arith) in
    (added, (e, (kept, ground arith)))

pub set_min_buffers-refused :
    (memory : List Allocation) (min_buffers : ℕ) (cache : BioCache)
    → min_buffers < 3
    → set_min_to memory min_buffers cache ≡ some (einval cache)
unfolding set_min_to
set_min_buffers-refused memory min_buffers cache small = ground arith

pub set_max_free_buffers-Sets :
    (max_free_buffers : ℕ) (cache : BioCache) (held : ℕ → ℕ)
    → IsCounted cache held
    → IsValid (set_max_to max_free_buffers cache) held
      × (bio_has_too_many_buffers (set_max_to max_free_buffers cache) ≡ false)
unfolding set_max_to
set_max_free_buffers-Sets max_free_buffers cache held counts =
    free_extra-IsValid (record cache { max_free_buffers = max_free_buffers }) held
      (record {
        once = counts.once;
        unique = counts.unique;
        references = counts.references;
        counted = counts.counted;
        idle = counts.idle;
      })
