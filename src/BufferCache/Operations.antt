-- ===== src/BufferCache/Operations.antt =====
-- kernel/kernel/bio.c: the operations of the buffer cache. Each runs under the cache's lock.
use vimix_os.Base.{
  ℕ, zero, suc, ◌+◌, ◌-◌, leb, ltb, Bool, true, false, ◌&&◌, Option, none, some, List, [], ◌∷◌,
  ◌++◌, ◌==◌, ℤ, pos, negsuc, if◌then◌else◌,
}
use vimix_os.BufferCache.Buffers.{
  Buf, BioCache, Allocation, size_max, uint32_max, decrement, find_at, update, remove, buf_reinit,
  buf_init, buf_alloc_init, buf_deinit,
}

-- how the loop of bio_get_from_cache ends: at the block's buffer, or with the unused buffer it remembered
pub data Search : Type 0 where
  cached : Buf → Search
  absent : Option Buf → Search

unfoldable pub remember : Option Buf → Buf → Option Buf
remember (some free_buffer) b = some free_buffer
remember none b = if b.refcnt == 0 then some b else none

unfoldable pub search_list : ℕ → ℕ → Option Buf → List Buf → Search
unfolding remember
search_list dev blockno free_buffer [] = absent free_buffer
search_list dev blockno free_buffer (b ∷ rest) =
    if (b.dev == dev) && (b.blockno == blockno)
    then cached b
    else search_list dev blockno (remember free_buffer b) rest

unfoldable pub add_reference : Buf → Buf
add_reference b = record b { refcnt = b.refcnt + 1 }

unfoldable pub drop_reference : Buf → Buf
unfolding decrement
drop_reference b = record b { refcnt = decrement uint32_max b.refcnt }

unfoldable pub get_found : Option Allocation → ℕ → ℕ → Search → BioCache → Option (ℕ × BioCache)
unfolding update add_reference buf_reinit buf_alloc_init decrement
get_found memory dev blockno (cached b) cache = some (
  b.address,
  record cache {
    buf_list = update add_reference b.address cache.buf_list;
    free_buffers =
        if b.refcnt == 0 then decrement size_max cache.free_buffers else cache.free_buffers;
  },
)
get_found memory dev blockno (absent none) cache = buf_alloc_init memory dev blockno cache
get_found memory dev blockno (absent (some b)) cache = some (
  b.address,
  record cache {
    buf_list = update (buf_reinit dev blockno) b.address cache.buf_list;
    free_buffers = decrement size_max cache.free_buffers;
  },
)

-- The first argument is what kmalloc returns if it is called. None where the code then uses a null
-- pointer.
unfoldable pub bio_get_from_cache : Option Allocation → ℕ → ℕ → BioCache → Option (ℕ × BioCache)
unfolding get_found search_list
bio_get_from_cache memory dev blockno cache =
    get_found memory dev blockno (search_list dev blockno none cache.buf_list) cache

unfoldable pub read_buf : (ℕ → ℕ → List ℕ) → Buf → Buf
read_buf disk b = record b { valid = true; contents = disk b.dev b.blockno }

unfoldable pub read_found :
    (ℕ → Bool) → (ℕ → ℕ → List ℕ) → ℕ → ℕ → Option Buf → BioCache → Option (ℕ × BioCache)
unfolding update read_buf
read_found is_device disk dev a none got = none
read_found is_device disk dev a (some b) got =
    if b.valid
    then some (a, got)
    else if is_device dev
    then some (a, record got { buf_list = update (read_buf disk) a got.buf_list })
    else none

-- The second argument says which devices get_block_device finds, the third what their blocks hold. None
-- where the code panics or uses a null pointer.
unfoldable pub bio_read :
    Option Allocation → (ℕ → Bool) → (ℕ → ℕ → List ℕ) → ℕ → ℕ → BioCache → Option (ℕ × BioCache)
unfolding bio_get_from_cache read_found find_at
bio_read memory is_device disk dev blockno cache =
    elim (bio_get_from_cache memory dev blockno cache) [
      | none ↦ none
      | some (a, got) ↦ read_found is_device disk dev a (find_at a got.buf_list) got
    ]

-- The contents of a buffer go to the disk; none for the panic.
unfoldable pub bio_write : (ℕ → Bool) → Buf → (ℕ → ℕ → List ℕ) → Option (ℕ → ℕ → List ℕ)
bio_write is_device b disk =
    if is_device b.dev
    then some (λ dev blockno.
      if (b.dev == dev) && (b.blockno == blockno) then b.contents else disk dev blockno)
    else none

unfoldable pub bio_has_too_many_buffers : BioCache → Bool
bio_has_too_many_buffers cache =
    if leb cache.num_buffers cache.min_buffers
    then false
    else if leb cache.free_buffers cache.max_free_buffers
    then false
    else true

-- `list_del` and `list_add_tail`
unfoldable pub move_to_tail : ℕ → List Buf → List Buf
unfolding find_at remove
move_to_tail a l = elim (find_at a l) [ none ↦ l | some b ↦ remove a l ++ (b ∷ []) ]

unfoldable pub bio_might_free : ℕ → BioCache → BioCache
unfolding bio_has_too_many_buffers buf_deinit move_to_tail
bio_might_free a cache =
    if bio_has_too_many_buffers cache then buf_deinit a cache else record cache {
      buf_list = move_to_tail a cache.buf_list;
      free_buffers = cache.free_buffers + 1;
    }

unfoldable pub bio_get : ℕ → BioCache → BioCache
unfolding update add_reference
bio_get a cache = record cache { buf_list = update add_reference a cache.buf_list }

unfoldable pub bio_put : ℕ → BioCache → BioCache
unfolding update drop_reference
bio_put a cache = record cache { buf_list = update drop_reference a cache.buf_list }

unfoldable pub is_unused : Option Buf → Bool
is_unused none = false
is_unused (some b) = b.refcnt == 0

unfoldable pub bio_release : ℕ → BioCache → BioCache
unfolding bio_put bio_might_free is_unused find_at
bio_release a cache =
    let dropped = bio_put a cache in
    if is_unused (find_at a dropped.buf_list) then bio_might_free a dropped else dropped

-- the loop of bio_cache_free_extra_buffers over the list as it is when the loop starts
unfoldable pub free_each : List Buf → BioCache → BioCache
unfolding bio_has_too_many_buffers buf_deinit decrement
free_each [] cache = cache
free_each (b ∷ rest) cache = free_each rest (
    if (b.refcnt == 0) && bio_has_too_many_buffers cache
    then buf_deinit b.address
        (record cache { free_buffers = decrement size_max cache.free_buffers })
    else cache)

unfoldable pub bio_cache_free_extra_buffers : BioCache → BioCache
unfolding free_each
bio_cache_free_extra_buffers cache = free_each cache.buf_list cache

unfoldable pub drop_all_references : Buf → Buf
drop_all_references b = record b { refcnt = 0 }

unfoldable pub add_unused : Allocation → BioCache → BioCache
unfolding buf_init update drop_all_references
add_unused memory cache =
    let added = buf_init memory 0 0 cache in
    record added {
      buf_list = update drop_all_references memory.address added.buf_list;
      free_buffers = added.free_buffers + 1;
    }

-- The loop of bio_cache_set_min_buffers: its rounds, and what kmalloc returns in them; kmalloc fails behind
-- the end of that list. None for the panic.
unfoldable pub add_buffers : ℕ → List Allocation → BioCache → Option BioCache
unfolding add_unused
add_buffers zero memory cache = some cache
add_buffers (suc rounds) [] cache = none
add_buffers (suc rounds) (first ∷ memory) cache = add_buffers rounds memory (add_unused first cache)

-- `success` stands for 0 and `einval` for -EINVAL.
pub data Result : Type 0 where
  success : BioCache → Result
  einval : BioCache → Result

-- the setter for an argument that is not negative
unfoldable pub set_min_to : List Allocation → ℕ → BioCache → Option Result
unfolding add_buffers bio_cache_free_extra_buffers
set_min_to memory min_buffers cache =
    if ltb min_buffers 3
    then some (einval cache)
    else elim (add_buffers (min_buffers - cache.num_buffers) memory
        (record cache { min_buffers = min_buffers })) [
          | none ↦ none
          | some added ↦ some (success (bio_cache_free_extra_buffers added))
        ]

-- the setter for an argument that is not negative
unfoldable pub set_max_to : ℕ → BioCache → BioCache
unfolding bio_cache_free_extra_buffers
set_max_to max_free_buffers cache =
    bio_cache_free_extra_buffers (record cache { max_free_buffers = max_free_buffers })

-- none for the panic
unfoldable pub bio_cache_set_min_buffers : List Allocation → ℤ → BioCache → Option Result
unfolding set_min_to
bio_cache_set_min_buffers memory (pos min_buffers) cache = set_min_to memory min_buffers cache
bio_cache_set_min_buffers memory (negsuc n) cache = some (einval cache)

unfoldable pub bio_cache_set_max_free_buffers : ℤ → BioCache → Result
unfolding set_max_to
bio_cache_set_max_free_buffers (pos max_free_buffers) cache =
    success (set_max_to max_free_buffers cache)
bio_cache_set_max_free_buffers (negsuc n) cache = einval cache

unfoldable pub bio_init : List Allocation → Option Result
unfolding bio_cache_set_min_buffers
bio_init memory = bio_cache_set_min_buffers memory (pos 16) (record {
  buf_list = [];
  num_buffers = 0;
  min_buffers = 0;
  max_free_buffers = 16;
  free_buffers = 0;
})
