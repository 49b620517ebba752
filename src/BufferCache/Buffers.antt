-- ===== src/BufferCache/Buffers.antt =====
-- kernel/kernel/buf.c and kernel/kernel/buf.h: buffers and the list of them. A buffer is known by its
-- address; its sleep lock and the driver's mark on it are left out.
use vimix_os.Base.{ℕ, ◌+◌, ◌-◌, Bool, false, Option, none, some, List, [], ◌∷◌, ◌==◌, if◌then◌else◌}

-- `struct buf`
pub record Buf : Type 0 where
  pub address : ℕ
  pub dev : ℕ
  pub blockno : ℕ
  pub valid : Bool
  pub refcnt : ℕ
  pub contents : List ℕ

-- `struct bio_cache`
pub record BioCache : Type 0 where
  pub buf_list : List Buf
  pub num_buffers : ℕ
  pub min_buffers : ℕ
  pub max_free_buffers : ℕ
  pub free_buffers : ℕ

-- memory that kmalloc gave, which holds the bytes of before
pub record Allocation : Type 0 where
  pub address : ℕ
  pub bytes : List ℕ

abbrev pub size_max : ℕ
size_max = 18446744073709551615

abbrev pub uint32_max : ℕ
uint32_max = 4294967295

-- `n--` in an unsigned type with the given largest value
unfoldable pub decrement : ℕ → ℕ → ℕ
decrement largest n = if n == 0 then largest else n - 1

-- what an address points to, none where no buffer of the list stands
unfoldable pub find_at : ℕ → List Buf → Option Buf
find_at a [] = none
find_at a (b ∷ rest) = if b.address == a then some b else find_at a rest

-- an assignment through a pointer to a buffer
unfoldable pub update : (Buf → Buf) → ℕ → List Buf → List Buf
update f a [] = []
update f a (b ∷ rest) = if b.address == a then f b ∷ rest else b ∷ update f a rest

-- `list_del`
unfoldable pub remove : ℕ → List Buf → List Buf
remove a [] = []
remove a (b ∷ rest) = if b.address == a then rest else b ∷ remove a rest

unfoldable pub buf_reinit : ℕ → ℕ → Buf → Buf
buf_reinit dev blockno b = record b { dev = dev; blockno = blockno; valid = false; refcnt = 1 }

-- A new buffer stands at the head of the list.
unfoldable pub buf_init : Allocation → ℕ → ℕ → BioCache → BioCache
unfolding buf_reinit
buf_init memory dev blockno cache = record cache {
  buf_list =
      buf_reinit dev blockno (record {
        address = memory.address;
        dev = dev;
        blockno = blockno;
        valid = false;
        refcnt = 0;
        contents = memory.bytes;
      })
      ∷ cache.buf_list;
  num_buffers = cache.num_buffers + 1;
}

-- The first argument is what kmalloc returns.
unfoldable pub buf_alloc_init : Option Allocation → ℕ → ℕ → BioCache → Option (ℕ × BioCache)
unfolding buf_init
buf_alloc_init none dev blockno cache = none
buf_alloc_init (some memory) dev blockno cache =
    some (memory.address, buf_init memory dev blockno cache)

unfoldable pub buf_deinit : ℕ → BioCache → BioCache
unfolding remove decrement
buf_deinit a cache = record cache {
  buf_list = remove a cache.buf_list;
  num_buffers = decrement size_max cache.num_buffers;
}
