-- ===== src/BufferCache/Get.antt =====
-- kernel/kernel/bio.c: bio_get_from_cache, its three ways to a buffer.
use vimix_os.Base.{
  ℕ, ◌≡◌, ◌⊎◌, inl, inr, refl, ap, ◌∙◌, Option, Option-cases, none, some, ◌==◌, if◌then◌else◌,
}
use vimix_os.BufferCache.Buffers.{
  Buf, BioCache, Allocation, size_max, decrement, find_at, update, buf_reinit, buf_init,
}
use vimix_os.BufferCache.Operations.{add_reference}
use vimix_os.BufferCache.Lists.{total}
use vimix_os.BufferCache.Search.{key, unused, AreDistinct}
use vimix_os.BufferCache.Buffers.{buf_alloc_init}
use vimix_os.BufferCache.Operations.{bio_get_from_cache, get_found}
use vimix_os.BufferCache.Search.{
  find_block, find_unused, searched, search_list-finds, find_block-Found, find_block-none,
  find_unused-Found, find_unused-none,
}

-- the block's buffer
abbrev pub hit : Buf → BioCache → BioCache
hit b cache = record cache {
  buf_list = update add_reference b.address cache.buf_list;
  free_buffers =
      if b.refcnt == 0 then decrement size_max cache.free_buffers else cache.free_buffers;
}

-- an unused buffer that is taken for the block
abbrev pub reused : ℕ → ℕ → Buf → BioCache → BioCache
reused dev blockno b cache = record cache {
  buf_list = update (buf_reinit dev blockno) b.address cache.buf_list;
  free_buffers = decrement size_max cache.free_buffers;
}

pub get-hit :
    (memory : Option Allocation) (dev blockno : ℕ) (cache : BioCache) (b : Buf)
    → find_block dev blockno cache.buf_list ≡ some b
    → bio_get_from_cache memory dev blockno cache ≡ some (b.address, hit b cache)
unfolding bio_get_from_cache get_found searched
get-hit memory dev blockno cache b e =
    ap (λ s. get_found memory dev blockno s cache)
      (search_list-finds dev blockno cache.buf_list
        ∙ ap (λ o. searched o (find_unused cache.buf_list)) e)

pub get-reused :
    (memory : Option Allocation) (dev blockno : ℕ) (cache : BioCache) (b : Buf)
    → find_block dev blockno cache.buf_list ≡ none
    → find_unused cache.buf_list ≡ some b
    → bio_get_from_cache memory dev blockno cache ≡ some (b.address, reused dev blockno b cache)
unfolding bio_get_from_cache get_found searched
get-reused memory dev blockno cache b e f =
    ap (λ s. get_found memory dev blockno s cache)
      (search_list-finds dev blockno cache.buf_list
        ∙ (ap (λ o. searched o (find_unused cache.buf_list)) e ∙ ap (λ o. searched none o) f))

pub get-new :
    (memory : Option Allocation) (dev blockno : ℕ) (cache : BioCache)
    → find_block dev blockno cache.buf_list ≡ none
    → find_unused cache.buf_list ≡ none
    → bio_get_from_cache memory dev blockno cache ≡ buf_alloc_init memory dev blockno cache
unfolding bio_get_from_cache get_found searched
get-new memory dev blockno cache e f =
    ap (λ s. get_found memory dev blockno s cache)
      (search_list-finds dev blockno cache.buf_list
        ∙ (ap (λ o. searched o (find_unused cache.buf_list)) e ∙ ap (λ o. searched none o) f))

-- The three ways to a buffer for a block: its own, the one that has been unused for longest, a new one.
pub data Got (memory : Option Allocation) (dev blockno : ℕ) (cache : BioCache)
    (result : ℕ × BioCache) : Type 0 where
  was_cached :
      (b : Buf)
      → find_at b.address cache.buf_list ≡ some b
      → b.dev ≡ dev
      → b.blockno ≡ blockno
      → result ≡ (b.address, hit b cache)
      → Got memory dev blockno cache result
  was_unused :
      (b : Buf)
      → find_at b.address cache.buf_list ≡ some b
      → total (key dev blockno) cache.buf_list ≡ 0
      → find_unused cache.buf_list ≡ some b
      → b.refcnt ≡ 0
      → result ≡ (b.address, reused dev blockno b cache)
      → Got memory dev blockno cache result
  is_new :
      (m : Allocation)
      → memory ≡ some m
      → total (key dev blockno) cache.buf_list ≡ 0
      → total unused cache.buf_list ≡ 0
      → result ≡ (m.address, buf_init m dev blockno cache)
      → Got memory dev blockno cache result

-- The call returns a buffer in one of the three ways, or fails for want of memory.
pub bio_get_from_cache-Got :
    (memory : Option Allocation) (dev blockno : ℕ) (cache : BioCache)
    → AreDistinct cache.buf_list
    → ((result : ℕ × BioCache) × ((bio_get_from_cache memory dev blockno cache ≡ some result)
          × Got memory dev blockno cache result))
      ⊎ ((memory ≡ none) × (bio_get_from_cache memory dev blockno cache ≡ none))
unfolding buf_alloc_init
bio_get_from_cache-Got memory dev blockno cache distinct =
    elim (Option-cases (find_block dev blockno cache.buf_list)) [
      | inr (b, f) ↦
          let (found, (same_dev, same_blockno)) =
            find_block-Found dev blockno b cache.buf_list distinct f in
          inl (
            (b.address, hit b cache),
            (get-hit memory dev blockno cache b f, was_cached b found same_dev same_blockno refl),
          )
      | inl f ↦
          let absent = find_block-none dev blockno cache.buf_list f in
          elim (Option-cases (find_unused cache.buf_list)) [
            | inr (b, g) ↦
                let (found, free) = find_unused-Found b cache.buf_list distinct g in
                inl (
                  (b.address, reused dev blockno b cache),
                  (
                    get-reused memory dev blockno cache b f g,
                    was_unused b found absent g free refl,
                  ),
                )
            | inl g ↦
                let busy = find_unused-none cache.buf_list g in
                let called = get-new memory dev blockno cache f g in
                elim (Option-cases memory) [
                  | inl lost ↦
                      inr (lost, called ∙ ap (λ o. buf_alloc_init o dev blockno cache) lost)
                  | inr (m, gave) ↦ inl (
                    (m.address, buf_init m dev blockno cache),
                    (
                      called ∙ ap (λ o. buf_alloc_init o dev blockno cache) gave,
                      is_new m gave absent busy refl,
                    ),
                  )
                ]
          ]
    ]
