-- ===== src/BufferCache/Trim.antt =====
-- kernel/kernel/bio.c: bio_cache_free_extra_buffers, the setters of the limits and bio_init.
use vimix_os.Base.{
  ℕ, ◌+◌, ◌≤◌, ◌≡◌, ◌≢◌, ◌⊎◌, inl, inr, refl, sym, ap, ◌∙◌, Bool, true, false, ◌&&◌, Bool-cases,
  some, List, [], ◌∷◌, ◌==◌, if◌then◌else◌, arith, subst, All,
}
use vimix_os.BufferCache.Buffers.{Buf, BioCache, size_max, decrement, find_at, remove, buf_deinit}
use vimix_os.BufferCache.Operations.{
  bio_has_too_many_buffers, free_each, bio_cache_free_extra_buffers,
}
use vimix_os.BufferCache.Lists.{total, at, total-remove, decrement_lem}
use vimix_os.BufferCache.Search.{key, unused, AreDistinct}
use vimix_os.BufferCache.Invariant.{IsCounted, IsValid, one, refs}

-- what the loop does for one buffer
abbrev pub free_one : Buf → BioCache → BioCache
free_one b cache =
    buf_deinit b.address (record cache { free_buffers = decrement size_max cache.free_buffers })

free_one-IsCounted :
    (b : Buf) (cache : BioCache) (held : ℕ → ℕ)
    → IsCounted cache held
    → find_at b.address cache.buf_list ≡ some b
    → b.refcnt ≡ 0
    → IsCounted (free_one b cache) held
unfolding buf_deinit
free_one-IsCounted b cache held counts e free =
    let sum = λ (weight : Buf → ℕ). total-remove weight b.address b cache.buf_list e in
    let n = sum one in
    let u = sum unused in
    let c = counts.counted in
    let i = counts.idle in
    let fewer = decrement_lem size_max cache.num_buffers (omega arith) in
    let less_free = decrement_lem size_max cache.free_buffers (ground arith) in
    record {
      once = λ x. let s = sum (at x) in let v = counts.once x in omega arith;
      unique = λ dev blockno h.
          let s = sum (key dev blockno) in let v = counts.unique dev blockno h in omega arith;
      references = λ x. let s = sum (refs x) in let v = counts.references x in ground arith;
      counted = omega arith;
      idle = ground arith;
    }

find-remove : (a x : ℕ) (l : List Buf) → a ≢ x → find_at x (remove a l) ≡ find_at x l
unfolding find_at remove
find-remove a x [] differ = refl
find-remove a x (y ∷ l) differ = let ih = find-remove a x l in ground arith

-- Each buffer of the rest stands in the cache's list.
abbrev pub StandsIn : List Buf → Buf → Type 0
StandsIn l b = find_at b.address l ≡ some b

pub stay-removed :
    (a : ℕ) (rest l : List Buf)
    → total (at a) rest ≡ 0
    → All (StandsIn l) rest
    → All (StandsIn (remove a l)) rest
unfolding total
stay-removed a [] l none_there h = tt
stay-removed a (b ∷ rest) l none_there h =
    let differ : a ≢ b.address = ground arith in
    (find-remove a b.address l differ ∙ h.0, stay-removed a rest l (omega arith) h.1)

stand-more :
    (x : Buf) (rest l : List Buf)
    → total (at x.address) rest ≡ 0
    → All (StandsIn l) rest
    → All (StandsIn (x ∷ l)) rest
unfolding total find_at
stand-more x [] l none_there h = tt
stand-more x (b ∷ rest) l none_there h = (ground arith, stand-more x rest l (omega arith) h.1)

pub distinct-StandsIn : (l : List Buf) → AreDistinct l → All (StandsIn l) l
unfolding total find_at
distinct-StandsIn [] distinct = tt
distinct-StandsIn (x ∷ l) distinct =
    let once = distinct x.address in
    (
      ground arith,
      stand-more x l l (ground arith)
          (distinct-StandsIn l (λ a. let o = distinct a in omega arith)),
    )

-- The test of the loop.
abbrev pub is_extra : Buf → BioCache → Bool
is_extra b cache = (b.refcnt == 0) && bio_has_too_many_buffers cache

pub free_each-extra :
    (b : Buf) (rest : List Buf) (cache : BioCache)
    → is_extra b cache ≡ true
    → free_each (b ∷ rest) cache ≡ free_each rest (free_one b cache)
unfolding free_each
free_each-extra b rest cache e = ap (λ t. free_each rest (if t then free_one b cache else cache)) e

pub free_each-kept :
    (b : Buf) (rest : List Buf) (cache : BioCache)
    → is_extra b cache ≡ false
    → free_each (b ∷ rest) cache ≡ free_each rest cache
unfolding free_each
free_each-kept b rest cache e = ap (λ t. free_each rest (if t then free_one b cache else cache)) e

-- Where the cache is small enough, nothing is freed.
free_each-few :
    (rest : List Buf) (cache : BioCache)
    → bio_has_too_many_buffers cache ≡ false
    → free_each rest cache ≡ cache
unfolding free_each
free_each-few [] cache few = refl
free_each-few (b ∷ rest) cache few =
    free_each-kept b rest cache (ground arith) ∙ free_each-few rest cache few

kept_in_use :
    (b : Buf) (rest : List Buf) (cache : BioCache)
    → is_extra b cache ≡ false
    → bio_has_too_many_buffers (free_each rest cache) ≡ true
    → unused b ≡ 0
kept_in_use b rest cache usual full = elim (Bool-cases (bio_has_too_many_buffers cache)) [
  | inl many ↦ ground arith
  | inr few ↦ let same = ap bio_has_too_many_buffers (free_each-few rest cache few) in ground arith
]

-- What the loop keeps: the counts and the limits; and where too many buffers are left, it freed all unused
-- ones.
abbrev Ends : List Buf → BioCache → (ℕ → ℕ) → BioCache → Type 0
Ends rest cache held after =
    IsCounted after held
    × ((after.min_buffers ≡ cache.min_buffers)
        × ((after.max_free_buffers ≡ cache.max_free_buffers)
            × (bio_has_too_many_buffers after ≡ true
                → total unused after.buf_list + total unused rest ≡ total unused cache.buf_list)))

free_each-Ends :
    (rest : List Buf) (cache : BioCache) (held : ℕ → ℕ)
    → IsCounted cache held
    → AreDistinct rest
    → All (StandsIn cache.buf_list) rest
    → Ends rest cache held (free_each rest cache)
unfolding total free_each buf_deinit
free_each-Ends [] cache held counts distinct stand = (counts, (refl, (refl, λ full. omega arith)))
free_each-Ends (b ∷ rest) cache held counts distinct stand =
    let tail_distinct : AreDistinct rest = λ a. let o = distinct a in omega arith in
    let apart : total (at b.address) rest ≡ 0 = (let o = distinct b.address in ground arith) in
    elim (Bool-cases (is_extra b cache)) [
      | inl extra ↦
          let free : b.refcnt ≡ 0 = ground arith in
          let (kept, (same_min, (same_max, left))) =
            free_each-Ends rest (free_one b cache) held
              (free_one-IsCounted b cache held counts stand.0 free) tail_distinct
              (stay-removed b.address rest cache.buf_list apart stand.1) in
          let r = total-remove unused b.address b cache.buf_list stand.0 in
          subst (Ends (b ∷ rest) cache held) (sym (free_each-extra b rest cache extra))
            (kept, (same_min, (same_max, λ full. (let l = left full in ground arith))))
      | inr usual ↦
          let (kept, (same_min, (same_max, left))) =
            free_each-Ends rest cache held counts tail_distinct stand.1 in
          let in_use_left = λ (full : bio_has_too_many_buffers (free_each rest cache) ≡ true).
            kept_in_use b rest cache usual full in
          subst (Ends (b ∷ rest) cache held) (sym (free_each-kept b rest cache usual)) (
            kept,
            (
              same_min,
              (same_max, λ full. (let l = left full in let z = in_use_left full in omega arith)),
            ),
          )
    ]

within :
    (cache : BioCache)
    → bio_has_too_many_buffers cache ≡ false
    → (cache.num_buffers ≤ cache.min_buffers) ⊎ (cache.free_buffers ≤ cache.max_free_buffers + 1)
unfolding bio_has_too_many_buffers
within cache few = ground arith

few_left :
    (cache : BioCache) (held : ℕ → ℕ)
    → IsCounted cache held
    → (bio_has_too_many_buffers cache ≡ true → total unused cache.buf_list ≡ 0)
    → bio_has_too_many_buffers cache ≡ false
unfolding bio_has_too_many_buffers
few_left cache held counts none_unused = elim (Bool-cases (bio_has_too_many_buffers cache)) [
  | inl full ↦ let z = none_unused full in let i = counts.idle in ground arith
  | inr few ↦ few
]

-- Freeing the extra buffers ends within the limits.
pub free_extra-IsValid :
    (cache : BioCache) (held : ℕ → ℕ)
    → IsCounted cache held
    → IsValid (bio_cache_free_extra_buffers cache) held
      × (bio_has_too_many_buffers (bio_cache_free_extra_buffers cache) ≡ false)
unfolding bio_cache_free_extra_buffers
free_extra-IsValid cache held counts =
    let after = free_each cache.buf_list cache in
    let (kept, (same_min, (same_max, left))) =
      free_each-Ends cache.buf_list cache held counts counts.once
        (distinct-StandsIn cache.buf_list counts.once) in
    let few = few_left after held kept (λ full. (let l = left full in omega arith)) in
    (record { counts = kept; trimmed = within after few }, few)
