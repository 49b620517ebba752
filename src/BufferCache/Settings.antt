-- ===== src/BufferCache/Settings.antt =====
-- kernel/kernel/bio.c: the setters keep the cache right.
use vimix_os.Base.{
  ℕ, zero, suc, ◌+◌, ◌-◌, ◌≤◌, ◌≡◌, sym, ap, ◌∙◌, Option, none, some, List, [], ◌∷◌, arith, subst,
  length,
}
use vimix_os.BufferCache.Buffers.{Buf, BioCache, Allocation, find_at}
use vimix_os.BufferCache.Lists.{total}
use vimix_os.BufferCache.Invariant.{IsCounted, IsValid}
use vimix_os.BufferCache.Operations.{add_buffers, Result, success, einval, set_min_to, set_max_to}
use vimix_os.BufferCache.Coherence.{Blocks, IsCoherent}
use vimix_os.BufferCache.Invariant.{refs-find}
use vimix_os.BufferCache.Trim.{free_extra-IsValid}
use vimix_os.BufferCache.Limits.{AreFresh, add_unused_lem, with_unused, set_min_buffers-added}
use vimix_os.BufferCache.Leaving.{free_extra-IsCoherent}

add_buffers-IsCoherent :
    (rounds : ℕ) (memory : List Allocation) (cache after : BioCache) (disk store : Blocks)
    → add_buffers rounds memory cache ≡ some after
    → IsCoherent cache.buf_list disk store
    → IsCoherent after.buf_list disk store
unfolding add_buffers total
add_buffers-IsCoherent zero memory cache after disk store e coherent =
    let same : cache ≡ after = ground arith in
    subst (λ c. IsCoherent c.buf_list disk store) same coherent
add_buffers-IsCoherent (suc rounds) [] cache after disk store e coherent = absurd (ground arith)
add_buffers-IsCoherent (suc rounds) (m ∷ memory) cache after disk store e coherent =
    add_buffers-IsCoherent rounds memory (with_unused m cache) after disk store
      (ap (add_buffers rounds memory) (sym (add_unused_lem m cache)) ∙ e)
      (record {
        current = (((λ v. absurd (ground arith)), λ used. absurd (omega arith)), coherent.current);
        settled = λ d k h none_left. coherent.settled d k h (omega arith);
      })

abbrev pub no_buffers : BioCache
no_buffers = record {
  buf_list = [];
  num_buffers = 0;
  min_buffers = 0;
  max_free_buffers = 16;
  free_buffers = 0;
}

abbrev pub no_references : ℕ → ℕ
no_references a = 0

abbrev pub IsRight : BioCache → (ℕ → ℕ) → Blocks → Blocks → Type 0
IsRight cache held disk store = IsValid cache held × IsCoherent cache.buf_list disk store

unfoldable pub result_cache : BioCache → Option Result → BioCache
result_cache cache (some (success after)) = after
result_cache cache (some (einval after)) = after
result_cache cache none = cache

pub set_min-IsRight :
    (memory : List Allocation) (min_buffers : ℕ) (cache after : BioCache) (held : ℕ → ℕ)
    (disk store : Blocks)
    → IsCounted cache held
    → IsCoherent cache.buf_list disk store
    → 3 ≤ min_buffers
    → AreFresh memory cache
    → min_buffers ≤ cache.num_buffers + length memory
    → set_min_to memory min_buffers cache ≡ some (success after)
    → IsRight after held disk store
unfolding result_cache
set_min-IsRight memory min_buffers cache after held disk store counts coherent large fresh enough
      e =
    let (added, (f, (kept, g))) =
      set_min_buffers-added memory min_buffers cache held counts large fresh enough in
    subst (λ c. IsRight c held disk store) (ap (result_cache cache) (sym g ∙ e))
      (
        (free_extra-IsValid added held kept).0,
        free_extra-IsCoherent added held disk store kept (
            add_buffers-IsCoherent (min_buffers - cache.num_buffers) memory
              (record cache { min_buffers = min_buffers }) added disk store f coherent),
      )

unfoldable pub result_pair : ℕ × BioCache → Option (ℕ × BioCache) → ℕ × BioCache
result_pair other none = other
result_pair other (some result) = result

pub held-amount :
    (cache : BioCache) (held : ℕ → ℕ) (a : ℕ) (b : Buf)
    → IsValid cache held
    → find_at a cache.buf_list ≡ some b
    → b.refcnt ≡ held a
held-amount cache held a b valid e =
    sym (refs-find a b cache.buf_list e (valid.counts.once a)) ∙ valid.counts.references a

pub set_max-IsCoherent :
    (max_free_buffers : ℕ) (cache : BioCache) (held : ℕ → ℕ) (disk store : Blocks)
    → IsCounted cache held
    → IsCoherent cache.buf_list disk store
    → IsCoherent (set_max_to max_free_buffers cache).buf_list disk store
unfolding set_max_to
set_max-IsCoherent max_free_buffers cache held disk store counts coherent =
    free_extra-IsCoherent (record cache { max_free_buffers = max_free_buffers }) held disk store
      (record {
        once = counts.once;
        unique = counts.unique;
        references = counts.references;
        counted = counts.counted;
        idle = counts.idle;
      })
      coherent
