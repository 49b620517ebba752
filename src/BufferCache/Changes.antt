-- ===== src/BufferCache/Changes.antt =====
-- kernel/kernel/bio.c: what changes of contents, writes, releases and the setters leave coherent.
use vimix_os.Base.{
  ℕ, ◌<◌, ◌≤◌, ◌≡◌, inl, inr, sym, ap, ◌∙◌, Bool, false, ◌&&◌, Bool-cases, Option, none, some, List,
  [], ◌∷◌, ◌==◌, if◌then◌else◌, arith, subst, All,
}
use vimix_os.BufferCache.Buffers.{Buf, BioCache, find_at, update}
use vimix_os.BufferCache.Lists.{total, at, total-remove, total-update, All-find}
use vimix_os.BufferCache.Search.{key, unused}
use vimix_os.BufferCache.Invariant.{IsValid, one, refs}
use vimix_os.BufferCache.Operations.{bio_write}
use vimix_os.BufferCache.Coherence.{Blocks, pins, IsCurrent, IsCoherent}

-- A caller changes the contents of a buffer, and with it the store.
unfoldable pub write_contents : List ℕ → Buf → Buf
write_contents bytes b = record b { contents = bytes }

abbrev pub stored : ℕ → ℕ → List ℕ → Blocks → Blocks
stored dev blockno bytes store d k = if (dev == d) && (blockno == k) then bytes else store d k

-- A buffer of another block.
other-IsCurrent :
    (dev blockno : ℕ) (bytes : List ℕ) (store : Blocks) (b : Buf)
    → key dev blockno b ≡ 0
    → IsCurrent store b
    → IsCurrent (stored dev blockno bytes store) b
other-IsCurrent dev blockno bytes store b other good =
    ((λ v. let g = good.0 v in ground arith), good.1)

others-IsCurrent :
    (dev blockno : ℕ) (bytes : List ℕ) (store : Blocks) (l : List Buf)
    → total (key dev blockno) l ≡ 0
    → All (IsCurrent store) l
    → All (IsCurrent (stored dev blockno bytes store)) l
unfolding total
others-IsCurrent dev blockno bytes store [] h good = tt
others-IsCurrent dev blockno bytes store (x ∷ l) h good = (
  other-IsCurrent dev blockno bytes store x (omega arith) good.0,
  others-IsCurrent dev blockno bytes store l (omega arith) good.1,
)

changed_here :
    (bytes : List ℕ) (store : Blocks) (b : Buf)
    → IsCurrent store b
    → IsCurrent (stored b.dev b.blockno bytes store) (write_contents bytes b)
unfolding write_contents
changed_here bytes store b good = ((λ v. ground arith), good.1)

changed-IsCurrent :
    (a : ℕ) (bytes : List ℕ) (store : Blocks) (b : Buf) (l : List Buf)
    → find_at a l ≡ some b
    → total (key b.dev b.blockno) l ≤ 1
    → All (IsCurrent store) l
    → All (IsCurrent (stored b.dev b.blockno bytes store)) (update (write_contents bytes) a l)
unfolding total find_at update
changed-IsCurrent a bytes store b [] e once good = tt
changed-IsCurrent a bytes store b (x ∷ l) e once good = elim (Bool-cases (x.address == a)) [
  | inl here ↦
      let same : x ≡ b = ground arith in
      let alone : total (key b.dev b.blockno) l ≡ 0 =
        (let k : key b.dev b.blockno x ≡ 1 =
            subst (λ y. key b.dev b.blockno y ≡ 1) (sym same) (ground arith) in
          omega arith) in
      subst (All (IsCurrent (stored b.dev b.blockno bytes store)))
        (let first : write_contents bytes x ∷ l ≡ update (write_contents bytes) a (x ∷ l) =
            ground arith in
          first)
        (
          subst (λ y. IsCurrent (stored b.dev b.blockno bytes store) (write_contents bytes y))
              (sym same) (changed_here bytes store b (subst (IsCurrent store) same good.0)),
          others-IsCurrent b.dev b.blockno bytes store l alone good.1,
        )
  | inr later ↦
      let there : find_at a l ≡ some b = ground arith in
      let r = total-remove (key b.dev b.blockno) a b l there in
      let k : key b.dev b.blockno b ≡ 1 = ground arith in
      subst (All (IsCurrent (stored b.dev b.blockno bytes store)))
        (let next : x ∷ update (write_contents bytes) a l
              ≡ update (write_contents bytes) a (x ∷ l) =
            ground arith in
          next)
        (
          other-IsCurrent b.dev b.blockno bytes store x (omega arith) good.0,
          changed-IsCurrent a bytes store b l there (omega arith) good.1,
        )
]

-- the cache after a caller changed the contents of a buffer
abbrev pub with_contents : List ℕ → ℕ → BioCache → BioCache
with_contents bytes a cache = record cache {
  buf_list = update (write_contents bytes) a cache.buf_list;
}

-- A sum of references that is 0 leaves out the block of a buffer in use.
pinned-apart :
    (dev blockno a : ℕ) (b : Buf) (l : List Buf)
    → find_at a l ≡ some b
    → 0 < b.refcnt
    → total (pins dev blockno) l ≡ 0
    → ((b.dev == dev) && (b.blockno == blockno)) ≡ false
pinned-apart dev blockno a b l e used none_left =
    let r = total-remove (pins dev blockno) a b l e in
    elim (Bool-cases ((b.dev == dev) && (b.blockno == blockno))) [
      | inl same ↦ absurd (ground arith)
      | inr other ↦ other
    ]

pub change-IsCoherent :
    (cache : BioCache) (held : ℕ → ℕ) (a : ℕ) (b : Buf) (bytes : List ℕ) (disk store : Blocks)
    → IsValid cache held
    → 0 < held a
    → find_at a cache.buf_list ≡ some b
    → b.refcnt ≡ held a
    → IsCoherent cache.buf_list disk store
    → IsCoherent (with_contents bytes a cache).buf_list disk (stored b.dev b.blockno bytes store)
unfolding write_contents
change-IsCoherent cache held a b bytes disk store valid positive e amount coherent =
    let good = All-find (IsCurrent store) a b cache.buf_list e coherent.current in
    record {
      current =
          changed-IsCurrent a bytes store b cache.buf_list e
            (valid.counts.unique b.dev b.blockno (good.1 (omega arith)).1) coherent.current;
      settled = λ d k h none_left.
          let s = total-update (pins d k) (write_contents bytes) a b cache.buf_list e in
          let zero_before : total (pins d k) cache.buf_list ≡ 0 = omega arith in
          let apart = pinned-apart d k a b cache.buf_list e (omega arith) zero_before in
          ap (λ t. if t then bytes else store d k) apart ∙ coherent.settled d k h zero_before;
    }

pub change-IsValid :
    (cache : BioCache) (held : ℕ → ℕ) (a : ℕ) (b : Buf) (bytes : List ℕ)
    → IsValid cache held
    → find_at a cache.buf_list ≡ some b
    → IsValid (with_contents bytes a cache) held
unfolding write_contents
change-IsValid cache held a b bytes valid e =
    let sum =
      λ (weight : Buf → ℕ). total-update weight (write_contents bytes) a b cache.buf_list e in
    record {
      counts = record {
        once = λ x. let s = sum (at x) in let v = valid.counts.once x in omega arith;
        unique = λ dev blockno h.
            let s = sum (key dev blockno) in
            let v = valid.counts.unique dev blockno h in omega arith;
        references = λ x. let s = sum (refs x) in let v = valid.counts.references x in omega arith;
        counted = let s = sum one in let v = valid.counts.counted in omega arith;
        idle = let s = sum unused in let v = valid.counts.idle in omega arith;
      };
      trimmed = valid.trimmed;
    }

-- the disk after a buffer was written to it
abbrev pub on_disk : Buf → Blocks → Blocks
on_disk b disk dev blockno =
    if (b.dev == dev) && (b.blockno == blockno) then b.contents else disk dev blockno

blocks_or : Blocks → Option Blocks → Blocks
blocks_or disk none = disk
blocks_or disk (some other) = other

write-value :
    (is_device : ℕ → Bool) (b : Buf) (disk written : Blocks)
    → bio_write is_device b disk ≡ some written
    → on_disk b disk ≡ written
unfolding bio_write blocks_or
write-value is_device b disk written e = elim (Bool-cases (is_device b.dev)) [
  | inl known ↦
      ap (λ t. blocks_or disk (if t then some (on_disk b disk) else none)) (sym known)
      ∙ ap (blocks_or disk) e
  | inr unknown ↦ absurd (
      let clash : ◌≡◌ {A = Option Blocks} none (some written) =
        ap (λ t. if t then some (on_disk b disk) else none) (sym unknown) ∙ e in
      ground arith)
]

pub write-IsCoherent :
    (is_device : ℕ → Bool) (a : ℕ) (b : Buf) (l : List Buf) (disk written store : Blocks)
    → find_at a l ≡ some b
    → 0 < b.refcnt
    → bio_write is_device b disk ≡ some written
    → IsCoherent l disk store
    → IsCoherent l written store
write-IsCoherent is_device a b l disk written store e used w coherent = record {
  current = coherent.current;
  settled = λ d k h none_left.
      coherent.settled d k h none_left
      ∙ (ap (λ t. if t then b.contents else disk d k)
            (sym (pinned-apart d k a b l e used none_left))
          ∙ ap (λ f. f d k) (write-value is_device b disk written w));
}
