-- ===== src/BufferCache/Coherence.antt =====
-- kernel/kernel/bio.c: the cache as a view of the blocks. A store says what each block holds for the callers;
-- the disk may hold older bytes of the blocks that are referenced.
use vimix_os.Base.{
  ℕ, ◌+◌, ◌<◌, ◌≤◌, ◌≡◌, inl, inr, refl, true, ◌&&◌, Bool-cases, some, List, [], ◌∷◌, ◌==◌,
  if◌then◌else◌, arith, All,
}
use vimix_os.BufferCache.Buffers.{Buf, BioCache, uint32_max, find_at, remove, update}
use vimix_os.BufferCache.Operations.{bio_get, bio_put, add_reference, drop_reference}
use vimix_os.BufferCache.Lists.{
  total, total-remove, total-update, All-find, All-update, decrement_lem,
}
use vimix_os.BufferCache.Search.{key}
use vimix_os.BufferCache.Invariant.{IsValid, held-find}

-- what the blocks of devices hold
abbrev pub Blocks : Type 0
Blocks = ℕ → ℕ → List ℕ

-- the references to the buffers of a block
abbrev pub pins : ℕ → ℕ → Buf → ℕ
pins dev blockno b = if (b.dev == dev) && (b.blockno == blockno) then b.refcnt else 0

-- A valid buffer holds what the store does; a buffer in use is valid, for a block of a device.
abbrev pub IsCurrent : Blocks → Buf → Type 0
IsCurrent store b =
    (b.valid ≡ true → b.contents ≡ store b.dev b.blockno)
    × (0 < b.refcnt → (b.valid ≡ true) × (0 < b.dev))

pub record IsCoherent (l : List Buf) (disk store : Blocks) : Type 0 where
  pub current : All (IsCurrent store) l
  -- The disk holds what the store does, where no buffer of the block is referenced.
  pub settled :
      (dev blockno : ℕ)
      → 0 < dev
      → total (pins dev blockno) l ≡ 0
      → store dev blockno ≡ disk dev blockno

pub pins_zero :
    (dev blockno : ℕ) (l : List Buf)
    → total (key dev blockno) l ≡ 0
    → total (pins dev blockno) l ≡ 0
unfolding total
pins_zero dev blockno [] h = refl
pins_zero dev blockno (x ∷ l) h = let ih = pins_zero dev blockno l in ground arith

pub pins-find :
    (a dev blockno : ℕ) (b : Buf) (l : List Buf)
    → find_at a l ≡ some b
    → b.dev ≡ dev
    → b.blockno ≡ blockno
    → total (key dev blockno) l ≤ 1
    → total (pins dev blockno) l ≡ b.refcnt
pins-find a dev blockno b l e d k once =
    let n = total-remove (key dev blockno) a b l e in
    let p = total-remove (pins dev blockno) a b l e in
    let z = pins_zero dev blockno (remove a l) in ground arith

-- A second assignment through a pointer.
pub update-update :
    (f g : Buf → Buf) (a : ℕ) (b : Buf) (l : List Buf)
    → find_at a l ≡ some b
    → (f b).address ≡ a
    → update g a (update f a l) ≡ update (λ x. g (f x)) a l
unfolding update find_at
update-update f g a b [] e h = refl
update-update f g a b (x ∷ l) e h = let ih = update-update f g a b l in ground arith

-- One buffer is changed: the list stays coherent if the new contents are the store's and the block that the
-- buffer held before was settled or is still referenced.
pub update-IsCoherent :
    (f : Buf → Buf) (a : ℕ) (b : Buf) (l : List Buf) (disk store : Blocks)
    → IsCoherent l disk store
    → find_at a l ≡ some b
    → IsCurrent store (f b)
    → ((dev blockno : ℕ) → pins dev blockno b ≤ pins dev blockno (f b))
    → IsCoherent (update f a l) disk store
update-IsCoherent f a b l disk store coherent e good grows = record {
  current = All-update (IsCurrent store) f a b l e good coherent.current;
  settled = λ dev blockno h none_left.
      let s = total-update (pins dev blockno) f a b l e in
      let g = grows dev blockno in coherent.settled dev blockno h (omega arith);
}

pub get-IsCoherent :
    (cache : BioCache) (held : ℕ → ℕ) (a : ℕ) (disk store : Blocks)
    → IsValid cache held
    → 0 < held a
    → IsCoherent cache.buf_list disk store
    → IsCoherent (bio_get a cache).buf_list disk store
unfolding bio_get add_reference
get-IsCoherent cache held a disk store valid positive coherent =
    let (b, (e, amount)) = held-find cache held a valid positive in
    let good = All-find (IsCurrent store) a b cache.buf_list e coherent.current in
    update-IsCoherent add_reference a b cache.buf_list disk store coherent e
      (good.0, λ used. good.1 (omega arith)) (λ dev blockno. ground arith)

-- A sum over the list that is 0 once a reference is dropped, of several.
none_pinned :
    (dev blockno before after : ℕ) (b : Buf)
    → 1 < b.refcnt
    → pins dev blockno b ≤ before
    → after + pins dev blockno b ≡ before + pins dev blockno (drop_reference b)
    → after ≡ 0
    → before ≡ 0
unfolding drop_reference
none_pinned dev blockno before after b several part sum none_left =
    let fewer = decrement_lem uint32_max b.refcnt (omega arith) in
    elim (Bool-cases ((b.dev == dev) && (b.blockno == blockno))) [
      | inl same ↦ ground arith
      | inr other ↦ ground arith
    ]

pub put-IsCoherent :
    (cache : BioCache) (held : ℕ → ℕ) (a : ℕ) (disk store : Blocks)
    → IsValid cache held
    → 1 < held a
    → IsCoherent cache.buf_list disk store
    → IsCoherent (bio_put a cache).buf_list disk store
unfolding bio_put drop_reference
put-IsCoherent cache held a disk store valid several coherent =
    let (b, (e, amount)) = held-find cache held a valid (omega arith) in
    let good = All-find (IsCurrent store) a b cache.buf_list e coherent.current in
    let fewer = decrement_lem uint32_max b.refcnt (omega arith) in
    record {
      current =
          All-update (IsCurrent store) drop_reference a b cache.buf_list e
            (good.0, λ used. good.1 (omega arith)) coherent.current;
      settled = λ dev blockno h none_left.
          let s = total-update (pins dev blockno) drop_reference a b cache.buf_list e in
          coherent.settled dev blockno h (
            none_pinned dev blockno (total (pins dev blockno) cache.buf_list)
              (total (pins dev blockno) (update drop_reference a cache.buf_list)) b (omega arith)
              (let r = total-remove (pins dev blockno) a b cache.buf_list e in omega arith) s
              none_left);
    }
