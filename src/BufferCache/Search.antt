-- ===== src/BufferCache/Search.antt =====
-- kernel/kernel/bio.c: what the loop of bio_get_from_cache finds.
use vimix_os.Base.{
  ℕ, ◌≤◌, ◌≡◌, inl, inr, refl, ◌&&◌, Bool-cases, Option, none, some, List, [], ◌∷◌, ◌==◌,
  if◌then◌else◌, arith,
}
use vimix_os.BufferCache.Buffers.{Buf, find_at}
use vimix_os.BufferCache.Operations.{Search, cached, absent, remember, search_list}
use vimix_os.BufferCache.Lists.{total, at, found_counted}

-- one for a buffer of a block
abbrev pub key : ℕ → ℕ → Buf → ℕ
key dev blockno b = if (b.dev == dev) && (b.blockno == blockno) then 1 else 0

-- one for an unused buffer
abbrev pub unused : Buf → ℕ
unused b = if b.refcnt == 0 then 1 else 0

-- the first buffer of a block
unfoldable pub find_block : ℕ → ℕ → List Buf → Option Buf
find_block dev blockno [] = none
find_block dev blockno (b ∷ rest) =
    if (b.dev == dev) && (b.blockno == blockno) then some b else find_block dev blockno rest

-- the first unused buffer, which has been unused for longest
unfoldable pub find_unused : List Buf → Option Buf
find_unused [] = none
find_unused (b ∷ rest) = if b.refcnt == 0 then some b else find_unused rest

or_else : Option Buf → Option Buf → Option Buf
or_else none second = second
or_else (some b) second = some b

unfoldable pub searched : Option Buf → Option Buf → Search
searched none free_buffer = absent free_buffer
searched (some b) free_buffer = cached b

search_list-loop :
    (dev blockno : ℕ) (free_buffer : Option Buf) (l : List Buf)
    → search_list dev blockno free_buffer l
      ≡ searched (find_block dev blockno l) (or_else free_buffer (find_unused l))
unfolding search_list searched or_else find_block find_unused remember
search_list-loop dev blockno none [] = refl
search_list-loop dev blockno (some b) [] = refl
search_list-loop dev blockno none (x ∷ l) =
    let ih = search_list-loop dev blockno none l in
    let jh = search_list-loop dev blockno (some x) l in ground arith
search_list-loop dev blockno (some b) (x ∷ l) =
    let ih = search_list-loop dev blockno (some b) l in ground arith

-- The loop ends at the first buffer of the block, or else with the first unused buffer.
pub search_list-finds :
    (dev blockno : ℕ) (l : List Buf)
    → search_list dev blockno none l ≡ searched (find_block dev blockno l) (find_unused l)
unfolding or_else
search_list-finds dev blockno l = search_list-loop dev blockno none l

-- No two buffers have one address.
abbrev pub AreDistinct : List Buf → Type 0
AreDistinct l = (a : ℕ) → total (at a) l ≤ 1

distinct_rest : (x : Buf) (l : List Buf) → AreDistinct (x ∷ l) → AreDistinct l
unfolding total
distinct_rest x l h a = let once = h a in omega arith

later_found :
    (x b : Buf) (l : List Buf)
    → AreDistinct (x ∷ l)
    → find_at b.address l ≡ some b
    → find_at b.address (x ∷ l) ≡ some b
unfolding find_at total
later_found x b l h e =
    let once = h b.address in let there = found_counted b.address b l e in ground arith

pub find_block-Found :
    (dev blockno : ℕ) (b : Buf) (l : List Buf)
    → AreDistinct l
    → find_block dev blockno l ≡ some b
    → (find_at b.address l ≡ some b) × ((b.dev ≡ dev) × (b.blockno ≡ blockno))
unfolding find_block find_at
find_block-Found dev blockno b [] h e = ground arith
find_block-Found dev blockno b (x ∷ l) h e =
    elim (Bool-cases ((x.dev == dev) && (x.blockno == blockno))) [
      | inl here ↦ ground arith
      | inr later ↦
          let found = find_block-Found dev blockno b l (distinct_rest x l h) (ground arith) in
          (later_found x b l h found.0, found.1)
    ]

pub find_block-none :
    (dev blockno : ℕ) (l : List Buf)
    → find_block dev blockno l ≡ none
    → total (key dev blockno) l ≡ 0
unfolding find_block total
find_block-none dev blockno [] e = refl
find_block-none dev blockno (x ∷ l) e = let ih = find_block-none dev blockno l in ground arith

pub find_unused-Found :
    (b : Buf) (l : List Buf)
    → AreDistinct l
    → find_unused l ≡ some b
    → (find_at b.address l ≡ some b) × (b.refcnt ≡ 0)
unfolding find_unused find_at
find_unused-Found b [] h e = ground arith
find_unused-Found b (x ∷ l) h e = elim (Bool-cases (x.refcnt == 0)) [
  | inl here ↦ ground arith
  | inr later ↦
      let (found, none_left) = find_unused-Found b l (distinct_rest x l h) (ground arith) in
      (later_found x b l h found, none_left)
]

pub find_unused-none : (l : List Buf) → find_unused l ≡ none → total unused l ≡ 0
unfolding find_unused total
find_unused-none [] e = refl
find_unused-none (x ∷ l) e = let ih = find_unused-none l in ground arith
