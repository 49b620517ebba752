-- ===== src/CString/Memory.antt =====
-- kernel/lib/string.c: `memmove` copies the bytes also between overlapping ranges.
use vimix_os.Base.{
  ℕ, zero, suc, ◌+◌, ◌-◌, ◌<◌, ◌≤◌, ltb, leb, ◌≡◌, ◌∙◌, ◌&&◌, if◌then◌else◌, arith, Bool-cases, inl,
  inr,
}
use vimix_os.CString.{Memory, store, copy_up, copy_down, memmove}

-- the memory with n bytes from dst replaced by those that were at src
pub moved : ℕ → ℕ → ℕ → Memory → Memory
moved dst src n mem x = if leb dst x && ltb x (dst + n) then mem (src + (x - dst)) else mem x

moved_none : (dst src : ℕ) (mem : Memory) (x : ℕ) → mem x ≡ moved dst src 0 mem x
unfolding moved
moved_none dst src mem x = ground arith

moved_first :
    (dst src n : ℕ) (mem : Memory) (x : ℕ)
    → dst < src
    → moved (suc dst) (suc src) n (store dst (mem src) mem) x ≡ moved dst src (suc n) mem x
unfolding moved store
moved_first dst src n mem x below = grind arith

moved_last :
    (dst src n : ℕ) (mem : Memory) (x : ℕ)
    → src ≤ dst
    → moved dst src n (store (dst + n) (mem (src + n)) mem) x ≡ moved dst src (suc n) mem x
unfolding moved store
moved_last dst src n mem x above = grind arith

copy_up-moved :
    (dst src n : ℕ) (mem : Memory) (x : ℕ)
    → dst < src
    → copy_up dst src n mem x ≡ moved dst src n mem x
unfolding copy_up
copy_up-moved dst src zero mem x below = moved_none dst src mem x
copy_up-moved dst src (suc n) mem x below =
    copy_up-moved (suc dst) (suc src) n (store dst (mem src) mem) x (omega arith)
    ∙ moved_first dst src n mem x below

before_end : (a n : ℕ) → a + suc n - 1 ≡ a + n
before_end a n = omega arith

copy_down-moved :
    (dst src n : ℕ) (mem : Memory) (x : ℕ)
    → src ≤ dst
    → copy_down (dst + n) (src + n) n mem x ≡ moved dst src n mem x
unfolding copy_down
copy_down-moved dst src zero mem x above = moved_none dst src mem x
copy_down-moved dst src (suc n) mem x above =
    rw (before_end dst n, before_end src n)
      (copy_down-moved dst src n (store (dst + n) (mem (src + n)) mem) x above
        ∙ moved_last dst src n mem x above)

-- After `memmove` the n bytes from dst are the bytes that were at src before, for every overlap of
-- the two ranges, and all other memory is unchanged.
pub memmove-moved :
    (dst src n : ℕ) (mem : Memory) (x : ℕ) → memmove dst src n mem x ≡ moved dst src n mem x
unfolding memmove
memmove-moved dst src n mem x = elim (Bool-cases (ltb dst src)) [
  | inl below ↦ rw below (copy_up-moved dst src n mem x (ground arith))
  | inr above ↦ rw above (copy_down-moved dst src n mem x (ground arith))
]
