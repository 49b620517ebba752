-- ===== src/BufferCache/Read.antt =====
-- kernel/kernel/bio.c: bio_read returns a buffer with what the store holds.
use vimix_os.Base.{ℕ, ◌≡◌, refl, sym, ap, ◌∙◌, Bool, true, false, Option, some, arith}
use vimix_os.BufferCache.Buffers.{Buf, BioCache, Allocation, find_at, update}
use vimix_os.BufferCache.Operations.{bio_read, read_buf, read_found, bio_get_from_cache}
use vimix_os.BufferCache.Lists.{at, total-update, found_address, find-update}
use vimix_os.BufferCache.Search.{key, unused}
use vimix_os.BufferCache.Invariant.{IsValid, one, refs, more}
use vimix_os.BufferCache.Coherence.{Blocks, IsCoherent}

-- the buffer at an address is read from the disk
abbrev pub with_read : Blocks → ℕ → BioCache → BioCache
with_read disk a got = record got { buf_list = update (read_buf disk) a got.buf_list }

read-IsValid :
    (disk : Blocks) (a : ℕ) (c : Buf) (got : BioCache) (held : ℕ → ℕ)
    → IsValid got held
    → find_at a got.buf_list ≡ some c
    → IsValid (with_read disk a got) held
unfolding read_buf
read-IsValid disk a c got held valid e =
    let sum = λ (weight : Buf → ℕ). total-update weight (read_buf disk) a c got.buf_list e in
    record {
      counts = record {
        once = λ x. let s = sum (at x) in let v = valid.counts.once x in omega arith;
        unique = λ dev blockno h.
            let s = sum (key dev blockno) in
            let v = valid.counts.unique dev blockno h in omega arith;
        references = λ x. let s = sum (refs x) in let v = valid.counts.references x in omega arith;
        counted = let s = sum one in let v = valid.counts.counted in omega arith;
        idle = let s = sum unused in let v = valid.counts.idle in omega arith;
      };
      trimmed = valid.trimmed;
    }

-- The buffer that a read returns is the block's and holds what the store does; the cache stays right.
abbrev pub Reads : ℕ → ℕ → (ℕ → ℕ) → Blocks → Blocks → ℕ × BioCache → Type 0
Reads dev blockno held disk store result =
    IsValid result.1 (more result.0 held)
    × (IsCoherent result.1.buf_list disk store
        × ((b : Buf) × ((find_at result.0 result.1.buf_list ≡ some b)
              × ((b.dev ≡ dev)
                  × ((b.blockno ≡ blockno)
                      × ((b.valid ≡ true) × (b.contents ≡ store dev blockno)))))))

module _ (memory : Option Allocation) (is_device : ℕ → Bool) (disk store : Blocks) (dev blockno : ℕ)
    (cache got : BioCache) (held : ℕ → ℕ) (a : ℕ) (c : Buf)
    (e : bio_get_from_cache memory dev blockno cache ≡ some (a, got))
    (found : find_at a got.buf_list ≡ some c) (known : is_device dev ≡ true) where
  pub read-valid : c.valid ≡ true → bio_read memory is_device disk dev blockno cache ≡ some (a, got)
  unfolding bio_read read_found
  read-valid valid = ground arith

  read-invalid :
      c.valid ≡ false
      → bio_read memory is_device disk dev blockno cache ≡ some (a, with_read disk a got)
  unfolding bio_read read_found
  read-invalid invalid = ground arith

  -- A buffer that is read now.
  pub Reads-fresh :
      c.valid ≡ false
      → c.dev ≡ dev
      → c.blockno ≡ blockno
      → IsValid got (more a held)
      → IsCoherent (update (read_buf disk) a got.buf_list) disk store
      → store dev blockno ≡ disk dev blockno
      → (result : ℕ × BioCache) × ((bio_read memory is_device disk dev blockno cache ≡ some result)
          × Reads dev blockno held disk store result)
  unfolding read_buf
  Reads-fresh invalid same_dev same_blockno valid coherent settled = (
    (a, with_read disk a got),
    (
      read-invalid invalid,
      (
        read-IsValid disk a c got (more a held) valid found,
        (
          coherent,
          (
            read_buf disk c,
            (
              find-update (read_buf disk) a c got.buf_list found
                  (found_address a c got.buf_list found),
              (
                same_dev,
                (
                  same_blockno,
                  (
                    refl,
                    ap (λ d. disk d c.blockno) same_dev
                        ∙ (ap (disk dev) same_blockno ∙ sym settled),
                  ),
                ),
              ),
            ),
          ),
        ),
      ),
    ),
  )
