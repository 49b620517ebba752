-- ===== src/BlockStore.antt =====
-- What the users of kernel/kernel/bio.c see of the buffer cache and of the disk below it: the
-- contents that the next `bio_read` of a block gives, the disk itself, the disk writes so far and
-- the extra references that `bio_get` and `bio_put` count. A block is its 256 words of 32 bits.
use vimix_os.Base.{
  ℕ, ◌≢◌, refl, arith, ◌+◌, ◌-◌, ◌%◌, ◌^◌, ◌≡◌, ◌++◌, List, [], ◌∷◌, ◌==◌, if◌then◌else◌,
}

abbrev pub Block : Type 0
Block = List ℕ

abbrev pub Disk : Type 0
Disk = ℕ → Block

abbrev pub Write : Type 0
Write = ℕ × Block

abbrev pub update {ℓ} : {A : Type ℓ} → (ℕ → A) → ℕ → A → ℕ → A
update f b x c = if b == c then x else f c

pub record Store : Type 0 where
  -- buffered contents, or the disk's where no buffer is valid
  pub view : Disk
  pub disk : Disk
  -- block writes in the order in which the driver did them
  pub writes : List Write
  -- references that pin a buffer in the cache
  pub pins : ℕ → ℕ

-- `bio_get_from_cache(dst)`, the whole buffer overwritten by `x`, `bio_write`, `bio_release`
abbrev pub put_block : ℕ → Block → Store → Store
put_block dst x s = record s {
  view = update s.view dst x;
  disk = update s.disk dst x;
  writes = s.writes ++ ((dst, x) ∷ []);
}

-- `bio_get` and `bio_put`: `refcnt++` and `refcnt--` of a 32-bit counter
abbrev pub pin : ℕ → Store → Store
pin b s = record s { pins = update s.pins b ((s.pins b + 1) % 2 ^ 32) }

abbrev pub unpin : ℕ → Store → Store
unpin b s = record s { pins = update s.pins b ((s.pins b + 2 ^ 32 - 1) % 2 ^ 32) }

-- the state after a power failure: an empty cache over the disk
abbrev pub boot : Disk → Store
boot d = record { view = d; disk = d; writes = []; pins = λ _. 0 }

-- a disk after a list of writes
abbrev pub apply : List Write → Disk → Disk
apply [] d = d
apply ((b, x) ∷ ws) d = apply ws (update d b x)

pub update_self {ℓ} : {A : Type ℓ} (f : ℕ → A) (b : ℕ) (x : A) → update f b x b ≡ x
update_self f b x = ground arith

pub update_ne {ℓ} : {A : Type ℓ} (f : ℕ → A) (b : ℕ) (x : A) (c : ℕ) → b ≢ c → update f b x c ≡ f c
update_ne f b x c h = ground arith

pub apply-append : (ws vs : List Write) (d : Disk) → apply (ws ++ vs) d ≡ apply vs (apply ws d)
apply-append [] vs d = refl
apply-append ((b, x) ∷ ws) vs d = apply-append ws vs (update d b x)
