-- ===== src/Pipe/Ring.antt =====
-- The circular buffer of kernel/ipc/pipe.c as the list of the bytes between the two counters,
-- which count bytes modulo 2 ^ 64.
use vimix_os.Base.{
  ℕ, zero, suc, ◌+◌, ◌-◌, ◌%◌, ◌^◌, ◌≤◌, ◌<◌, ◌≡◌, refl, sym, ap, ◌∙◌, ◌≢◌, ◌↔◌, true, false, List,
  [], ◌∷◌, ◌++◌, arith, length, get_or, set, length-set, get_or-set_self, get_or-set_ne,
}
use mathlib.Core.Path.{ap₂}
use vimix_os.Pipe.{
  Pipe, Channel, wakeup, pipe_size, add_size, is_empty, is_full, put_byte, head_byte, drop_byte,
}

-- the `n` bytes from counter `r` on
abbrev pub window : List ℕ → ℕ → ℕ → List ℕ
window buf r zero = []
window buf r (suc n) = get_or buf (r % pipe_size) 0 ∷ window buf (add_size r 1) n

-- the number of bytes in the pipe
abbrev pub used : Pipe → ℕ
used p = (p.nwrite + 2 ^ 64 - p.nread) % 2 ^ 64

abbrev pub contents : Pipe → List ℕ
contents p = window p.buf p.nread (used p)

pub record IsValid (p : Pipe) : Type 0 where
  pub storage : length p.buf ≡ pipe_size
  pub nread_word : p.nread < 2 ^ 64
  pub nwrite_word : p.nwrite < 2 ^ 64
  pub bounded : used p ≤ pipe_size

-- `wakeup` does not touch the bytes.
pub wakeup-IsValid : {p : Pipe} (c : Channel) → IsValid p → IsValid (wakeup c p)
wakeup-IsValid c v = record {
  storage = v.storage;
  nread_word = v.nread_word;
  nwrite_word = v.nwrite_word;
  bounded = v.bounded;
}

-- Writing just past a window extends it by that byte.
window-set :
    (buf : List ℕ) (x n r i : ℕ)
    → length buf ≡ pipe_size
    → r < 2 ^ 64
    → n < pipe_size
    → i ≡ add_size r n % pipe_size
    → window (set buf i x) r (suc n) ≡ window buf r n ++ (x ∷ [])
window-set buf x zero r i hs hr hn e =
    let e' : i ≡ r % pipe_size = omega arith in ap (λ b. b ∷ []) (subst_index e')
  where
    subst_index : i ≡ r % pipe_size → get_or (set buf i x) (r % pipe_size) 0 ≡ x
    subst_index q = rw (q, get_or-set_self buf (r % pipe_size) x 0 (omega arith))
window-set buf x (suc n) r i hs hr hn e =
    ap₂ ◌∷◌ (get_or-set_ne buf i (r % pipe_size) x 0 (omega arith))
      (window-set buf x n (add_size r 1) i hs (omega arith) (omega arith) (omega arith))

-- `window` matches on `suc`, the code tests the counters.
window_of_ne_zero :
    (buf : List ℕ) (r n : ℕ)
    → n ≢ 0
    → window buf r n ≡ get_or buf (r % pipe_size) 0 ∷ window buf (add_size r 1) (n - 1)
window_of_ne_zero buf r zero h = absurd (h refl)
window_of_ne_zero buf r (suc n) h = ap (λ k. window buf r (suc k)) (omega arith)

pub length-contents : (p : Pipe) → length (contents p) ≡ used p
length-contents p = go p.nread (used p)
  where
    go : (r n : ℕ) → length (window p.buf r n) ≡ n
    go r zero = refl
    go r (suc n) = ap suc (go (add_size r 1) n)

-- The full test of the code is that of a queue of `pipe_size` bytes.
pub is_full_iff : {p : Pipe} → IsValid p → (is_full p ≡ true) ↔ (used p ≡ pipe_size)
is_full_iff v = (λ h. ground arith, λ h. ground arith)

pub is_empty_iff : {p : Pipe} → IsValid p → (is_empty p ≡ true) ↔ (used p ≡ 0)
is_empty_iff v = (λ h. ground arith, λ h. ground arith)

module _ {p : Pipe} (v : IsValid p) where
  pub used-put_byte : (ch : ℕ) → is_full p ≡ false → used (put_byte p ch) ≡ suc (used p)
  used-put_byte ch h = ground arith

  pub put_byte-IsValid : (ch : ℕ) → is_full p ≡ false → IsValid (put_byte p ch)
  put_byte-IsValid ch h = record {
    storage = length-set p.buf (p.nwrite % pipe_size) ch ∙ v.storage;
    nread_word = v.nread_word;
    nwrite_word = omega arith;
    bounded = ground arith;
  }

  pub contents-put_byte :
      (ch : ℕ) → is_full p ≡ false → contents (put_byte p ch) ≡ contents p ++ (ch ∷ [])
  contents-put_byte ch h =
      ap (λ k. window (put_byte p ch).buf p.nread k) (used-put_byte ch h)
      ∙ window-set p.buf ch (used p) p.nread (p.nwrite % pipe_size) v.storage v.nread_word
          (ground arith) (ground arith)

  pub used-drop_byte : is_empty p ≡ false → used (drop_byte p) ≡ used p - 1
  used-drop_byte h = ground arith

  pub drop_byte-IsValid : is_empty p ≡ false → IsValid (drop_byte p)
  drop_byte-IsValid h = record {
    storage = v.storage;
    nread_word = omega arith;
    nwrite_word = v.nwrite_word;
    bounded = omega (arith, used-drop_byte h);
  }

  pub contents-drop_byte : is_empty p ≡ false → contents p ≡ head_byte p ∷ contents (drop_byte p)
  contents-drop_byte h =
      window_of_ne_zero p.buf p.nread (used p) (ground arith)
      ∙ ap (λ k. head_byte p ∷ window p.buf (add_size p.nread 1) k) (sym (used-drop_byte h))
