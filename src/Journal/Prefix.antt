-- ===== src/Journal/Prefix.antt =====
-- Prefixes of the writes of kernel/fs/vimixfs/log.c, and what they do to a disk.
use vimix_os.Base.{
  ℕ, ◌+◌, ◌≤◌, ◌<◌, ◌≡◌, ◌≢◌, refl, sym, ap, ◌∙◌, ◌⊎◌, inl, inr, true, false, List, [], ◌∷◌, ◌++◌,
  arith, length, subst, ==_iff, ◌==◌, if◌then◌else◌, All, Bool-cases,
}
use vimix_os.BlockStore.{Block, Disk, Write, update, apply, update_ne, update_self}
use vimix_os.Journal.Replay.{Holds, Holds-update, IsOther, contains, overlay, overlay-update}
use vimix_os.Journal.Writes.{entries, installs}

-- A prefix of a concatenation ends in its first part, or takes it whole.
pub split_prefix :
    {A : Type 0} (done rest xs ys : List A)
    → done ++ rest ≡ xs ++ ys
    → ((r : List A) × (done ++ r ≡ xs)) ⊎ ((d : List A) × (done ≡ xs ++ d) × (d ++ rest ≡ ys))
split_prefix [] rest xs ys e = inl (xs, refl)
split_prefix (x ∷ done) rest [] ys e = inr (x ∷ done, refl, e)
split_prefix (x ∷ done) rest (y ∷ xs) ys e = elim (split_prefix done rest xs ys (cc)) [
  | inl (r, p) ↦ inl (r, cc)
  | inr (d, p, q) ↦ inr (d, cc, q)
]

-- Writes outside a block leave it.
pub apply_other : (c : ℕ) (ws : List Write) (d : Disk) → All (λ w. w.0 ≢ c) ws → apply ws d c ≡ d c
apply_other c [] d h = refl
apply_other c ((b, x) ∷ ws) d h = apply_other c ws (update d b x) h.1 ∙ update_ne d b x c h.0

pub All-prefix : (P : Write → Type 0) (ws vs : List Write) → All P (ws ++ vs) → All P ws
All-prefix P [] vs h = tt
All-prefix P (w ∷ ws) vs h = (h.0, All-prefix P ws vs h.1)

-- Writes of new contents to logged blocks are made again by the overlay.
pub overlay-apply :
    (new : Disk) (blocks : List ℕ) (ws : List Write) (d : Disk) (c : ℕ)
    → All (λ w. (w.1 ≡ new w.0) × (contains w.0 blocks ≡ true)) ws
    → overlay blocks new (apply ws d) c ≡ overlay blocks new d c
unfolding overlay contains
overlay-apply new blocks [] d c h = refl
overlay-apply new blocks ((b, x) ∷ ws) d c h =
    overlay-apply new blocks ws (update d b x) c h.1 ∙ step
  where
    clash : contains b blocks ≡ false → ⊥
    clash e = cc

    step : overlay blocks new (update d b x) c ≡ overlay blocks new d c
    step = elim (Bool-cases (contains c blocks)) [
      | inl old ↦ rw old
      | inr other ↦
          rw other (update_ne d b x c (λ e. clash (ap (λ k. contains k blocks) e ∙ other)))
    ]

pub apply-installs :
    (new : Disk) (blocks : List ℕ) (d : Disk) (c : ℕ)
    → apply (installs new blocks) d c ≡ overlay blocks new d c
unfolding installs overlay contains
apply-installs new [] d c = refl
apply-installs new (b ∷ blocks) d c =
    apply-installs new blocks (update d b (new b)) c ∙ overlay-update new blocks b (new b) d c refl

pub installs-All :
    (P : Write → Type 0) (new : Disk) (blocks : List ℕ)
    → ((b : ℕ) → contains b blocks ≡ true → P (b, new b))
    → All P (installs new blocks)
unfolding installs contains
installs-All P new [] h = tt
installs-All P new (b ∷ blocks) h =
    (h b (ground arith), installs-All P new blocks (λ c e. h c (ground arith)))

pub contains-All :
    (P : ℕ → Type 0) (blocks : List ℕ) (c : ℕ) → All P blocks → contains c blocks ≡ true → P c
unfolding contains
contains-All P [] c h e = cc
contains-All P (b ∷ blocks) c h e = elim (Bool-cases (c == b)) [
  | inl same ↦ subst P (sym ((==_iff c b).0 same)) h.0
  | inr ne ↦ contains-All P blocks c h.1 (rw ne at e)
]

module _ (start n : ℕ) where
  pub entries-All :
      (P : Write → Type 0) (new : Disk) (blocks : List ℕ) (tail : ℕ)
      → tail + length blocks ≤ n
      → ((a : ℕ) (x : Block) → start + tail < a → a ≤ start + n → P (a, x))
      → All P (entries start n new blocks tail)
  unfolding entries
  entries-All P new [] tail fit h = tt
  entries-All P new (b ∷ blocks) tail fit h = (
    h (start + tail + 1) (new b) (omega arith) (omega arith),
    entries-All P new blocks (tail + 1) (omega arith) (λ a x k. h a x (omega arith)),
  )

  pub Holds-apply :
      (new : Disk) (blocks : List ℕ) (ws : List Write) (d : Disk)
      → length blocks ≤ n
      → All (λ w. IsOther start n w.0) ws
      → Holds start n d new blocks 0
      → Holds start n (apply ws d) new blocks 0
  Holds-apply new blocks [] d fit h held = held
  Holds-apply new blocks ((b, x) ∷ ws) d fit h held =
      Holds-apply new blocks ws (update d b x) fit h.1
        (Holds-update start n d new blocks 0 b x h.0 (omega arith) held)

  -- Once written, the entries hold the new contents.
  pub Holds-entries :
      (new : Disk) (blocks : List ℕ) (tail : ℕ) (d : Disk)
      → tail + length blocks ≤ n
      → Holds start n (apply (entries start n new blocks tail) d) new blocks tail
  unfolding entries
  Holds-entries new [] tail d fit = tt
  Holds-entries new (b ∷ blocks) tail d fit = (
    apply_other (start + tail + 1) (entries start n new blocks (tail + 1)) filled
          (entries-All _ new blocks (tail + 1) (omega arith) (λ a x h k e. omega arith))
        ∙ update_self d (start + tail + 1) (new b),
    Holds-entries new blocks (tail + 1) filled (omega arith),
  )
    where
      filled : Disk
      filled = update d (start + tail + 1) (new b)

pub overlay_same :
    (blocks : List ℕ) (new d e : Disk) (c : ℕ)
    → d c ≡ e c
    → overlay blocks new d c ≡ overlay blocks new e c
unfolding overlay
overlay_same blocks new d e c h = ap (λ x. if contains c blocks then new c else x) h
