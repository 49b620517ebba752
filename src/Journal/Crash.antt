-- ===== src/Journal/Crash.antt =====
-- Crash safety of `commit` of kernel/fs/vimixfs/log.c. The driver writes one block after the other,
-- so a power failure leaves the disk after some prefix of the writes of `commit`.
use vimix_os.Base.{
  ℕ, ◌+◌, ◌≤◌, ◌<◌, ◌≡◌, ◌≢◌, refl, sym, ap, ◌∙◌, ◌⊎◌, inl, inr, true, List, [], ◌∷◌, ◌++◌,
  append-nil, arith, length, subst, All, All-map,
}
use vimix_os.BlockStore.{
  Disk, Write, Store, update, boot, apply, apply-append, update_ne, update_self,
}
use vimix_os.Journal.{block_words, commit, recover_from_log, encode_head, decode_head}
use vimix_os.Journal.Header.{decode_head-encode_head}
use vimix_os.Journal.Replay.{
  IsHome, Holds, Holds-update, IsHome-IsOther, contains, overlay, recover-overlay,
}
use vimix_os.Journal.Prefix.{
  split_prefix, apply_other, All-prefix, overlay-apply, apply-installs, installs-All, contains-All,
  entries-All, Holds-apply, Holds-entries, overlay_same,
}
use vimix_os.Journal.Writes.{entries, installs, commit_writes, commit-writes, recover-writes}

-- the write that clears the log
abbrev clear : ℕ → Write
clear start = (start, encode_head [])

-- A log of `n` entries behind its header at `start`.
module _ (start n : ℕ) where
  -- After a mount of the disk `d` the home blocks hold `target`.
  abbrev pub MountsTo : Disk → Disk → Type 0
  MountsTo d target =
      (c : ℕ) → IsHome start n c → (recover_from_log start (boot d)).disk c ≡ target c

  apart : (c : ℕ) → IsHome start n c → c ≢ start
  apart c h = ground arith

  -- With an empty header a mount changes no home block.
  empty_log : (d : Disk) → decode_head (d start) ≡ [] → MountsTo d d
  unfolding overlay contains
  empty_log d head c out = recover-overlay start n d [] d c tt (omega arith) out head tt

  cleared : (d : Disk) → MountsTo (update d start (encode_head [])) d
  cleared d c out =
      empty_log (update d start (encode_head []))
        (ap decode_head (update_self d start (encode_head []))
          ∙ decode_head-encode_head [] (omega arith))
        c out
      ∙ update_ne d start (encode_head []) c (λ e. apart c out (sym e))

  module _ (new : Disk) (blocks : List ℕ) (homes : All (IsHome start n) blocks)
      (fit : length blocks ≤ n) (small : length blocks < block_words) where
    installs_new :
        All
          (λ w. (IsHome start n w.0) × (w.1 ≡ new w.0) × (contains w.0 blocks ≡ true))
          (installs new blocks)
    installs_new =
        installs-All _ new blocks (λ b h. (contains-All (IsHome start n) blocks b homes h, refl, h))

    -- A committed log, some of whose blocks `ws` have been installed.
    partly_installed :
        (d : Disk) (ws : List Write)
        → decode_head (d start) ≡ blocks
        → Holds start n d new blocks 0
        → All (λ w. (IsHome start n w.0) × (w.1 ≡ new w.0) × (contains w.0 blocks ≡ true)) ws
        → MountsTo (apply ws d) (overlay blocks new d)
    partly_installed d ws head held h c out =
        recover-overlay start n new blocks (apply ws d) c homes fit out
          (ap decode_head (apply_other start ws d (All-map ws (λ w p. apart w.0 p.0) h)) ∙ head)
          (Holds-apply start n new blocks ws d fit
            (All-map ws (λ w p. IsHome-IsOther start n w.0 p.0) h) held)
        ∙ overlay-apply new blocks ws d c (All-map ws (λ w p. (p.1, p.2)) h)

    -- The writes of a recovery, or those of `commit` after its header: a mount after any prefix of
    -- them gives the home blocks their new contents.
    resumes :
        (d : Disk) (done rest : List Write)
        → decode_head (d start) ≡ blocks
        → Holds start n d new blocks 0
        → done ++ rest ≡ installs new blocks ++ (clear start ∷ [])
        → MountsTo (apply done d) (overlay blocks new d)
    resumes d done rest head held e =
        finish (split_prefix done rest (installs new blocks) (clear start ∷ []) e)
      where
        all_installed : MountsTo (apply (installs new blocks) d) (overlay blocks new d)
        all_installed = partly_installed d (installs new blocks) head held installs_new

        after :
            (ws : List Write)
            → ws ++ rest ≡ clear start ∷ []
            → MountsTo (apply ws (apply (installs new blocks) d)) (overlay blocks new d)
        after [] q = all_installed
        after (w ∷ []) q =
            let e : w ≡ clear start = cc in
            rw e (λ c out.
              cleared (apply (installs new blocks) d) c out ∙ apply-installs new blocks d c)
        after (w ∷ v ∷ ws) q = cc

        finish :
            ((r : List Write) × (done ++ r ≡ installs new blocks))
              ⊎ ((ws : List Write) × (done ≡ installs new blocks ++ ws)
                  × (ws ++ rest ≡ clear start ∷ []))
            → MountsTo (apply done d) (overlay blocks new d)
        finish (inl (r, p)) =
            partly_installed d done head held
              (All-prefix _ done r (subst (All _) (sym p) installs_new))
        finish (inr (ws, p, q)) = rw (p, apply-append) (after ws q)

    -- The header on disk lists blocks outside of the log, no more than fit in the log and in a header, and
    -- the entries hold their new contents. A power failure after any prefix of the writes of a recovery is
    -- then harmless: the next mount finds every logged block at its new contents and the others outside
    -- of the log as they were.
    pub recover-Restarts :
        (d : Disk) (done rest : List Write)
        → decode_head (d start) ≡ blocks
        → Holds start n d new blocks 0
        → done ++ rest ≡ (recover_from_log start (boot d)).writes
        → MountsTo (apply done d) (overlay blocks new d)
    recover-Restarts d done rest head held e =
        resumes d done rest head held
          (e ∙ recover-writes start n new blocks d homes (omega arith) head held)

  module _ (b : ℕ) (blocks : List ℕ) (s : Store) (homes : All (IsHome start n) (b ∷ blocks))
      (fit : length (b ∷ blocks) ≤ n) (small : length (b ∷ blocks) < block_words)
      (empty : decode_head (s.disk start) ≡ []) where
    -- the new contents: what the buffers of the logged blocks held
    abbrev committed : Disk
    committed = overlay (b ∷ blocks) s.view s.disk

    entry_writes :
        All (λ w. (start < w.0) × (w.0 ≤ start + n)) (entries start n s.view (b ∷ blocks) 0)
    entry_writes =
        entries-All start n _ s.view (b ∷ blocks) 0 (omega arith) (λ a x h k. (omega arith, k))

    -- Before the header is written a mount finds the old state.
    before_header :
        (ws : List Write)
        → All (λ w. (start < w.0) × (w.0 ≤ start + n)) ws
        → MountsTo (apply ws s.disk) s.disk
    before_header ws h c out =
        empty_log (apply ws s.disk)
          (ap decode_head (apply_other start ws s.disk (All-map ws (λ w p e. omega arith) h))
            ∙ empty)
          c out
        ∙ apply_other c ws s.disk (All-map ws (λ w p e. omega arith) h)

    -- Once the header is written a mount finds the new state.
    after_header :
        (ws rest : List Write)
        → ws ++ rest ≡ installs s.view (b ∷ blocks) ++ (clear start ∷ [])
        → MountsTo
            (apply ws (
              update
                (apply (entries start n s.view (b ∷ blocks) 0) s.disk)
                start
                (encode_head (b ∷ blocks))))
            committed
    after_header ws rest e c out =
        resumes s.view (b ∷ blocks) homes fit small headed ws rest
          (ap decode_head (update_self logged start (encode_head (b ∷ blocks)))
            ∙ decode_head-encode_head (b ∷ blocks) small)
          (Holds-update start n logged s.view (b ∷ blocks) 0 start (encode_head (b ∷ blocks))
            (inl (omega arith)) (omega arith)
            (Holds-entries start n s.view (b ∷ blocks) 0 s.disk (omega arith)))
          e c out
        ∙ overlay_same (b ∷ blocks) s.view headed s.disk c (
            update_ne logged start (encode_head (b ∷ blocks)) c (λ p. apart c out (sym p))
            ∙ apply_other c (entries start n s.view (b ∷ blocks) 0) s.disk (
                All-map (entries start n s.view (b ∷ blocks) 0) (λ w p q. omega arith)
                  entry_writes))
      where
        logged : Disk
        logged = apply (entries start n s.view (b ∷ blocks) 0) s.disk

        headed : Disk
        headed = update logged start (encode_head (b ∷ blocks))

    -- A power failure after any of the writes of `commit` loses nothing and tears nothing: the next
    -- mount finds every home block as before the transaction, or every logged block at its new
    -- contents and the others as before.
    pub commit-Atomic :
        (done rest : List Write)
        → s.writes ≡ []
        → done ++ rest ≡ (commit start (b ∷ blocks) s).writes
        → MountsTo (apply done s.disk) s.disk ⊎ MountsTo (apply done s.disk) committed
    unfolding commit_writes
    commit-Atomic done rest none_yet e =
        elim (split_prefix done rest (entries start n s.view (b ∷ blocks) 0) _ writes) [
          | inl (r, p) ↦
              inl (before_header done (All-prefix _ done r (subst (All _) (sym p) entry_writes)))
          | inr (ws, p, q) ↦ later ws p q
        ]
      where
        writes : done ++ rest ≡ commit_writes start n s.view (b ∷ blocks)
        writes =
            e
            ∙ commit-writes start n b blocks s homes fit
            ∙ ap (λ w. w ++ commit_writes start n s.view (b ∷ blocks)) none_yet

        later :
            (ws : List Write)
            → done ≡ entries start n s.view (b ∷ blocks) 0 ++ ws
            → ws ++ rest
              ≡ (start, encode_head (b ∷ blocks))
                ∷ (installs s.view (b ∷ blocks) ++ (clear start ∷ []))
            → MountsTo (apply done s.disk) s.disk ⊎ MountsTo (apply done s.disk) committed
        later [] p q = inl (
            before_header done (
              subst (All (λ w. (start < w.0) × (w.0 ≤ start + n)))
                (sym (p ∙ append-nil (entries start n s.view (b ∷ blocks) 0))) entry_writes))
        later (w ∷ ws) p q =
            let first : w ≡ (start, encode_head (b ∷ blocks)) = cc in
            rw (p, apply-append, first) (inr (after_header ws rest (cc)))
