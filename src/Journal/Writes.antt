-- ===== src/Journal/Writes.antt =====
-- The disk writes of `commit` of kernel/fs/vimixfs/log.c, in their order.
use vimix_os.Base.{
  ℕ, ◌+◌, ◌≤◌, ◌<◌, ◌≡◌, refl, sym, ap, ◌∙◌, inl, Bool, true, false, List, [], ◌∷◌, ◌++◌,
  append_assoc, append-nil, arith, length, All,
}
use vimix_os.BlockStore.{
  Block, Disk, Write, Store, boot, update, put_block, unpin, update_ne, update_self,
}
use vimix_os.Journal.{
  write_head, read_head, write_log, install_trans, commit, encode_head, decode_head,
  recover_from_log,
}
use vimix_os.Journal.Replay.{IsHome, IsHome-IsOther, Holds, Holds-update}

-- the writes that install `blocks`
unfoldable pub installs : Disk → List ℕ → List Write
installs new [] = []
installs new (b ∷ blocks) = (b, new b) ∷ installs new blocks

regroup :
    (ws : List Write) (b : ℕ) {x y : Block} (vs : List Write)
    → x ≡ y
    → (ws ++ ((b, x) ∷ [])) ++ vs ≡ ws ++ ((b, y) ∷ vs)
regroup ws b {x} vs e = append_assoc ws ((b, x) ∷ []) vs ∙ ap (λ z. ws ++ ((b, z) ∷ vs)) e

module _ (start n : ℕ) where
  -- the writes that fill the log from entry `tail` on
  unfoldable pub entries : Disk → List ℕ → ℕ → List Write
  entries new [] tail = []
  entries new (b ∷ blocks) tail = (start + tail + 1, new b) ∷ entries new blocks (tail + 1)

  -- `write_log` writes the buffered contents of the blocks to the entries, and afterwards the
  -- entries are what the cache holds; buffers outside the log are untouched.
  pub record Logs (new : Disk) (blocks : List ℕ) (tail : ℕ) (s t : Store) : Type 0 where
    pub written : t.writes ≡ s.writes ++ entries new blocks tail
    pub held : Holds start n t.view new blocks tail
    pub kept : (c : ℕ) → IsHome start n c → t.view c ≡ s.view c
    pub earlier : (i : ℕ) → i < tail → t.view (start + i + 1) ≡ s.view (start + i + 1)

  pub write_log-Logs :
      (new : Disk) (blocks : List ℕ) (tail : ℕ) (s : Store)
      → All (IsHome start n) blocks
      → tail + length blocks ≤ n
      → ((c : ℕ) → IsHome start n c → s.view c ≡ new c)
      → Logs new blocks tail s (write_log start blocks tail s)
  unfolding write_log entries
  write_log-Logs new [] tail s homes fit same = record {
    written = sym (append-nil s.writes);
    held = tt;
    kept = λ c h. refl;
    earlier = λ i h. refl;
  }
  write_log-Logs new (b ∷ blocks) tail s homes fit same =
      let s' : Store = put_block (start + tail + 1) (s.view b) s in
      let ih =
        write_log-Logs new blocks (tail + 1) s' homes.1 (omega arith)
          (λ c h. other c h ∙ same c h) in
      record {
        written =
            ih.written
            ∙ append_assoc s.writes ((start + tail + 1, s.view b) ∷ [])
                (entries new blocks (tail + 1))
            ∙ ap (λ x. s.writes ++ ((start + tail + 1, x) ∷ entries new blocks (tail + 1)))
                (same b homes.0);
        held = (
          ih.earlier tail (omega arith)
              ∙ update_self s.view (start + tail + 1) (s.view b)
              ∙ same b homes.0,
          ih.held,
        );
        kept = λ c h. ih.kept c h ∙ other c h;
        earlier = λ i h.
            ih.earlier i (omega arith)
            ∙ update_ne s.view (start + tail + 1) (s.view b) (start + i + 1) (omega arith);
      }
    where
      other : (c : ℕ) → IsHome start n c → update s.view (start + tail + 1) (s.view b) c ≡ s.view c
      other c h = update_ne s.view (start + tail + 1) (s.view b) c (omega arith)

  -- `install_trans` writes the entries to the blocks' homes.
  pub install_trans-writes :
      (recovering : Bool) (new : Disk) (blocks : List ℕ) (tail : ℕ) (s : Store)
      → All (IsHome start n) blocks
      → tail + length blocks ≤ n
      → Holds start n s.view new blocks tail
      → (install_trans start recovering blocks tail s).writes ≡ s.writes ++ installs new blocks
  unfolding install_trans installs
  install_trans-writes recovering new [] tail s homes fit h = sym (append-nil s.writes)
  install_trans-writes true new (b ∷ blocks) tail s homes fit h =
      install_trans-writes true new blocks (tail + 1) (put_block b (s.view (start + tail + 1)) s)
        homes.1 (omega arith)
        (Holds-update start n s.view new blocks (tail + 1) b _ (IsHome-IsOther start n b homes.0)
          (omega arith) h.1)
      ∙ regroup s.writes b (installs new blocks) h.0
  install_trans-writes false new (b ∷ blocks) tail s homes fit h =
      install_trans-writes false new blocks (tail + 1)
        (unpin b (put_block b (s.view (start + tail + 1)) s)) homes.1 (omega arith)
        (Holds-update start n s.view new blocks (tail + 1) b _ (IsHome-IsOther start n b homes.0)
          (omega arith) h.1)
      ∙ regroup s.writes b (installs new blocks) h.0

  -- All writes of a commit: the entries, the header, the homes, the empty header.
  unfoldable pub commit_writes : Disk → List ℕ → List Write
  unfolding entries installs
  commit_writes new blocks =
      entries new blocks 0
      ++ ((start, encode_head blocks) ∷ (installs new blocks ++ ((start, encode_head []) ∷ [])))

  pub commit-writes :
      (b : ℕ) (blocks : List ℕ) (s : Store)
      → All (IsHome start n) (b ∷ blocks)
      → length (b ∷ blocks) ≤ n
      → (commit start (b ∷ blocks) s).writes ≡ s.writes ++ commit_writes s.view (b ∷ blocks)
  unfolding commit write_head commit_writes
  commit-writes b blocks s homes fit =
      ap (λ w. w ++ ((start, encode_head []) ∷ []))
        (install_trans-writes false s.view (b ∷ blocks) 0 headed homes (omega arith) (
          Holds-update start n logged.view s.view (b ∷ blocks) 0 start (encode_head (b ∷ blocks))
            (inl (omega arith)) (omega arith) log.held))
      ∙ ap
          (λ w.
            ((w ++ ((start, encode_head (b ∷ blocks)) ∷ [])) ++ installs s.view (b ∷ blocks))
            ++ ((start, encode_head []) ∷ []))
          log.written
      ∙ simp append_assoc
    where
      logged : Store
      logged = write_log start (b ∷ blocks) 0 s

      headed : Store
      headed = put_block start (encode_head (b ∷ blocks)) logged

      log : Logs s.view (b ∷ blocks) 0 s logged
      log = write_log-Logs s.view (b ∷ blocks) 0 s homes (omega arith) (λ c h. refl)

  -- The writes of a recovery: the homes, then the empty header.
  pub recover-writes :
      (new : Disk) (blocks : List ℕ) (d : Disk)
      → All (IsHome start n) blocks
      → length blocks ≤ n
      → decode_head (d start) ≡ blocks
      → Holds start n d new blocks 0
      → (recover_from_log start (boot d)).writes
        ≡ installs new blocks ++ ((start, encode_head []) ∷ [])
  unfolding recover_from_log write_head read_head
  recover-writes new blocks d homes fit head held =
      ap (λ l. (install_trans start true l 0 (boot d)).writes ++ ((start, encode_head []) ∷ []))
        head
      ∙ ap (λ w. w ++ ((start, encode_head []) ∷ []))
          (install_trans-writes true new blocks 0 (boot d) homes (omega arith) held)
