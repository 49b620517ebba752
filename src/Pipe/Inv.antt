-- ===== src/Pipe/Inv.antt =====
-- What one segment of `pipe_write` and one of `pipe_read` of kernel/ipc/pipe.c do to the bytes in
-- the pipe.
use vimix_os.Base.{
  ℕ, zero, suc, ◌+◌, ◌≤◌, ◌<◌, ◌≡◌, refl, sym, ap, subst, ◌∙◌, ◌⊎◌, inl, inr, Bool, true, false,
  not, ◌||◌, Option, none, some, List, [], ◌∷◌, ◌++◌, append-nil, append_assoc, arith, length, min,
  Bool-cases, Option-cases,
}
use vimix_os.Pipe.{
  Pipe, on_nread, wakeup, pipe_size, is_empty, is_full, put_byte, head_byte, drop_byte, Wrote,
  write_from, read_from, fresh,
}
use vimix_os.Pipe.Ring.{
  used, contents, IsValid, wakeup-IsValid, is_full_iff, is_empty_iff, put_byte-IsValid,
  contents-put_byte, drop_byte-IsValid, contents-drop_byte, used-put_byte, used-drop_byte,
}

-- A pipe that `pipe_alloc` sets up is empty and open at both ends.
pub fresh-IsValid : IsValid fresh × (contents fresh ≡ [])
fresh-IsValid = (omega arith, refl)

-- the pipe that a segment leaves
abbrev pub left_by : Wrote → Pipe
left_by (Wrote.returned i p) = p
left_by (Wrote.failed p) = p
left_by (Wrote.asleep i p) = p

-- the `k` bytes of user memory from offset `i` on
abbrev pub source : (ℕ → Option ℕ) → ℕ → ℕ → List ℕ
source copy_in i zero = []
source copy_in i (suc k) = elim (copy_in i) [ none ↦ [] | some ch ↦ ch ∷ source copy_in (i + 1) k ]

module _ (killed : ℕ → Bool) (copy_in : ℕ → Option ℕ) where
  -- How a segment that was to write `left` bytes from offset `i` ends, having written `k`.
  abbrev pub Ends : ℕ → ℕ → ℕ → Wrote → Type 0
  Ends left i k (Wrote.returned j p) = (j ≡ i + k) × ((k ≡ left) ⊎ (copy_in j ≡ none))
  Ends left i k (Wrote.failed p) = (k < left) × ((p.read_open ≡ false) ⊎ (killed (i + k) ≡ true))
  Ends left i k (Wrote.asleep j p) = (j ≡ i + k) × (k < left) × (used p ≡ pipe_size)

  -- What a segment of `pipe_write` has done.
  pub record Appends (left i : ℕ) (p : Pipe) (o : Wrote) : Type 0 where
    pub count : ℕ
    pub count_le : count ≤ left
    pub valid : IsValid (left_by o)
    pub grows : used (left_by o) ≡ used p + count
    pub bytes : contents (left_by o) ≡ contents p ++ source copy_in i count
    pub ends : Ends left i count o

  -- A segment that stops before it writes anything.
  stops :
      (left i : ℕ) (p : Pipe) (o : Wrote)
      → IsValid (left_by o)
      → used (left_by o) ≡ used p
      → contents (left_by o) ≡ contents p
      → Ends left i 0 o
      → Appends left i p o
  stops left i p o v kept same e = record {
    count = 0;
    grows = omega arith;
    count_le = omega arith;
    valid = v;
    bytes = same ∙ sym (append-nil (contents p));
    ends = e;
  }

  Ends-suc : (left i k : ℕ) (o : Wrote) → Ends left (i + 1) k o → Ends (suc left) i (suc k) o
  Ends-suc left i k (Wrote.returned j p) e = ground arith
  Ends-suc left i k (Wrote.failed p) e =
      (omega arith, subst (λ j. (p.read_open ≡ false) ⊎ (killed j ≡ true)) (omega arith) e.1)
  Ends-suc left i k (Wrote.asleep j p) e = omega arith

  -- A segment whose first byte `ch` is written.
  extends :
      (left i ch : ℕ) (p : Pipe) (o : Wrote)
      → copy_in i ≡ some ch
      → used (put_byte p ch) ≡ suc (used p)
      → contents (put_byte p ch) ≡ contents p ++ (ch ∷ [])
      → Appends left (i + 1) (put_byte p ch) o
      → Appends (suc left) i p o
  extends left i ch p o e more grown a = record {
    grows = omega (arith, a.grows);
    count = suc a.count;
    count_le = omega (arith, a.count_le);
    valid = a.valid;
    bytes =
        rw (e, source)
          (a.bytes
            ∙ ap (λ l. l ++ source copy_in (i + 1) a.count) grown
            ∙ append_assoc (contents p) (ch ∷ []) (source copy_in (i + 1) a.count));
    ends = Ends-suc left i a.count o a.ends;
  }

  -- A segment of `pipe_write` appends a prefix of the user's bytes, in order, and keeps the
  -- invariant: all of them or up to the first unreadable one if it returns, up to a full pipe if
  -- it sleeps, up to a closed read end or a kill if it fails.
  pub write_from-Appends :
      (left i : ℕ) (p : Pipe) → IsValid p → Appends left i p (write_from killed copy_in left i p)
  unfolding write_from
  write_from-Appends zero i p v =
      stops zero i p (Wrote.returned i (wakeup on_nread p)) (wakeup-IsValid on_nread v) refl refl
        (omega arith, inl refl)
  write_from-Appends (suc left) i p v = elim (Bool-cases (not p.read_open || killed i)) [
    | inl dead ↦
        rw dead (stops (suc left) i p (Wrote.failed p) v refl refl (omega arith, reason dead))
    | inr live ↦ elim (Bool-cases (is_full p)) [
      | inl full ↦
          rw (live, full)
            (stops (suc left) i p (Wrote.asleep i (wakeup on_nread p)) (wakeup-IsValid on_nread v)
              refl refl (omega arith, omega arith, (is_full_iff v).0 full))
      | inr room ↦ elim (Option-cases (copy_in i)) [
        | inl fault ↦
            rw (live, room, fault)
              (stops (suc left) i p (Wrote.returned i (wakeup on_nread p))
                (wakeup-IsValid on_nread v) refl refl (omega arith, inr fault))
        | inr (ch, e) ↦
            rw (live, room, e)
              (extends left i ch p _ e (used-put_byte v ch room) (contents-put_byte v ch room)
                (write_from-Appends left (i + 1) (put_byte p ch) (put_byte-IsValid v ch room)))
      ]
    ]
  ]
    where
      reason :
          (not p.read_open || killed i) ≡ true → (p.read_open ≡ false) ⊎ (killed (i + 0) ≡ true)
      reason h = let same : i ≡ i + 0 = omega arith in rw (← same) (ground arith)

module _ (copy_out : ℕ → Bool) where
  -- The copy loop takes a prefix of the bytes; only the byte whose store failed is lost.
  pub record Takes (left i : ℕ) (p : Pipe) (o : List ℕ × Pipe) : Type 0 where
    pub valid : IsValid o.1
    pub lost : List ℕ
    pub lost_le : length lost ≤ 1
    pub stored : contents p ≡ o.0 ++ (lost ++ contents o.1)
    pub ends :
        ((lost ≡ []) × (length o.0 ≡ min left (used p))) ⊎ (copy_out (i + length o.0) ≡ false)

  pub read_from-Takes :
      (left i : ℕ) (p : Pipe) → IsValid p → Takes left i p (read_from copy_out left i p)
  unfolding read_from
  read_from-Takes zero i p v = record {
    valid = v;
    lost = [];
    lost_le = omega arith;
    stored = refl;
    ends = inl (refl, omega arith);
  }
  read_from-Takes (suc left) i p v = elim (Bool-cases (is_empty p)) [
    | inl empty ↦ rw empty (record {
      valid = v;
      lost = [];
      lost_le = omega arith;
      stored = refl;
      ends = inl (refl, omega (arith, (is_empty_iff v).0 empty));
    })
    | inr some_left ↦ elim (Bool-cases (copy_out i)) [
      | inl ok ↦
          rw (some_left, ok)
            (step ok some_left
              (read_from-Takes left (i + 1) (drop_byte p) (drop_byte-IsValid v some_left)))
      | inr bad ↦
          rw (some_left, bad)
            (record {
              valid = drop_byte-IsValid v some_left;
              lost = head_byte p ∷ [];
              lost_le = omega arith;
              stored = contents-drop_byte v some_left;
              ends = inr (subst (λ j. copy_out j ≡ false) (omega arith) bad);
            })
    ]
  ]
    where
      step :
          copy_out i ≡ true
          → is_empty p ≡ false
          → {o : List ℕ × Pipe} → Takes left (i + 1) (drop_byte p) o
          → Takes (suc left) i p (head_byte p ∷ o.0, o.1)
      step ok e t = record {
        valid = t.valid;
        lost = t.lost;
        lost_le = t.lost_le;
        stored = contents-drop_byte v e ∙ ap (λ l. head_byte p ∷ l) t.stored;
        ends = elim t.ends [
          | inl (none_lost, n) ↦
              inl (none_lost, omega (arith, used-drop_byte v e, (is_empty_iff v).1))
          | inr b ↦ inr (subst (λ j. copy_out j ≡ false) (omega arith) b)
        ];
      }
