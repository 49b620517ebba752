-- ===== src/Pipe/Stream.antt =====
-- Readers and writers of one pipe, in any order: the segments of kernel/ipc/pipe.c follow one
-- another under the pipe's lock, and the pipe is a FIFO of bytes.
use vimix_os.Base.{
  ℕ, ◌-◌, ◌≡◌, sym, ap, ◌∙◌, Bool, true, false, Option, List, [], ◌++◌, inl, inr, append-nil,
  append_assoc, arith,
}
use vimix_os.Pipe.{Pipe, write_from, read_from, read_segment, Took, close}
use vimix_os.Pipe.{wakeup, on_nwrite}
use vimix_os.Pipe.Ring.{used, contents, IsValid, wakeup-IsValid}
use vimix_os.Pipe.Inv.{left_by, source, write_from-Appends, Takes, read_from-Takes}

-- What one segment adds to the pipe and takes from it. What a write adds are the bytes of user
-- memory from its offset on, as many as the pipe grew by.
pub data Step (p : Pipe) : List ℕ → List ℕ → Pipe → Type 0 where
  -- `i` is the offset where the call had stopped before
  writes :
      (killed : ℕ → Bool) (copy_in : ℕ → Option ℕ) (left i : ℕ) {q : Pipe}
      → q ≡ left_by (write_from killed copy_in left i p)
      → Step p (source copy_in i (used q - used p)) [] q
  reads :
      (killed : Bool) (n : ℕ) {bytes : List ℕ} {q : Pipe}
      → read_segment (λ _. true) killed n p ≡ Took.returned bytes q
      → Step p [] bytes q
  closes : (writing_end : Bool) {q : Pipe} → q ≡ (close writing_end p).0 → Step p [] [] q

-- any number of segments, with all that went in and all that came out
pub data Trace (p : Pipe) : List ℕ → List ℕ → Pipe → Type 0 where
  done : Trace p [] [] p
  next :
      {ins outs ins' outs' : List ℕ} {q r : Pipe}
      → Trace p ins outs q
      → Step q ins' outs' r
      → Trace p (ins ++ ins') (outs ++ outs') r

-- Nothing is lost between two states of a pipe.
pub record Conserves (p : Pipe) (ins outs : List ℕ) (q : Pipe) : Type 0 where
  pub valid : IsValid q
  pub stream : contents p ++ ins ≡ outs ++ contents q

close-Conserves : (w : Bool) {p : Pipe} → IsValid p → Conserves p [] [] (close w p).0
unfolding close
close-Conserves true {p} v = record {
  valid = record {
    storage = v.storage;
    nread_word = v.nread_word;
    nwrite_word = v.nwrite_word;
    bounded = v.bounded;
  };
  stream = append-nil (contents p);
}
close-Conserves false {p} v = record {
  valid = record {
    storage = v.storage;
    nread_word = v.nread_word;
    nwrite_word = v.nwrite_word;
    bounded = v.bounded;
  };
  stream = append-nil (contents p);
}

-- A loop that could store every byte lost none.
stored_all :
    {left i : ℕ} {p : Pipe} {o : List ℕ × Pipe}
    → Takes (λ _. true) left i p o
    → contents p ≡ o.0 ++ contents o.1
stored_all {o = o} t = elim t.ends [
  | inl (none_lost, n) ↦ t.stored ∙ ap (λ l. o.0 ++ (l ++ contents o.1)) none_lost
  | inr bad ↦ cc
]

write-Conserves :
    (killed : ℕ → Bool) (copy_in : ℕ → Option ℕ) (left i : ℕ) {p : Pipe}
    → IsValid p
    → let q = left_by (write_from killed copy_in left i p) in
      Conserves p (source copy_in i (used q - used p)) [] q
write-Conserves killed copy_in left i {p} v =
    let a = write_from-Appends killed copy_in left i p v in
    let e : used (left_by (write_from killed copy_in left i p)) - used p ≡ a.count =
      omega (arith, a.grows) in
    record { valid = a.valid; stream = rw e (sym a.bytes) }

read-Conserves :
    (killed : Bool) (n : ℕ) {p : Pipe} {bytes : List ℕ} {q : Pipe}
    → IsValid p
    → read_segment (λ _. true) killed n p ≡ Took.returned bytes q
    → Conserves p [] bytes q
unfolding read_segment
read-Conserves killed n {p} {bytes} {q} v e =
    let t = read_from-Takes (λ _. true) n 0 p v in
    let (same_bytes, same_pipe) = parts in
    record {
      valid = rw same_pipe (wakeup-IsValid on_nwrite t.valid);
      stream = append-nil (contents p) ∙ rw (same_bytes, same_pipe) (stored_all t);
    }
  where
    parts :
        (bytes ≡ (read_from (λ _. true) n 0 p).0)
        × (q ≡ wakeup on_nwrite (read_from (λ _. true) n 0 p).1)
    parts = ground arith

Step-Conserves :
    {p q : Pipe} {ins outs : List ℕ} → IsValid p → Step p ins outs q → Conserves p ins outs q
Step-Conserves {p} v (writes killed copy_in left i e) =
    rw e (write-Conserves killed copy_in left i v)
Step-Conserves v (reads killed n e) = read-Conserves killed n v e
Step-Conserves v (closes w e) = rw e (close-Conserves w v)

-- A pipe is a FIFO: over any interleaving of write segments, of reads whose target is writable
-- and of closes, what was in the pipe followed by what was written is what was read followed by
-- what is left, and the buffer's invariant holds.
pub Trace-Conserves :
    {p q : Pipe} {ins outs : List ℕ} → IsValid p → Trace p ins outs q → Conserves p ins outs q
Trace-Conserves {p} v done = record { valid = v; stream = append-nil (contents p) }
Trace-Conserves {p} v (next {ins} {outs} {ins'} {outs'} {q} {r} t s) =
    let c = Trace-Conserves v t in
    let d = Step-Conserves c.valid s in
    record {
      valid = d.valid;
      stream =
          sym (append_assoc (contents p) ins ins')
          ∙ ap (λ l. l ++ ins') c.stream
          ∙ append_assoc outs (contents q) ins'
          ∙ ap (λ l. outs ++ l) d.stream
          ∙ sym (append_assoc outs outs' (contents r));
    }
