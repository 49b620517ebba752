-- ===== src/Pipe.antt =====
-- kernel/ipc/pipe.c: the ring buffer of a pipe and its operations. Every segment runs under the
-- pipe's spin lock, which `sleep` gives up; a call that sleeps hands back where it stopped.
pub mod Ring
pub mod Inv
pub mod Stream
mod Tests
use vimix_os.Base.{
  ℕ, zero, suc, ◌+◌, ◌%◌, ◌^◌, Bool, true, false, not, ◌&&◌, ◌||◌, Option, none, some, List, [],
  ◌∷◌, ◌==◌, if◌then◌else◌, get_or, set, replicate,
}

abbrev pub pipe_size : ℕ
pipe_size = 512

-- `size_t` addition on the 64-bit kernel
abbrev pub add_size : ℕ → ℕ → ℕ
add_size a b = (a + b) % 2 ^ 64

-- the addresses that `sleep` and `wakeup` are called with
pub data Channel : Type 0 where
  on_nread on_nwrite : Channel

-- `struct pipe`, with the calls of `wakeup` made so far, the last first
pub record Pipe : Type 0 where
  pub buf : List ℕ
  pub nread : ℕ
  pub nwrite : ℕ
  pub read_open : Bool
  pub write_open : Bool
  pub wakeups : List Channel

-- the page that `alloc_page` zeroed, set up by `pipe_alloc`
abbrev pub fresh : Pipe
fresh = record {
  buf = replicate pipe_size 0;
  nread = 0;
  nwrite = 0;
  read_open = true;
  write_open = true;
  wakeups = [];
}

abbrev pub is_empty : Pipe → Bool
is_empty p = p.nread == p.nwrite

abbrev pub is_full : Pipe → Bool
is_full p = p.nwrite == add_size p.nread pipe_size

abbrev pub wakeup : Channel → Pipe → Pipe
wakeup c p = record p { wakeups = c ∷ p.wakeups }

-- what a segment of `pipe_write` ends with
pub data Wrote : Type 0 where
  -- `return i`
  returned : ℕ → Pipe → Wrote
  -- `return -1`
  failed : Pipe → Wrote
  -- asleep on `nwrite` with `i` bytes written
  asleep : ℕ → Pipe → Wrote

-- `pipe->data[pipe->nwrite % PIPE_SIZE] = ch; pipe->nwrite++;`
abbrev pub put_byte : Pipe → ℕ → Pipe
put_byte p ch = record p { buf = set p.buf (p.nwrite % pipe_size) ch; nwrite = add_size p.nwrite 1 }

-- `proc_is_killed` at each round, and the user memory that `uvm_copy_in` reads by offset
module _ (killed : ℕ → Bool) (copy_in : ℕ → Option ℕ) where
  -- The loop of `pipe_write` with `left = n - i` bytes to go, up to its end or to its next sleep.
  pub write_from : ℕ → ℕ → Pipe → Wrote
  write_from zero i p = returned i (wakeup on_nread p)
  write_from (suc left) i p =
      if not p.read_open || killed i
      then failed p
      else if is_full p
      then asleep i (wakeup on_nread p)
      else elim (copy_in i) [
        | none ↦ returned i (wakeup on_nread p)
        | some ch ↦ write_from left (i + 1) (put_byte p ch)
      ]

-- what a segment of `pipe_read` ends with; the list is what `uvm_copy_out` has stored
pub data Took : Type 0 where
  returned : List ℕ → Pipe → Took
  -- `return -1`
  failed : Pipe → Took
  -- asleep on `nread`
  asleep : Pipe → Took

-- `char ch = pipe->data[pipe->nread % PIPE_SIZE]; pipe->nread++;`
abbrev pub head_byte : Pipe → ℕ
head_byte p = get_or p.buf (p.nread % pipe_size) 0

abbrev pub drop_byte : Pipe → Pipe
drop_byte p = record p { nread = add_size p.nread 1 }

-- whether `uvm_copy_out` stores the byte at an offset
module _ (copy_out : ℕ → Bool) where
  -- The copy loop of `pipe_read`: the bytes stored, and the pipe after it. A byte that cannot be
  -- stored is taken from the pipe all the same.
  pub read_from : ℕ → ℕ → Pipe → List ℕ × Pipe
  read_from zero i p = ([], p)
  read_from (suc left) i p =
      let rest = read_from left (i + 1) (drop_byte p) in
      if is_empty p
      then ([], p)
      else if copy_out i
      then (head_byte p ∷ rest.0, rest.1)
      else ([], drop_byte p)

  pub read_segment : Bool → ℕ → Pipe → Took
  unfolding read_from
  read_segment killed n p =
      let (bytes, p') = read_from n 0 p in
      if is_empty p && p.write_open
      then (if killed then Took.failed p else Took.asleep p)
      else Took.returned bytes (wakeup on_nwrite p')

-- `pipe_close`: the pipe, and whether it was freed
pub close : Bool → Pipe → Pipe × Bool
close writing_end p =
    let p' =
      if writing_end
      then wakeup on_nread (record p { write_open = false })
      else wakeup on_nwrite (record p { read_open = false }) in
    (p', not p'.read_open && not p'.write_open)
