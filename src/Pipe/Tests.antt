-- ===== src/Pipe/Tests.antt =====
-- Runs of the functions of kernel/ipc/pipe.c, and the theorems at concrete pipes.
use vimix_os.Base.{
  ℕ, ◌+◌, ◌≡◌, refl, true, false, Option, some, none, [], ◌∷◌, ◌==◌, if◌then◌else◌, arith,
}
use vimix_os.Pipe.{
  Pipe, fresh, write_from, read_segment, Took, Wrote, close, wakeup, on_nread, on_nwrite, put_byte,
  drop_byte,
}
use vimix_os.Pipe.Ring.{IsValid}
use vimix_os.Pipe.Inv.{fresh-IsValid}
use vimix_os.Pipe.Stream.{Trace, done, next, writes, reads, Conserves, Trace-Conserves}

-- user memory with the bytes 7, 8, 9, 10, ... up to an unmapped page
abbrev user : ℕ → Option ℕ
user i = if i == 3 then none else some (i + 7)

-- a pipe that holds the bytes 7 and 8
abbrev holds_two : Pipe
holds_two = put_byte (put_byte fresh 7) 8

-- as `pipe_write` leaves it, and after a read of both
abbrev written : Pipe
written = wakeup on_nread holds_two

abbrev emptied : Pipe
emptied = wakeup on_nwrite (drop_byte (drop_byte written))

write_stops_at_fault :
    write_from (λ _. false) user 5 0 fresh
    ≡ Wrote.returned 3 (wakeup on_nread (put_byte holds_two 9))
unfolding write_from
write_stops_at_fault = refl

read_takes_all : read_segment (λ _. true) false 5 written ≡ Took.returned (7 ∷ 8 ∷ []) emptied
unfolding read_segment
read_takes_all = refl

reader_sleeps_on_empty : read_segment (λ _. true) false 5 fresh ≡ Took.asleep fresh
unfolding read_segment
reader_sleeps_on_empty = refl

freed_after_both : (close true (close false fresh).0).1 ≡ true
unfolding close
freed_after_both = refl

holds_two-IsValid : IsValid holds_two
holds_two-IsValid = omega arith

two_written_and_read : Trace fresh (7 ∷ 8 ∷ []) (7 ∷ 8 ∷ []) emptied
unfolding write_from read_segment
two_written_and_read =
    next {q = written} (next done (writes (λ _. false) user 2 0 refl)) (reads false 5 refl)

Trace-Conserves_example : Conserves fresh (7 ∷ 8 ∷ []) (7 ∷ 8 ∷ []) emptied
Trace-Conserves_example = Trace-Conserves fresh-IsValid.0 two_written_and_read
