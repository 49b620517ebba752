-- ===== src/CircularBuffer/Tests.antt =====
-- The tests of kernel/lib/cbuffer.c on a buffer of four bytes, which holds three.
use vimix_os.Base.{ℕ, ◌-◌, ◌≡◌, refl, List, [], ◌∷◌, length, arith}
use vimix_os.CircularBuffer.{
  CircularBuffer, cbuffer_init, cbuffer_write, cbuffer_read, cbuffer_available_data,
}
use vimix_os.CircularBuffer.Queue.{
  IsValid, contents, push_all, Taken, cbuffer_write-Pushes, cbuffer_read-Takes,
}

abbrev zeros : ℕ → ℕ
zeros i = 0

abbrev small : CircularBuffer
small = record { buffer = zeros; capacity = 4; head = 0; tail = 0 }

abbrev five : List ℕ
five = 1 ∷ 2 ∷ 3 ∷ 4 ∷ 5 ∷ []

overwrites : let (written, cb) = cbuffer_write small five in contents cb ≡ 3 ∷ 4 ∷ 5 ∷ []
unfolding cbuffer_write contents vimix_os.CircularBuffer.Window.window cbuffer_available_data
    vimix_os.CircularBuffer.Window.next
overwrites = refl

small-IsValid : IsValid small
small-IsValid = record { room = omega arith; head_index = omega arith; tail_index = omega arith }

write_example :
    let (written, cb1) = cbuffer_write small five in
    (written ≡ length five)
    × (IsValid cb1 × ((cb1.capacity ≡ 4) × (contents cb1 ≡ push_all (4 - 1) (contents small) five)))
write_example = cbuffer_write-Pushes small five small-IsValid

abbrev two_left : CircularBuffer
two_left = record { buffer = λ i. i; capacity = 4; head = 1; tail = 3 }

two_left-IsValid : IsValid two_left
two_left-IsValid = record { room = omega arith; head_index = omega arith; tail_index = omega arith }

read_example : let (bytes, cb1) = cbuffer_read two_left 1 in Taken 1 two_left bytes cb1
read_example = cbuffer_read-Takes 1 two_left two_left-IsValid
