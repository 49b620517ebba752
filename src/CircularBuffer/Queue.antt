-- ===== src/CircularBuffer/Queue.antt =====
-- kernel/lib/cbuffer.c as a queue of at most capacity - 1 bytes.
use vimix_os.Base.{
  ℕ, zero, suc, ◌+◌, ◌-◌, ◌%◌, ◌<◌, ◌≡◌, ◌≢◌, refl, sym, ap, ◌∙◌, subst, true, false, List, [], ◌∷◌,
  ◌++◌, ◌==◌, if◌then◌else◌, arith, Bool-cases, inl, inr, ==_iff, length, take, drop,
}
use vimix_os.CircularBuffer.{
  CircularBuffer, store, write_byte, cbuffer_write, cbuffer_read, cbuffer_available_data,
}
use vimix_os.CircularBuffer.Window.{
  next, next_lt, distance, distance-next, window, window_grows, window_replaces, distance_room,
  distance_full,
}

-- the bytes that can be read, the oldest first
unfoldable pub contents : CircularBuffer → List ℕ
contents cb = window cb.buffer cb.capacity cb.tail (cbuffer_available_data cb)

pub record IsValid (cb : CircularBuffer) : Type 0 where
  pub room : 1 < cb.capacity
  pub head_index : cb.head < cb.capacity
  pub tail_index : cb.tail < cb.capacity

length-window : (buffer : ℕ → ℕ) (capacity t n : ℕ) → length (window buffer capacity t n) ≡ n
unfolding window
length-window buffer capacity t zero = refl
length-window buffer capacity t (suc n) = ap suc (length-window buffer capacity (next capacity t) n)

pub length-contents : (cb : CircularBuffer) → length (contents cb) ≡ cbuffer_available_data cb
unfolding contents
length-contents cb = length-window cb.buffer cb.capacity cb.tail (cbuffer_available_data cb)

-- an abstract queue of at most n bytes, which loses its oldest byte for a new one when it is full
pub push : ℕ → List ℕ → ℕ → List ℕ
push n bytes v = (if length bytes == n then drop 1 bytes else bytes) ++ v ∷ []

pub push_all : ℕ → List ℕ → List ℕ → List ℕ
unfolding push
push_all n bytes [] = bytes
push_all n bytes (v ∷ input) = push_all n (push n bytes v) input

pub write_byte-IsValid : (cb : CircularBuffer) (v : ℕ) → IsValid cb → IsValid (write_byte cb v)
unfolding write_byte next
write_byte-IsValid cb v valid =
    let h = next_lt cb.capacity cb.head valid.head_index in
    let t = next_lt cb.capacity cb.tail valid.tail_index in
    let t0 = valid.tail_index in
    record { room = valid.room; head_index = h; tail_index = ground arith }

room_lem :
    (cb : CircularBuffer) (v : ℕ)
    → IsValid cb
    → (next cb.capacity cb.head == cb.tail) ≡ false
    → contents (write_byte cb v) ≡ push (cb.capacity - 1) (contents cb) v
unfolding write_byte contents push next cbuffer_available_data
room_lem cb v valid room =
    let (longer, short) =
      distance_room cb.capacity cb.tail cb.head valid.tail_index valid.head_index (ground arith) in
    let fits : (length (contents cb) == cb.capacity - 1) ≡ false =
      (let l = length-contents cb in ground arith) in
    rw (room, fits)
      (ap (window (store cb.head v cb.buffer) cb.capacity cb.tail) longer
        ∙ window_grows cb.buffer cb.capacity cb.tail cb.head v valid.tail_index valid.head_index)

full_lem :
    (cb : CircularBuffer) (v : ℕ)
    → IsValid cb
    → next cb.capacity cb.head ≡ cb.tail
    → contents (write_byte cb v) ≡ push (cb.capacity - 1) (contents cb) v
unfolding write_byte contents push next cbuffer_available_data
full_lem cb v valid full =
    let (before, (shorter, after)) =
      distance_full cb.capacity cb.head valid.room valid.head_index in
    let held : distance cb.capacity cb.tail cb.head ≡ cb.capacity - 1 =
      subst (λ t. distance cb.capacity t cb.head ≡ cb.capacity - 1) full before in
    let wraps : (next cb.capacity cb.head == cb.tail) ≡ true =
      (==_iff (next cb.capacity cb.head) cb.tail).1 full in
    let fills : (length (contents cb) == cb.capacity - 1) ≡ true =
      (let l = length-contents cb in ground arith) in
    rw (wraps, fills)
      (subst
        (λ t.
          window (store cb.head v cb.buffer) cb.capacity (next cb.capacity t)
            (distance cb.capacity (next cb.capacity t) (next cb.capacity cb.head))
          ≡ drop 1 (window cb.buffer cb.capacity t (distance cb.capacity t cb.head)) ++ v ∷ [])
        full (window_replaces cb.buffer cb.capacity cb.head v valid.room valid.head_index))

write_byte-contents :
    (cb : CircularBuffer) (v : ℕ)
    → IsValid cb
    → contents (write_byte cb v) ≡ push (cb.capacity - 1) (contents cb) v
write_byte-contents cb v valid = elim (Bool-cases (next cb.capacity cb.head == cb.tail)) [
  | inl full ↦ full_lem cb v valid ((==_iff (next cb.capacity cb.head) cb.tail).0 full)
  | inr room ↦ room_lem cb v valid room
]

-- Writing bytes to a valid buffer writes all of them, keeps it valid, and adds them one after the
-- other to the queue of at most capacity - 1 bytes that it holds.
pub cbuffer_write-Pushes :
    (cb : CircularBuffer) (input : List ℕ)
    → IsValid cb
    → let (written, cb1) = cbuffer_write cb input in
      (written ≡ length input)
      × (IsValid cb1
          × ((cb1.capacity ≡ cb.capacity)
              × (contents cb1 ≡ push_all (cb.capacity - 1) (contents cb) input)))
unfolding cbuffer_write push_all write_byte
cbuffer_write-Pushes cb [] valid = (refl, (valid, (refl, refl)))
cbuffer_write-Pushes cb (v ∷ input) valid =
    let (written, (valid1, (same, pushed))) =
      cbuffer_write-Pushes (write_byte cb v) input (write_byte-IsValid cb v valid) in
    (
      ap suc written,
      (
        valid1,
        (
          same,
          pushed
              ∙ ap (λ bytes. push_all (cb.capacity - 1) bytes input)
                  (write_byte-contents cb v valid),
        ),
      ),
    )

dropped : CircularBuffer → CircularBuffer
dropped cb = record {
  buffer = cb.buffer;
  capacity = cb.capacity;
  head = cb.head;
  tail = (cb.tail + 1) % cb.capacity;
}

dropped-contents :
    (cb : CircularBuffer)
    → IsValid cb
    → cb.tail ≢ cb.head
    → contents cb ≡ cb.buffer cb.tail ∷ contents (dropped cb)
unfolding dropped contents window next cbuffer_available_data
dropped-contents cb valid apart =
    ap (window cb.buffer cb.capacity cb.tail)
      (distance-next cb.capacity cb.tail cb.head valid.tail_index valid.head_index apart)

dropped-IsValid : (cb : CircularBuffer) → IsValid cb → IsValid (dropped cb)
unfolding dropped next
dropped-IsValid cb valid = record {
  room = valid.room;
  head_index = valid.head_index;
  tail_index = next_lt cb.capacity cb.tail valid.tail_index;
}

empty_lem : (cb : CircularBuffer) → cb.tail ≡ cb.head → contents cb ≡ []
unfolding contents window cbuffer_available_data
empty_lem cb e =
    let none_there : distance cb.capacity cb.tail cb.head ≡ 0 = ground arith in
    ap (window cb.buffer cb.capacity cb.tail) none_there

-- what reading up to n bytes promises
abbrev pub Taken : ℕ → CircularBuffer → List ℕ → CircularBuffer → Type 0
Taken n cb bytes cb1 =
    (bytes ≡ take n (contents cb)) × ((contents cb1 ≡ drop n (contents cb)) × IsValid cb1)

-- Reading up to n bytes from a valid buffer takes the n oldest bytes, or all there are, and leaves the
-- rest in a valid buffer.
pub cbuffer_read-Takes :
    (n : ℕ) (cb : CircularBuffer)
    → IsValid cb
    → let (bytes, cb1) = cbuffer_read cb n in Taken n cb bytes cb1
unfolding cbuffer_read dropped
cbuffer_read-Takes zero cb valid = (refl, (refl, valid))
cbuffer_read-Takes (suc n) cb valid = elim (Bool-cases (cb.tail == cb.head)) [
  | inl empty ↦ rw empty (
      let none_left = empty_lem cb ((==_iff cb.tail cb.head).0 empty) in
      (sym (ap (take (suc n)) none_left), (none_left ∙ sym (ap (drop (suc n)) none_left), valid)))
  | inr some_left ↦ rw some_left (
      let first = dropped-contents cb valid (ground arith) in
      let (bytes, (rest, valid1)) = cbuffer_read-Takes n (dropped cb) (dropped-IsValid cb valid) in
      (
        ap (λ l. cb.buffer cb.tail ∷ l) bytes ∙ sym (ap (take (suc n)) first),
        (rest ∙ sym (ap (drop (suc n)) first), valid1),
      ))
]
