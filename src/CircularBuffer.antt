-- ===== src/CircularBuffer.antt =====
-- kernel/lib/cbuffer.c: a circular buffer of bytes that overwrites its oldest byte when it is full.
pub mod Window
pub mod Queue
mod Tests
use vimix_os.Base.{ℕ, zero, suc, ◌+◌, ◌-◌, ◌%◌, leb, List, [], ◌∷◌, ◌==◌, if◌then◌else◌}

-- `struct Circular_Buffer`, with the storage by index
pub record CircularBuffer : Type 0 where
  pub buffer : ℕ → ℕ
  pub capacity : ℕ
  pub head : ℕ
  pub tail : ℕ

pub cbuffer_init : (ℕ → ℕ) → ℕ → CircularBuffer
cbuffer_init buffer capacity = record { buffer = buffer; capacity = capacity; head = 0; tail = 0 }

pub store : ℕ → ℕ → (ℕ → ℕ) → ℕ → ℕ
store i v buffer j = if j == i then v else buffer j

-- one round of the loop of `cbuffer_write`
pub write_byte : CircularBuffer → ℕ → CircularBuffer
unfolding store
write_byte cb v =
    let next_head = (cb.head + 1) % cb.capacity in
    record {
      buffer = store cb.head v cb.buffer;
      capacity = cb.capacity;
      head = next_head;
      tail = if next_head == cb.tail then (cb.tail + 1) % cb.capacity else cb.tail;
    }

-- the bytes written and the buffer
pub cbuffer_write : CircularBuffer → List ℕ → ℕ × CircularBuffer
unfolding write_byte
cbuffer_write cb [] = (0, cb)
cbuffer_write cb (v ∷ input) =
    let (written, cb1) = cbuffer_write (write_byte cb v) input in (suc written, cb1)

-- the bytes read and the buffer
pub cbuffer_read : CircularBuffer → ℕ → List ℕ × CircularBuffer
cbuffer_read cb zero = ([], cb)
cbuffer_read cb (suc data_len) =
    let (bytes, cb1) =
      cbuffer_read
        (record {
          buffer = cb.buffer;
          capacity = cb.capacity;
          head = cb.head;
          tail = (cb.tail + 1) % cb.capacity;
        })
        data_len in
    if cb.tail == cb.head then ([], cb) else (cb.buffer cb.tail ∷ bytes, cb1)

pub cbuffer_available_data : CircularBuffer → ℕ
cbuffer_available_data cb =
    if leb cb.tail cb.head then cb.head - cb.tail else cb.capacity - (cb.tail - cb.head)

pub cbuffer_available_space : CircularBuffer → ℕ
unfolding cbuffer_available_data
cbuffer_available_space cb = cb.capacity - cbuffer_available_data cb - 1
