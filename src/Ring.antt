-- ===== src/Ring.antt =====
-- The ring between the reader thread and its clients: include/BlockingRingBuffer.hpp.
-- The samples are kept as the bytes of `buffer_`, four to a sample, since both ends copy bytes.
-- A call runs in its mutex, so it is one step; its wait is the test at its head, and a call whose
-- test fails `blocks`. `faults` is an access outside `buffer_` or the caller's array.
pub mod Inv
pub mod Stored
pub mod Contiguous
pub mod Wrapped
pub mod Write
pub mod Split
pub mod Taken
pub mod Read
pub mod Steps
mod Tests
use ic7610iq.Prelude.{
  ℕ, ◌+◌, ◌-◌, ◌*◌, ◌/◌, ◌%◌, ◌^◌, Bool, none, some, List, leb, ◌==◌, if◌then◌else◌, replicate,
  memcpy,
}
use ic7610iq.Common.{bytes_per_sample}

pub record Ring : Type 0 where
  pub buff_size : ℕ
  pub capacity : ℕ
  pub buffer : List ℕ
  pub head : ℕ
  pub tail : ℕ

-- `size_t` subtraction wraps.
abbrev pub sub_size : ℕ → ℕ → ℕ
sub_size a b = (a + 2 ^ 64 - b) % 2 ^ 64

-- What a call comes to: it waits, it returns a value, or it leaves an object's bounds.
pub data Step {ℓ} (A : Type ℓ) : Type ℓ where
  blocks : Step A
  faults : Step A
  runs : A → Step A

pub create : Ring
create = record {
  buff_size = 32768;
  capacity = 32768 + 1;
  buffer = replicate ((32768 + 1) * bytes_per_sample) 0;
  head = 0;
  tail = 0;
}

unfoldable pub available_data : Ring → ℕ
available_data r =
    if leb r.head r.tail then sub_size r.tail r.head else sub_size r.capacity r.head + r.tail

unfoldable pub available_space : Ring → ℕ
unfolding available_data
available_space r = sub_size (sub_size r.capacity (available_data r)) 1

pub size : Ring → ℕ
size r = available_data r

pub is_empty : Ring → Bool
is_empty r = r.head == r.tail

pub is_full : Ring → Bool
is_full r = (r.tail + 1) % r.capacity == r.head

-- The copies of `writebuf`, past its wait; `first` is `space_to_end`. The second copy reads from byte `first` of `data`, as
-- the source does: `data` is a pointer to bytes and `first` counts samples.
pub write_contiguous : List ℕ → ℕ → ℕ → Ring → Step (ℕ × Ring)
write_contiguous data' count samples r =
    elim (memcpy r.buffer (r.tail * bytes_per_sample) data' 0 count) [
      | none ↦ faults
      | some out ↦ runs (count, record r { buffer = out; tail = (r.tail + samples) % r.capacity })
    ]

pub write_wrapped : List ℕ → ℕ → ℕ → ℕ → Ring → Step (ℕ × Ring)
write_wrapped data' count samples first r =
    let second = samples - first in
    elim (memcpy r.buffer (r.tail * bytes_per_sample) data' 0 (first * bytes_per_sample)) [
      | none ↦ faults
      | some low ↦ elim (memcpy low 0 data' first (second * bytes_per_sample)) [
        | none ↦ faults
        | some out ↦ runs (count, record r { buffer = out; tail = second })
      ]
    ]

-- `writebuf(data, count)`: `count` bytes of the array `data`.
pub writebuf : List ℕ → ℕ → Ring → Step (ℕ × Ring)
writebuf data' count r =
    let samples = count / bytes_per_sample in
    let space_to_end = sub_size r.capacity r.tail in
    if leb samples (available_space r)
    then if leb samples space_to_end
      then write_contiguous data' count samples r
      else write_wrapped data' count samples space_to_end r
    else blocks

-- The contiguous branch of `readbuf` moves the head and copies nothing: its copy is commented out.
pub read_contiguous : List ℕ → ℕ → Ring → Step (List ℕ × ℕ × Ring)
read_contiguous destination count r =
    runs (destination, count, record r { head = (r.head + count) % r.capacity })

pub read_wrapped : List ℕ → ℕ → ℕ → Ring → Step (List ℕ × ℕ × Ring)
read_wrapped destination count first r =
    let second = count - first in
    elim (memcpy destination 0 r.buffer (r.head * bytes_per_sample) (first * bytes_per_sample)) [
      | none ↦ faults
      | some low ↦
          elim (memcpy low (first * bytes_per_sample) r.buffer 0 (second * bytes_per_sample)) [
            | none ↦ faults
            | some out ↦ runs (out, count, record r { head = second })
          ]
    ]

-- `readbuf(destination, count)`: `count` samples, into the bytes of `destination`, which come back.
pub readbuf : List ℕ → ℕ → Ring → Step (List ℕ × ℕ × Ring)
readbuf destination count r =
    let data_to_end = sub_size r.capacity r.head in
    if leb count (available_data r)
    then if leb count data_to_end
      then read_contiguous destination count r
      else read_wrapped destination count data_to_end r
    else blocks

pub clear_ringbuffer : Ring → Ring
clear_ringbuffer r = record r {
  head = 0;
  tail = 0;
  buffer = replicate (r.capacity * bytes_per_sample) 0;
}
