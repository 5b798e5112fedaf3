-- ===== src/BufferManager.antt =====
-- include/BufferMGR.hpp: arrays of samples that are allocated and cleared together. An array is an
-- address; `live` says which addresses hold one.
pub mod Cleared
mod Tests
use ic7610iq.Prelude.{
  ℕ, zero, suc, ◌+◌, ◌≤◌, Bool, true, false, Option, none, some, List, [], ◌∷◌, ◌++◌, ◌==◌,
  if◌then◌else◌, M, ◌>>=◌, ◌>>◌, pure, gets, modify, require,
}

abbrev pub num_buf : ℕ
num_buf = 15

abbrev pub buf_len : ℕ
buf_len = 262144

pub record BufferManager : Type 0 where
  pub is_initialized : Bool
  pub num_buffers : ℕ
  pub buffer_len : ℕ
  pub arrays : List ℕ
  pub buf_head : ℕ
  pub buf_tail : ℕ
  pub buf_count : ℕ
  -- whether there is a remainder: its handle is not -1
  pub has_remainder : Bool
  pub remainder_samps : ℕ
  pub remainder_offset : ℕ
  pub live : ℕ → Bool
  pub next_address : ℕ

-- `BufferManager()`.
pub new_manager : BufferManager
new_manager = record {
  is_initialized = false;
  num_buffers = num_buf;
  buffer_len = buf_len;
  arrays = [];
  buf_head = 0;
  buf_tail = 0;
  buf_count = 0;
  has_remainder = false;
  remainder_samps = 0;
  remainder_offset = 0;
  live = λ q. false;
  next_address = 0;
}

-- `delete[]` of the arrays in turn: `none` if one of them is not there.
delete_arrays : List ℕ → (ℕ → Bool) → Option (ℕ → Bool)
delete_arrays [] live = some live
delete_arrays (p ∷ arrays) live =
    let rest = delete_arrays arrays (λ q. if q == p then false else live q) in
    if live p then rest else none

-- What `clearBuffers` leaves when `live` are the arrays that are still there.
pub cleared : BufferManager → (ℕ → Bool) → BufferManager
cleared m live = record m {
  arrays = [];
  buf_count = 0;
  buf_tail = 0;
  buf_head = 0;
  remainder_samps = 0;
  remainder_offset = 0;
  has_remainder = false;
  live = live;
}

-- `clearBuffers`, which is also the destructor.
pub clear_buffers : BufferManager → Option BufferManager
unfolding delete_arrays cleared
clear_buffers m = elim (delete_arrays m.arrays m.live) [
  | none ↦ none
  | some live ↦ some (cleared m live)
]

-- `new short[buffer_len]()`, at an address that was never used.
new_array : BufferManager → BufferManager
new_array m = record m {
  arrays = m.arrays ++ (m.next_address ∷ []);
  live = λ q. if q == m.next_address then true else m.live q;
  next_address = m.next_address + 1;
}

-- The loop of `allocateBuffers`, with `n` rounds left.
new_arrays : ℕ → BufferManager → BufferManager
unfolding new_array
new_arrays zero m = m
new_arrays (suc n) m = new_arrays n (new_array m)

pub allocate_buffers : BufferManager → BufferManager
unfolding new_arrays
allocate_buffers m = new_arrays m.num_buffers m
