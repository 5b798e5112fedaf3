-- ===== src/Ring/Stored.antt =====
-- What a write of `n` samples to a ring leaves behind, as its clients see it.
use ic7610iq.Prelude.{ℕ, ◌+◌, ◌-◌, ◌*◌, ◌<◌, ◌≡◌, ltb, lt→ltb, if◌then◌else◌, List, get_or, arith}
use ic7610iq.Common.{bytes_per_sample}
use ic7610iq.Ring.{Ring, available_data}
use ic7610iq.Ring.Inv.{IsValid, byte_at}

-- The byte of the caller's array that becomes byte `j` of the new data. Up to the end of the
-- storage it is byte `j`; past it the copy goes on from byte `first`, a number of samples.
pub source_byte : Ring → ℕ → ℕ
source_byte r j =
    let first = r.capacity - r.tail in
    if ltb j (first * bytes_per_sample) then j else j - first * bytes_per_sample + first

pub source_byte-low :
    (r : Ring) (j : ℕ) → j < (r.capacity - r.tail) * bytes_per_sample → source_byte r j ≡ j
unfolding source_byte
source_byte-low r j h = rw (lt→ltb _ _ h)

pub source_byte-high :
    (r : Ring) (j : ℕ)
    → source_byte r ((r.capacity - r.tail) * bytes_per_sample + j) ≡ r.capacity - r.tail + j
unfolding source_byte
source_byte-high r j = ground arith

-- What a write of `n` samples leaves behind.
pub record Wrote (r : Ring) (source : List ℕ) (n : ℕ) (r' : Ring) : Type 0 where
  pub valid : IsValid r'
  pub more : available_data r' ≡ available_data r + n
  pub same_capacity : r'.capacity ≡ r.capacity
  pub same_head : r'.head ≡ r.head
  pub kept : (i : ℕ) → i < available_data r * bytes_per_sample → byte_at r' i ≡ byte_at r i
  pub new :
      (j : ℕ)
      → j < n * bytes_per_sample
      → byte_at r' (available_data r * bytes_per_sample + j) ≡ get_or source (source_byte r j) 0
