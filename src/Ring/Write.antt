-- ===== src/Ring/Write.antt =====
-- `writebuf` on a valid ring, on every branch.
use ic7610iq.Prelude.{
  ℕ, ◌+◌, ◌-◌, ◌*◌, ◌/◌, ◌≤◌, ◌<◌, ◌≡◌, inl, inr, le→leb, leb, leb→le, not_leb→lt, lt→not_leb,
  Bool-cases, List, ◌++◌, length, get_or, ◌∙◌, ap₂, tabulate, tabulate_cong, tabulate_ext,
  tabulate-add, arith,
}
use ic7610iq.Common.{bytes_per_sample}
use ic7610iq.Ring.{Ring, blocks, runs, sub_size, available_data, available_space, writebuf}
use ic7610iq.Ring.Stored.{Wrote, source_byte}
use ic7610iq.Ring.Inv.{IsValid, byte_at, unread}
use ic7610iq.Ring.Contiguous.{contiguous-Wrote}
use ic7610iq.Ring.Wrapped.{wrapped-Wrote}

pub writebuf-Wrote :
    (r : Ring) (source : List ℕ) (n : ℕ)
    → IsValid r
    → n * bytes_per_sample ≤ length source
    → n ≤ available_space r
    → (r' : Ring) × (writebuf source (n * bytes_per_sample) r ≡ runs (n * bytes_per_sample, r'))
      × Wrote r source n r'
unfolding writebuf
writebuf-Wrote r source n v long fits =
    let samples : n * bytes_per_sample / bytes_per_sample ≡ n = omega arith in
    let sub : sub_size r.capacity r.tail ≡ r.capacity - r.tail = omega arith in
    elim (Bool-cases (leb n (r.capacity - r.tail))) [
      | inl e ↦
          rw (samples, sub, le→leb _ _ fits, e)
            (contiguous-Wrote r source n v long fits (leb→le _ _ e))
      | inr e ↦
          rw (samples, sub, le→leb _ _ fits, e)
            (wrapped-Wrote r source n v long fits (not_leb→lt _ _ e))
    ]

-- The same for the queue of unread bytes: the write appends to it.
pub unread-Wrote :
    {r r' : Ring} {source : List ℕ} {n : ℕ}
    → Wrote r source n r'
    → unread r'
      ≡ unread r ++ tabulate (n * bytes_per_sample) (λ j. get_or source (source_byte r j) 0)
unfolding unread
unread-Wrote {r} {r'} {source} {n} w =
    tabulate_cong _ (available_data r * bytes_per_sample + n * bytes_per_sample) (byte_at r')
      (omega (arith, w.more))
    ∙ tabulate-add (available_data r * bytes_per_sample) (n * bytes_per_sample) (byte_at r')
    ∙ ap₂ ◌++◌ (tabulate_ext _ _ _ w.kept) (tabulate_ext _ _ _ w.new)

-- On a valid ring, a write of `n` samples that fit, from an array that has them, returns, touches
-- nothing outside the storage and the caller's array, keeps the ring valid, and appends `n`
-- samples to the unread bytes: byte `j` of them is byte `source_byte r j` of the caller's array,
-- which is byte `j` as far as the end of the storage and, past it, goes on from the byte whose
-- number is the count of samples before the end.
pub writebuf-appends :
    (r : Ring) (source : List ℕ) (n : ℕ)
    → IsValid r
    → n * bytes_per_sample ≤ length source
    → n ≤ available_space r
    → (r' : Ring) × (writebuf source (n * bytes_per_sample) r ≡ runs (n * bytes_per_sample, r'))
      × IsValid r'
      × (unread r'
          ≡ unread r ++ tabulate (n * bytes_per_sample) (λ j. get_or source (source_byte r j) 0))
writebuf-appends r source n v long fits =
    let (r', e, w) = writebuf-Wrote r source n v long fits in (r', e, w.valid, unread-Wrote w)

-- A write waits as long as its samples do not fit.
pub writebuf-blocks :
    (r : Ring) (source : List ℕ) (count : ℕ)
    → available_space r < count / bytes_per_sample
    → writebuf source count r ≡ blocks
unfolding writebuf
writebuf-blocks r source count h = rw (lt→not_leb _ _ h)
