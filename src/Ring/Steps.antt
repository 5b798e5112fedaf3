-- ===== src/Ring/Steps.antt =====
-- The reader thread and the clients taking turns on one ring.
pub mod Queue
use ic7610iq.Prelude.{
  ℕ, ◌+◌, ◌*◌, ◌/◌, ◌≤◌, ◌≡◌, ◌⊎◌, inl, inr, refl, leb, leb→le, not_leb→lt, Bool-cases, List, [],
  ◌∷◌, length, All, subst, arith,
}
use ic7610iq.Common.{bytes_per_sample}
use ic7610iq.Ring.{
  Ring, Step, blocks, faults, runs, available_data, available_space, writebuf, readbuf,
}
use ic7610iq.Ring.Inv.{IsValid, available_space-add-data}
use ic7610iq.Ring.Write.{writebuf-Wrote, writebuf-blocks}
use ic7610iq.Ring.Read.{readbuf-less, readbuf-blocks}

-- A call of one of the threads, of `n` samples.
pub data Call : Type 0 where
  write : List ℕ → ℕ → Call
  read : List ℕ → ℕ → Call

-- The caller's array holds the samples of the call.
abbrev pub Fits : Call → Type 0
Fits (write source n) = n * bytes_per_sample ≤ length source
Fits (read destination n) = n * bytes_per_sample ≤ length destination

pub step : Call → Ring → Step Ring
step (write source n) r = elim (writebuf source (n * bytes_per_sample) r) [
  | blocks ↦ blocks
  | faults ↦ faults
  | runs (count, r') ↦ runs r'
]
step (read destination n) r = elim (readbuf destination n r) [
  | blocks ↦ blocks
  | faults ↦ faults
  | runs (out, count, r') ↦ runs r'
]

-- The calls in the order in which they get the mutex. `blocks` means that one of them waits.
pub run : List Call → Ring → Step Ring
run [] r = runs r
run (c ∷ cs) r = elim (step c r) [ blocks ↦ blocks | faults ↦ faults | runs r' ↦ run cs r' ]

unfoldable pub written : List Call → ℕ
written [] = 0
written (write source n ∷ cs) = n + written cs
written (read destination n ∷ cs) = written cs

pub taken : List Call → ℕ
taken [] = 0
taken (write source n ∷ cs) = taken cs
taken (read destination n ∷ cs) = n + taken cs

-- What a history may come to: it waits, or it leaves a valid ring with these two sums equal.
abbrev pub Balanced : ℕ → ℕ → Step Ring → Type 0
Balanced a b blocks = Unit
Balanced a b faults = ⊥
Balanced a b (runs r) = IsValid r × (available_data r + a ≡ b)

data StepCases (r : Ring) (w t : ℕ) (s : Step Ring) : Type 0 where
  waits : s ≡ blocks → StepCases r w t s
  goes :
      (r' : Ring)
      → s ≡ runs r'
      → IsValid r'
      → available_data r' + t ≡ available_data r + w
      → StepCases r w t s

step-write :
    (source : List ℕ) (n : ℕ) (r : Ring)
    → n * bytes_per_sample ≤ length source
    → IsValid r
    → StepCases r n 0 (step (write source n) r)
unfolding step
step-write source n r f v = elim (Bool-cases (leb n (available_space r))) [
  | inl e ↦
      let (r', eq, w) = writebuf-Wrote r source n v f (leb→le _ _ e) in
      goes r' (rw (eq, step)) w.valid (omega (arith, w.more))
  | inr e ↦
      waits (
        rw
          (writebuf-blocks r source (n * bytes_per_sample) (omega (arith, not_leb→lt _ _ e)), step))
]

step-read :
    (destination : List ℕ) (n : ℕ) (r : Ring)
    → n * bytes_per_sample ≤ length destination
    → IsValid r
    → StepCases r 0 n (step (read destination n) r)
unfolding step
step-read destination n r f v = elim (Bool-cases (leb n (available_data r))) [
  | inl e ↦
      let (out, r', eq, valid, less) = readbuf-less r destination n v (leb→le _ _ e) f in
      goes r' (rw (eq, step)) valid (omega (arith, less))
  | inr e ↦ waits (rw (readbuf-blocks r destination n (not_leb→lt _ _ e), step))
]

Balanced-shift : (n a b : ℕ) (s : Step Ring) → Balanced a b s → Balanced (n + a) (n + b) s
Balanced-shift n a b blocks h = tt
Balanced-shift n a b faults h = h
Balanced-shift n a b (runs r) (v, e) = (v, omega (arith, e))

-- Any order of calls whose arrays are long enough, from a valid ring, never leaves the bounds of an
-- object; unless one of the calls waits, it ends in a valid ring in which the unread samples are
-- those at the start and those written, less those taken.
pub run-Balanced :
    (cs : List Call) (r : Ring)
    → All Fits cs
    → IsValid r
    → Balanced (taken cs) (available_data r + written cs) (run cs r)
unfolding run taken written
run-Balanced [] r f v = (v, refl)
run-Balanced (write source n ∷ cs) r f v = elim (step-write source n r f.0 v) [
  | waits e ↦ rw (e, run) tt
  | goes r' e v' d ↦
      rw (e, run)
        (subst (λ b. Balanced (taken cs) b (run cs r')) (omega (arith, d))
          (run-Balanced cs r' f.1 v'))
]
run-Balanced (read destination n ∷ cs) r f v = elim (step-read destination n r f.0 v) [
  | waits e ↦ rw (e, run) tt
  | goes r' e v' d ↦
      rw (e, run)
        (subst (λ b. Balanced (n + taken cs) b (run cs r')) (omega (arith, d))
          (Balanced-shift n _ _ (run cs r') (run-Balanced cs r' f.1 v')))
]

-- A producer and a consumer are never both kept waiting by a valid ring, if together they ask for
-- no more samples than its capacity counts.
write_or_read_runs :
    (r : Ring) (source destination : List ℕ) (n m : ℕ)
    → IsValid r
    → n * bytes_per_sample ≤ length source
    → m * bytes_per_sample ≤ length destination
    → n + m ≤ r.capacity
    → ((r' : Ring) × (step (write source n) r ≡ runs r'))
      ⊎ ((r' : Ring) × (step (read destination m) r ≡ runs r'))
unfolding step
write_or_read_runs r source destination n m v f g h =
    elim (Bool-cases (leb n (available_space r))) [
      | inl e ↦
          let (r', eq, _) = writebuf-Wrote r source n v f (leb→le _ _ e) in inl (r', rw (eq, step))
      | inr e ↦
          let enough : m ≤ available_data r =
            omega (arith, not_leb→lt _ _ e, available_space-add-data v) in
          let (_, r', eq, _, _) = readbuf-less r destination m v enough g in inr (r', rw (eq, step))
    ]

-- A write of as many samples as the capacity counts, or more, waits in every valid ring: no reader
-- can make room for it.
pub oversized_write_blocks :
    (r : Ring) (source : List ℕ) (count : ℕ)
    → IsValid r
    → r.capacity ≤ count / bytes_per_sample
    → writebuf source count r ≡ blocks
oversized_write_blocks r source count v h =
    writebuf-blocks r source count (omega (arith, available_space-add-data v))
