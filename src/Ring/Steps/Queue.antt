-- ===== src/Ring/Steps/Queue.antt =====
-- The ring as a bounded queue of samples: the oldest leave first, and a write waits while there is
-- no room. It holds as long as no write goes round the end of the storage.
use ic7610iq.Prelude.{
  ℕ, ◌+◌, ◌-◌, ◌*◌, ◌≤◌, ◌<◌, ◌≡◌, inl, inr, refl, sym, ◌∙◌, ap, leb, leb→le, not_leb→lt, le→leb,
  lt→not_leb, Bool-cases, Option, none, some, List, [], ◌∷◌, ◌++◌, length, length-tabulate, take,
  drop, get_or, tabulate, tabulate_ext, take-eq-tabulate, if◌then◌else◌, All, subst, arith,
}
use ic7610iq.Common.{bytes_per_sample}
use ic7610iq.Ring.{
  Ring, Step, blocks, faults, runs, available_data, available_space, readbuf, read_contiguous,
  read_wrapped,
}
use ic7610iq.Ring.Inv.{IsValid, unread, available_space-add-data, available_data-cases}
use ic7610iq.Ring.Stored.{source_byte, source_byte-low}
use ic7610iq.Ring.Write.{writebuf-Wrote, writebuf-blocks, unread-Wrote}
use ic7610iq.Ring.Read.{readbuf-takes, readbuf-blocks}
use ic7610iq.Ring.Steps.{Call, write, read, Fits, step, run, written}

-- A call of a queue with room for `room` samples; `none` is a call that waits.
pub queue_step : ℕ → Call → List ℕ → Option (List ℕ)
queue_step room (write source n) q =
    if leb (length q + n * bytes_per_sample) (room * bytes_per_sample)
    then some (q ++ take (n * bytes_per_sample) source)
    else none
queue_step room (read destination n) q =
    if leb (n * bytes_per_sample) (length q) then some (drop (n * bytes_per_sample) q) else none

pub queue_run : ℕ → List Call → List ℕ → Option (List ℕ)
unfolding queue_step
queue_run room [] q = some q
queue_run room (c ∷ cs) q = elim (queue_step room c q) [
  | none ↦ none
  | some q' ↦ queue_run room cs q'
]

-- The ring and the queue wait together; when they do not, the ring is valid and its unread bytes
-- are the queue.
abbrev pub Simulates : Step Ring → Option (List ℕ) → Type 0
Simulates blocks none = Unit
Simulates blocks (some q) = ⊥
Simulates faults o = ⊥
Simulates (runs r) none = ⊥
Simulates (runs r) (some q) = IsValid r × (unread r ≡ q)

pub length-unread : (r : Ring) → length (unread r) ≡ available_data r * bytes_per_sample
unfolding unread
length-unread r = length-tabulate _ _

readbuf-keeps :
    (r r' : Ring) (destination out : List ℕ) (n k : ℕ)
    → readbuf destination n r ≡ runs (out, k, r')
    → (r'.tail ≡ r.tail) × (r'.capacity ≡ r.capacity)
unfolding readbuf read_contiguous read_wrapped
readbuf-keeps r r' destination out n k e = ground arith

appended :
    (r : Ring) (source : List ℕ) (n : ℕ)
    → r.tail + n ≤ r.capacity
    → n * bytes_per_sample ≤ length source
    → tabulate (n * bytes_per_sample) (λ j. get_or source (source_byte r j) 0)
      ≡ take (n * bytes_per_sample) source
appended r source n end long =
    tabulate_ext _ _ _ (λ j l. ap (λ i. get_or source i 0) (source_byte-low r j (omega arith)))
    ∙ sym (take-eq-tabulate _ source 0 long)

-- One call of the ring, from which `more` samples are still to be written, against the queue.
data StepCases (r : Ring) (c : Call) (more : ℕ) : Type 0 where
  waits : step c r ≡ blocks → queue_step (r.capacity - 1) c (unread r) ≡ none → StepCases r c more
  goes :
      (r' : Ring)
      → step c r ≡ runs r'
      → queue_step (r.capacity - 1) c (unread r) ≡ some (unread r')
      → IsValid r'
      → r'.capacity ≡ r.capacity
      → r'.tail + more ≤ r'.capacity
      → StepCases r c more

step_write :
    (r : Ring) (source : List ℕ) (n more : ℕ)
    → n * bytes_per_sample ≤ length source
    → IsValid r
    → r.tail + n + more ≤ r.capacity
    → StepCases r (write source n) more
unfolding step queue_step
step_write r source n more long v end = elim (Bool-cases (leb n (available_space r))) [
  | inl e ↦
      let (r', eq, w) = writebuf-Wrote r source n v long (leb→le _ _ e) in
      let fits : length (unread r) + n * bytes_per_sample ≤ (r.capacity - 1) * bytes_per_sample =
        omega (arith, length-unread r, leb→le _ _ e, available_space-add-data v) in
      goes r' (rw (eq, step) refl)
        (rw (le→leb _ _ fits) (
          ap some (
            sym
              (unread-Wrote w ∙ ap (λ t. unread r ++ t) (appended r source n (omega arith) long)))))
        w.valid w.same_capacity
        (omega (
          arith,
          w.more,
          w.same_head,
          w.same_capacity,
          available_data-cases v,
          available_data-cases w.valid,
          v.tail_in,
          w.valid.tail_in,
        ))
  | inr e ↦
      waits
        (rw
          (writebuf-blocks r source (n * bytes_per_sample) (omega (arith, not_leb→lt _ _ e)), step)
          refl)
        (rw (lt→not_leb _ _ (the_rest (not_leb→lt _ _ e))) refl)
]
  where
    the_rest :
        available_space r < n
        → (r.capacity - 1) * bytes_per_sample < length (unread r) + n * bytes_per_sample
    the_rest h = omega (arith, length-unread r, h, available_space-add-data v)

step_read :
    (r : Ring) (destination : List ℕ) (n more : ℕ)
    → n * bytes_per_sample ≤ length destination
    → IsValid r
    → r.tail + more ≤ r.capacity
    → StepCases r (read destination n) more
unfolding step queue_step
step_read r destination n more long v end = elim (Bool-cases (leb n (available_data r))) [
  | inl e ↦
      let (out, r', eq, valid, less, copied) =
        readbuf-takes r destination n v (leb→le _ _ e) long in
      let holds : n * bytes_per_sample ≤ length (unread r) =
        omega (arith, length-unread r, leb→le _ _ e) in
      let (tail, capacity) = readbuf-keeps r r' destination out n n eq in
      goes r' (rw (eq, step) refl) (rw (le→leb _ _ holds) (ap some (sym less))) valid capacity
        (omega (arith, tail, capacity))
  | inr e ↦
      waits (rw (readbuf-blocks r destination n (not_leb→lt _ _ e), step) refl)
        (rw (lt→not_leb _ _ (too_few (not_leb→lt _ _ e))) refl)
]
  where
    too_few : available_data r < n → length (unread r) < n * bytes_per_sample
    too_few h = omega (arith, length-unread r, h)

-- From a valid ring, calls whose arrays are long enough, in any order, do to the unread bytes what they
-- do to a queue with room for one sample less than the capacity, as long as all their writes
-- together end at or before the end of the storage: the ring waits when the queue does, never leaves the bounds of an
-- object, and when no call waits it ends valid with the bytes of the queue unread, in their order.
pub run-Simulates :
    (cs : List Call) (r : Ring)
    → All Fits cs
    → IsValid r
    → r.tail + written cs ≤ r.capacity
    → Simulates (run cs r) (queue_run (r.capacity - 1) cs (unread r))
unfolding run queue_run written
run-Simulates [] r f v end = (v, refl)
run-Simulates (write source n ∷ cs) r f v end =
    elim (step_write r source n (written cs) f.0 v (omega arith)) [
      | waits e q ↦ rw (e, q, run, queue_run) tt
      | goes r' e q v' c end' ↦
          rw (e, q, run, queue_run)
            (subst (λ k. Simulates (run cs r') (queue_run (k - 1) cs (unread r'))) c
              (run-Simulates cs r' f.1 v' end'))
    ]
run-Simulates (read destination n ∷ cs) r f v end =
    elim (step_read r destination n (written cs) f.0 v end) [
      | waits e q ↦ rw (e, q, run, queue_run) tt
      | goes r' e q v' c end' ↦
          rw (e, q, run, queue_run)
            (subst (λ k. Simulates (run cs r') (queue_run (k - 1) cs (unread r'))) c
              (run-Simulates cs r' f.1 v' end'))
    ]
