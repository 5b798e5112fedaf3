-- ===== src/Ring/Split.antt =====
-- A `writebuf` that does not go round the end of the storage, cut into two.
use ic7610iq.Prelude.{
  ℕ, ◌+◌, ◌-◌, ◌*◌, ◌/◌, ◌%◌, ◌≤◌, ◌<◌, ◌≡◌, refl, sym, ◌∙◌, ap, subst, le→leb, List, length,
  length-take, length-drop, take, take-add, drop, splice, splice-append, memcpy-splice, arith,
}
use ic7610iq.Common.{bytes_per_sample}
use ic7610iq.Ring.{
  Ring, runs, sub_size, available_data, available_space, writebuf, write_contiguous,
}
use ic7610iq.Ring.Inv.{IsValid, end_index, available_space-add-data}
use ic7610iq.Ring.Write.{writebuf-Wrote}

-- What a write leaves that does not go round the end.
stored : Ring → List ℕ → ℕ → Ring
stored r source n = record r {
  buffer = splice r.buffer (r.tail * bytes_per_sample) (take (n * bytes_per_sample) source);
  tail = (r.tail + n) % r.capacity;
}

writebuf-stored :
    (r : Ring) (source : List ℕ) (n : ℕ)
    → IsValid r
    → n * bytes_per_sample ≤ length source
    → n ≤ available_space r
    → r.tail + n ≤ r.capacity
    → writebuf source (n * bytes_per_sample) r ≡ runs (n * bytes_per_sample, stored r source n)
unfolding writebuf write_contiguous stored
writebuf-stored r source n v long fits end =
    let samples : n * bytes_per_sample / bytes_per_sample ≡ n = omega arith in
    let sub : sub_size r.capacity r.tail ≡ r.capacity - r.tail = omega (arith, v.small) in
    rw (samples, sub, le→leb _ _ fits, le→leb n (r.capacity - r.tail) (omega arith))
      (rw
        (
          memcpy-splice r.buffer (r.tail * bytes_per_sample) source 0 (n * bytes_per_sample)
              (omega (arith, v.storage)) (omega arith),
          write_contiguous,
        )
        refl)

module _ (r : Ring) (source : List ℕ) (n m : ℕ) (v : IsValid r)
    (long : (n + m) * bytes_per_sample ≤ length source) (fits : n + m ≤ available_space r)
    (end : r.tail + (n + m) ≤ r.capacity) (some_more : 0 < m) where
  tail_of_first : (stored r source n).tail ≡ r.tail + n
  unfolding stored
  tail_of_first = omega (arith, end_index r.tail n r.capacity (omega arith) (omega arith))

  storage_of_both :
      splice
        (stored r source n).buffer
        ((r.tail + n) * bytes_per_sample)
        (take (m * bytes_per_sample) (drop (n * bytes_per_sample) source))
      ≡ (stored r source (n + m)).buffer
  unfolding stored
  storage_of_both =
      let a : List ℕ = take (n * bytes_per_sample) source in
      let b : List ℕ = take (m * bytes_per_sample) (drop (n * bytes_per_sample) source) in
      let first : length a ≡ n * bytes_per_sample =
        omega (arith, length-take (n * bytes_per_sample) source) in
      ap (λ k. splice (splice r.buffer (r.tail * bytes_per_sample) a) k b) (omega (arith, first))
      ∙ (splice-append r.buffer (r.tail * bytes_per_sample) a b
          ∙ ap (splice r.buffer (r.tail * bytes_per_sample)) (
              sym (take-add (n * bytes_per_sample) (m * bytes_per_sample) source)
              ∙ ap (λ k. take k source) (omega arith)))

  second_of_first :
      stored (stored r source n) (drop (n * bytes_per_sample) source) m ≡ stored r source (n + m)
  unfolding stored
  second_of_first =
      let b : List ℕ = take (m * bytes_per_sample) (drop (n * bytes_per_sample) source) in
      let storage =
        ap (λ k. splice (stored r source n).buffer (k * bytes_per_sample) b) tail_of_first
        ∙ storage_of_both in
      let tail =
        ap (λ k. (k + m) % r.capacity) tail_of_first ∙ ap (λ k. k % r.capacity) (omega arith) in
      λ i. record r { buffer = storage i; tail = tail i }

  -- On a valid ring, a write of `n + m` samples that fit, from an array that has them, and that does
  -- not go round the end of the storage, comes to the same as a write of the first `n` of them and
  -- then one of the other `m`, at least one, from where they start in the array.
  pub writebuf-split :
      (first : Ring) × (both : Ring) × (writebuf source (n * bytes_per_sample) r
        ≡ runs (n * bytes_per_sample, first))
      × (writebuf (drop (n * bytes_per_sample) source) (m * bytes_per_sample) first
          ≡ runs (m * bytes_per_sample, both))
      × (writebuf source ((n + m) * bytes_per_sample) r ≡ runs ((n + m) * bytes_per_sample, both))
  unfolding stored
  writebuf-split =
      let one : writebuf source (n * bytes_per_sample) r
          ≡ runs (n * bytes_per_sample, stored r source n) =
        writebuf-stored r source n v (omega arith) (omega arith) (omega arith) in
      let (r', e, w) = writebuf-Wrote r source n v (omega arith) (omega arith) in
      let same : r' ≡ stored r source n = cc in
      let v' : IsValid (stored r source n) = subst IsValid same w.valid in
      let more : available_data (stored r source n) ≡ available_data r + n =
        subst (λ q. available_data q ≡ available_data r + n) same w.more in
      (
        stored r source n,
        stored r source (n + m),
        one,
        writebuf-stored (stored r source n) (drop (n * bytes_per_sample) source) m v'
              (omega (arith, length-drop (n * bytes_per_sample) source))
              (omega (arith, available_space-add-data v, available_space-add-data v', more))
              (omega (arith, tail_of_first))
            ∙ ap (λ q. runs (m * bytes_per_sample, q)) second_of_first,
        writebuf-stored r source (n + m) v long fits end,
      )
