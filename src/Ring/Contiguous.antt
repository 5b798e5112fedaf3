-- ===== src/Ring/Contiguous.antt =====
-- `writebuf` where the samples fit before the end of the storage.
use ic7610iq.Prelude.{
  ℕ, ◌+◌, ◌-◌, ◌*◌, ◌%◌, ◌≤◌, ◌<◌, ◌≡◌, ◌⊎◌, inl, inr, ◌∙◌, refl, sym, ap, ltb, ltb→lt, not_ltb→le,
  Bool-cases, List, get_or, length, memcpy, some, memcpy-Copied, Copied, arith,
}
use ic7610iq.Common.{bytes_per_sample}
use ic7610iq.Ring.{Ring, runs, available_data, available_space, write_contiguous}
use ic7610iq.Ring.Stored.{source_byte, source_byte-low, Wrote}
use ic7610iq.Ring.Inv.{
  IsValid, available_data-cases, available_space-add-data, end_index, place, place-cases, byte_at,
  byte_at-eq,
}

module _ (r : Ring) (source : List ℕ) (n : ℕ) (v : IsValid r)
    (long : n * bytes_per_sample ≤ length source) (fits : n ≤ available_space r) where
  room : available_data r + n < r.capacity
  room = omega (arith, available_space-add-data v)

  module _ (ends : n ≤ r.capacity - r.tail) where
    contiguous : List ℕ → Ring
    contiguous out = record r { buffer = out; tail = (r.tail + n) % r.capacity }

    next_tail :
        ((r.tail + n < r.capacity) × ((r.tail + n) % r.capacity ≡ r.tail + n))
        ⊎ ((r.tail + n ≡ r.capacity) × ((r.tail + n) % r.capacity ≡ 0))
    next_tail = end_index r.tail n r.capacity (omega arith) (omega arith)

    module _ (out : List ℕ)
        (c : Copied r.buffer (r.tail * bytes_per_sample) source 0 (n * bytes_per_sample) out) where
      contiguous-IsValid : IsValid (contiguous out)
      unfolding contiguous
      contiguous-IsValid = record {
        some_room = v.some_room;
        small = v.small;
        head_in = v.head_in;
        tail_in = omega (arith, next_tail);
        storage = c.size ∙ v.storage;
      }

      contiguous-more : available_data (contiguous out) ≡ available_data r + n
      unfolding contiguous
      contiguous-more =
          omega (
            arith,
            available_data-cases contiguous-IsValid,
            available_data-cases v,
            next_tail,
            room,
          )

      contiguous-place : (i : ℕ) → place (contiguous out) i ≡ place r i
      unfolding contiguous
      contiguous-place i = omega (arith, place-cases (contiguous out) i, place-cases r i)

      contiguous-kept :
          (i : ℕ)
          → i < available_data r * bytes_per_sample
          → byte_at (contiguous out) i ≡ byte_at r i
      unfolding contiguous
      contiguous-kept i h =
          byte_at-eq (contiguous out) i _ (contiguous-place i) ∙ same ∙ sym (byte_at-eq r i _ refl)
        where
          same : get_or out (place r i) 0 ≡ get_or r.buffer (place r i) 0
          same = elim (Bool-cases (ltb (place r i) (r.tail * bytes_per_sample))) [
            | inl e ↦ c.before _ (ltb→lt _ _ e)
            | inr e ↦
                c.after _
                  (omega (arith, place-cases r i, available_data-cases v, room, not_ltb→le _ _ e))
          ]

      contiguous-new :
          (j : ℕ)
          → j < n * bytes_per_sample
          → byte_at (contiguous out) (available_data r * bytes_per_sample + j)
            ≡ get_or source (source_byte r j) 0
      unfolding contiguous
      contiguous-new j h =
          byte_at-eq (contiguous out) _ (r.tail * bytes_per_sample + j) at_tail
          ∙ c.inside j h
          ∙ ap (λ k. get_or source k 0) (omega (arith, source_byte-low r j (omega arith)))
        where
          at_tail :
              place (contiguous out) (available_data r * bytes_per_sample + j)
              ≡ r.tail * bytes_per_sample + j
          at_tail = omega (
            arith,
            contiguous-place (available_data r * bytes_per_sample + j),
            place-cases r (available_data r * bytes_per_sample + j),
            available_data-cases v,
            room,
          )

    write_contiguous-eq :
        (out : List ℕ)
        → memcpy r.buffer (r.tail * bytes_per_sample) source 0 (n * bytes_per_sample) ≡ some out
        → write_contiguous source (n * bytes_per_sample) n r
          ≡ runs (n * bytes_per_sample, contiguous out)
    unfolding write_contiguous contiguous
    write_contiguous-eq out e = rw (e, write_contiguous) refl

    pub contiguous-Wrote :
        (r' : Ring) × (write_contiguous source (n * bytes_per_sample) n r
          ≡ runs (n * bytes_per_sample, r'))
        × Wrote r source n r'
    unfolding contiguous
    contiguous-Wrote =
        let (out, e, c) =
          memcpy-Copied r.buffer (r.tail * bytes_per_sample) source 0 (n * bytes_per_sample)
            (omega (arith, v.storage)) (omega arith) in
        (
          contiguous out,
          write_contiguous-eq out e,
          record {
            valid = contiguous-IsValid out c;
            more = contiguous-more out c;
            same_capacity = refl;
            same_head = refl;
            kept = contiguous-kept out c;
            new = contiguous-new out c;
          },
        )
