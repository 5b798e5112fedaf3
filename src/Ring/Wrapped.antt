-- ===== src/Ring/Wrapped.antt =====
-- `writebuf` where the samples go past the end of the storage.
use ic7610iq.Prelude.{
  ℕ, ◌+◌, ◌-◌, ◌*◌, ◌≤◌, ◌<◌, ◌≡◌, inl, inr, ◌∙◌, refl, sym, ap, subst, ltb, ltb→lt, not_ltb→le,
  Bool-cases, List, get_or, length, memcpy, some, memcpy-Copied, Copied, arith,
}
use ic7610iq.Common.{bytes_per_sample}
use ic7610iq.Ring.{Ring, runs, available_data, available_space, write_wrapped}
use ic7610iq.Ring.Stored.{source_byte, source_byte-low, source_byte-high, Wrote}
use ic7610iq.Ring.Inv.{
  IsValid, available_data-cases, available_space-add-data, place, place-cases, byte_at, byte_at-eq,
}

module _ (r : Ring) (source : List ℕ) (n : ℕ) (v : IsValid r)
    (long : n * bytes_per_sample ≤ length source) (fits : n ≤ available_space r) where
  room : available_data r + n < r.capacity
  room = omega (arith, available_space-add-data v)

  module _ (past : r.capacity - r.tail < n) where
    first : ℕ
    first = r.capacity - r.tail

    wrapped : List ℕ → Ring
    wrapped out = record r { buffer = out; tail = n - first }

    module _ (low out : List ℕ)
        (c : Copied r.buffer (r.tail * bytes_per_sample) source 0 (first * bytes_per_sample) low)
        (d : Copied low 0 source first ((n - first) * bytes_per_sample) out) where
      wrapped-IsValid : IsValid (wrapped out)
      unfolding wrapped first
      wrapped-IsValid = record {
        some_room = v.some_room;
        small = v.small;
        head_in = v.head_in;
        tail_in = omega (arith, room);
        storage = d.size ∙ c.size ∙ v.storage;
      }

      wrapped-more : available_data (wrapped out) ≡ available_data r + n
      unfolding wrapped first
      wrapped-more =
          omega (arith, available_data-cases wrapped-IsValid, available_data-cases v, room)

      wrapped-place : (i : ℕ) → place (wrapped out) i ≡ place r i
      unfolding wrapped
      wrapped-place i = omega (arith, place-cases (wrapped out) i, place-cases r i)

      wrapped-kept :
          (i : ℕ) → i < available_data r * bytes_per_sample → byte_at (wrapped out) i ≡ byte_at r i
      unfolding wrapped first
      wrapped-kept i h =
          byte_at-eq (wrapped out) i _ (wrapped-place i)
          ∙ d.after _ (omega (arith, place-cases r i, available_data-cases v, room))
          ∙ c.before _ (omega (arith, place-cases r i, available_data-cases v, room))
          ∙ sym (byte_at-eq r i _ refl)

      wrapped-new-low :
          (j : ℕ)
          → j < first * bytes_per_sample
          → byte_at (wrapped out) (available_data r * bytes_per_sample + j)
            ≡ get_or source (source_byte r j) 0
      unfolding wrapped first
      wrapped-new-low j h =
          byte_at-eq (wrapped out) _ (r.tail * bytes_per_sample + j) at_tail
          ∙ d.after _ (omega (arith, room, available_data-cases v))
          ∙ c.inside j h
          ∙ ap (λ k. get_or source k 0) (omega (arith, source_byte-low r j (omega arith)))
        where
          at_tail :
              place (wrapped out) (available_data r * bytes_per_sample + j)
              ≡ r.tail * bytes_per_sample + j
          at_tail = omega (
            arith,
            wrapped-place (available_data r * bytes_per_sample + j),
            place-cases r (available_data r * bytes_per_sample + j),
            available_data-cases v,
            room,
          )

      wrapped-new-high :
          (k : ℕ)
          → k < (n - first) * bytes_per_sample
          → byte_at
              (wrapped out)
              (available_data r * bytes_per_sample + (first * bytes_per_sample + k))
            ≡ get_or source (source_byte r (first * bytes_per_sample + k)) 0
      unfolding wrapped first
      wrapped-new-high k h =
          byte_at-eq (wrapped out) _ (0 + k) at_start
          ∙ d.inside k h
          ∙ ap (λ k. get_or source k 0) (sym (source_byte-high r k))
        where
          at_start :
              place (wrapped out) (
                available_data r * bytes_per_sample
                + ((r.capacity - r.tail) * bytes_per_sample + k))
              ≡ 0 + k
          at_start = omega (
            arith,
            wrapped-place (
                available_data r * bytes_per_sample
                + ((r.capacity - r.tail) * bytes_per_sample + k)),
            place-cases r (
                available_data r * bytes_per_sample
                + ((r.capacity - r.tail) * bytes_per_sample + k)),
            available_data-cases v,
            room,
          )

      wrapped-new :
          (j : ℕ)
          → j < n * bytes_per_sample
          → byte_at (wrapped out) (available_data r * bytes_per_sample + j)
            ≡ get_or source (source_byte r j) 0
      unfolding first
      wrapped-new j h = elim (Bool-cases (ltb j (first * bytes_per_sample))) [
        | inl e ↦ wrapped-new-low j (ltb→lt _ _ e)
        | inr e ↦
            let k : j ≡ first * bytes_per_sample + (j - first * bytes_per_sample) =
              omega (arith, not_ltb→le _ _ e) in
            subst
              (λ t.
                byte_at (wrapped out) (available_data r * bytes_per_sample + t)
                ≡ get_or source (source_byte r t) 0)
              (sym k)
              (wrapped-new-high (j - first * bytes_per_sample) (omega (arith, not_ltb→le _ _ e)))
      ]

    write_wrapped-eq :
        (low out : List ℕ)
        → memcpy r.buffer (r.tail * bytes_per_sample) source 0 (first * bytes_per_sample) ≡ some low
        → memcpy low 0 source first ((n - first) * bytes_per_sample) ≡ some out
        → write_wrapped source (n * bytes_per_sample) n first r
          ≡ runs (n * bytes_per_sample, wrapped out)
    unfolding write_wrapped wrapped first
    write_wrapped-eq low out e f = rw (e, write_wrapped) (rw (f, write_wrapped) refl)

    pub wrapped-Wrote :
        (r' : Ring) × (write_wrapped source (n * bytes_per_sample) n (r.capacity - r.tail) r
          ≡ runs (n * bytes_per_sample, r'))
        × Wrote r source n r'
    unfolding wrapped first
    wrapped-Wrote =
        let (low, e, c) =
          memcpy-Copied r.buffer (r.tail * bytes_per_sample) source 0 (first * bytes_per_sample)
            (omega (arith, v.storage)) (omega arith) in
        let (out, f, d) =
          memcpy-Copied low 0 source first ((n - first) * bytes_per_sample)
            (omega (arith, v.storage, c.size, room)) (omega arith) in
        (
          wrapped out,
          write_wrapped-eq low out e f,
          record {
            valid = wrapped-IsValid low out c d;
            more = wrapped-more low out c d;
            same_capacity = refl;
            same_head = refl;
            kept = wrapped-kept low out c d;
            new = wrapped-new low out c d;
          },
        )
