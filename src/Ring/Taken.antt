-- ===== src/Ring/Taken.antt =====
-- The two branches of `readbuf`: where the head goes, and what a read round the end copies.
use ic7610iq.Prelude.{
  ℕ, ◌+◌, ◌-◌, ◌*◌, ◌%◌, ◌≤◌, ◌<◌, ◌≡◌, ◌⊎◌, inl, inr, ◌∙◌, refl, sym, ap, some, ltb, ltb→lt,
  not_ltb→le, Bool-cases, List, get_or, take, drop, length, memcpy, memcpy-Copied, Copied,
  tabulate_cong, tabulate_ext, take-tabulate, drop-tabulate, take-eq-tabulate, arith,
}
use ic7610iq.Common.{bytes_per_sample}
use ic7610iq.Ring.{Ring, runs, available_data, read_contiguous, read_wrapped}
use ic7610iq.Ring.Inv.{
  IsValid, available_data-cases, end_index, place, place-cases, byte_at, byte_at-eq, unread,
}

module _ (r : Ring) (destination : List ℕ) (n : ℕ) (v : IsValid r) (holds : n ≤ available_data r)
    (long : n * bytes_per_sample ≤ length destination) where
  pub advance : ℕ → Ring
  advance h = record r { head = h }

  -- The head may only move on by `n`, round the storage.
  abbrev pub Moves : ℕ → Type 0
  Moves h =
      ((r.head + n < r.capacity) × (h ≡ r.head + n))
      ⊎ ((r.capacity ≤ r.head + n) × (h + r.capacity ≡ r.head + n))

  module _ (h : ℕ) (m : Moves h) where
    pub advance-IsValid : IsValid (advance h)
    unfolding advance
    advance-IsValid = record {
      some_room = v.some_room;
      small = v.small;
      head_in = omega (arith, available_data-cases v);
      tail_in = v.tail_in;
      storage = v.storage;
    }

    advance-less : available_data (advance h) + n ≡ available_data r
    unfolding advance
    advance-less = omega (arith, available_data-cases advance-IsValid, available_data-cases v)

    advance-place :
        (i : ℕ)
        → i < available_data (advance h) * bytes_per_sample
        → place (advance h) i ≡ place r (n * bytes_per_sample + i)
    unfolding advance
    advance-place i l = omega (
      arith,
      place-cases (advance h) i,
      place-cases r (n * bytes_per_sample + i),
      advance-less,
      available_data-cases advance-IsValid,
      available_data-cases v,
    )

    advance-byte_at :
        (i : ℕ)
        → i < available_data (advance h) * bytes_per_sample
        → byte_at (advance h) i ≡ byte_at r (n * bytes_per_sample + i)
    unfolding advance
    advance-byte_at i l =
        byte_at-eq (advance h) i _ (advance-place i l) ∙ sym (byte_at-eq r _ _ refl)

    pub unread-advance : unread (advance h) ≡ drop (n * bytes_per_sample) (unread r)
    unfolding unread
    unread-advance =
        tabulate_ext _ _ (λ i. byte_at r (n * bytes_per_sample + i)) advance-byte_at
        ∙ tabulate_cong _ (available_data r * bytes_per_sample - n * bytes_per_sample)
            (λ i. byte_at r (n * bytes_per_sample + i)) (omega (arith, advance-less))
        ∙ sym (
            drop-tabulate (n * bytes_per_sample) (available_data r * bytes_per_sample) (byte_at r)
              (omega arith))

  pub contiguous-Moves : n ≤ r.capacity - r.head → Moves ((r.head + n) % r.capacity)
  contiguous-Moves ends =
      let e = end_index r.head n r.capacity (omega (arith, v.head_in)) (omega (arith, v.head_in)) in
      moves e
    where
      moves :
          ((r.head + n < r.capacity) × ((r.head + n) % r.capacity ≡ r.head + n))
            ⊎ ((r.head + n ≡ r.capacity) × ((r.head + n) % r.capacity ≡ 0))
          → Moves ((r.head + n) % r.capacity)
      moves (inl p) = inl p
      moves (inr p) = inr (omega arith, omega arith)

  module _ (past : r.capacity - r.head < n) where
    first : ℕ
    first = r.capacity - r.head

    wrapped-Moves : Moves (n - first)
    unfolding first
    wrapped-Moves = inr (omega arith, omega (arith, v.head_in))

    module _ (low out : List ℕ)
        (c : Copied destination 0 r.buffer
          (r.head * bytes_per_sample)
          (first * bytes_per_sample)
          low)
        (d : Copied low
          (first * bytes_per_sample)
          r.buffer
          0
          ((n - first) * bytes_per_sample)
          out) where
      out-byte : (i : ℕ) → i < n * bytes_per_sample → get_or out i 0 ≡ byte_at r i
      unfolding first
      out-byte i h = elim (Bool-cases (ltb i (first * bytes_per_sample))) [
        | inl e ↦
            d.before i (ltb→lt _ _ e)
            ∙ ap (λ k. get_or low k 0) (omega arith)
            ∙ c.inside i (ltb→lt _ _ e)
            ∙ sym (
                byte_at-eq r i (r.head * bytes_per_sample + i)
                  (omega (arith, place-cases r i, ltb→lt _ _ e)))
        | inr e ↦
            ap (λ k. get_or out k 0) (omega (arith, not_ltb→le _ _ e))
            ∙ d.inside (i - first * bytes_per_sample) (omega (arith, not_ltb→le _ _ e))
            ∙ sym (
                byte_at-eq r i (0 + (i - first * bytes_per_sample))
                  (omega (arith, place-cases r i, not_ltb→le _ _ e, v.head_in)))
      ]

      take-out : take (n * bytes_per_sample) out ≡ take (n * bytes_per_sample) (unread r)
      unfolding unread
      take-out =
          take-eq-tabulate (n * bytes_per_sample) out 0 (omega (arith, c.size, d.size))
          ∙ tabulate_ext _ _ (byte_at r) out-byte
          ∙ sym (take-tabulate _ (available_data r * bytes_per_sample) (byte_at r) (omega arith))

    read_wrapped-eq :
        (low out : List ℕ)
        → memcpy destination 0 r.buffer (r.head * bytes_per_sample) (first * bytes_per_sample)
          ≡ some low
        → memcpy low (first * bytes_per_sample) r.buffer 0 ((n - first) * bytes_per_sample)
          ≡ some out
        → read_wrapped destination n first r ≡ runs (out, n, advance (n - first))
    unfolding read_wrapped advance first
    read_wrapped-eq low out e f = rw (e, read_wrapped) (rw (f, read_wrapped) refl)

    pub read_wrapped-takes :
        (out : List ℕ) × (read_wrapped destination n (r.capacity - r.head) r
          ≡ runs (out, n, advance (n - (r.capacity - r.head))))
        × Moves (n - (r.capacity - r.head))
        × (length out ≡ length destination)
        × (take (n * bytes_per_sample) out ≡ take (n * bytes_per_sample) (unread r))
    unfolding first
    read_wrapped-takes =
        let (low, e, c) =
          memcpy-Copied destination 0 r.buffer (r.head * bytes_per_sample)
            (first * bytes_per_sample) (omega arith) (omega (arith, v.storage, v.head_in)) in
        let (out, f, d) =
          memcpy-Copied low (first * bytes_per_sample) r.buffer 0 ((n - first) * bytes_per_sample)
            (omega (arith, c.size)) (omega (arith, v.storage, available_data-cases v, v.tail_in)) in
        (out, read_wrapped-eq low out e f, wrapped-Moves, d.size ∙ c.size, take-out low out c d)

  pub read_contiguous-eq :
      read_contiguous destination n r ≡ runs (destination, n, advance ((r.head + n) % r.capacity))
  unfolding read_contiguous advance
  read_contiguous-eq = refl
