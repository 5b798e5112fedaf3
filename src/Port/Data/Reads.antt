-- ===== src/Port/Data/Reads.antt =====
-- What a synchronous `readIQData` comes to.
use ic7610iq.Prelude.{
  ℕ, ◌+◌, ◌<◌, take, drop, ◌*◌, ◌≤◌, leb→le, not_leb→lt, subst, ◌%◌, ◌/◌, ◌^◌, ◌≡◌, ◌⊎◌, refl, inl,
  inr, ℤ, pos, neg, neg_int, to_int32, false, List, [], leb, ◌==◌, Bool-cases, length, returns,
  undefined,
}
use ic7610iq.Common.{iq_in, ft_ok, ft_io_pending, bytes_per_sample}
use ic7610iq.Driver.{Ftd3xx}
use ic7610iq.Ring.{Ring, blocks, faults, runs, available_data}
use ic7610iq.Ring.Inv.{IsValid, clear-IsValid, clear-empties, unread}
use ic7610iq.Ring.Read.{readbuf-less, readbuf-takes, readbuf-blocks}
use ic7610iq.Port.{Port}
use ic7610iq.Port.Data.{
  negated, bytes_to_read, read_iq_data, ReadStep, iq_read_buf, iq_clear_read_buf,
}

module _ {W : Type 0} (ft : Ftd3xx W) where
  -- It never throws, and of the port only the world changes.
  read_iq_data-outcome :
      (size : ℕ) (p : Port W)
      → (read_iq_data ft size false p ≡ undefined)
        ⊎ ((samples : ℤ) × (bytes : List ℕ) × (w' : W) × (read_iq_data ft size false p
              ≡ returns (samples, bytes) (record p { world = w' })))
  unfolding read_iq_data negated
  read_iq_data-outcome size p =
      let r = ft.read_pipe iq_in (bytes_to_read size) p.world in
      elim (Bool-cases p.iq_data_enabled) [
        | inr f ↦ inr (neg 32, [], p.world, rw f refl)
        | inl t ↦ elim (Bool-cases (r.0.0 == ft_ok)) [
          | inl u ↦ elim (Bool-cases (leb (length r.0.1) (bytes_to_read size))) [
            | inl v ↦ inr (pos (length r.0.1 / bytes_per_sample), r.0.1, r.1, rw (t, u, v) refl)
            | inr v ↦ inl (rw (t, u, v) refl)
          ]
          | inr u ↦ elim (Bool-cases (r.0.0 == ft_io_pending)) [
            | inl k ↦ elim (Bool-cases (r.0.0 % 2 ^ 32 == 2 ^ 31)) [
              | inl v ↦ inl (rw (t, u, k, v) refl)
              | inr v ↦ inr (neg_int (to_int32 r.0.0), [], r.1, rw (t, u, k, v) refl)
            ]
            | inr k ↦ elim (Bool-cases (r.0.0 % 2 ^ 32 == 2 ^ 31)) [
              | inl v ↦ inl (rw (t, u, k, v) refl)
              | inr v ↦ inr (neg_int (to_int32 r.0.0), [], r.1, rw (t, u, k, v) refl)
            ]
          ]
        ]
      ]

-- What holds of the port after a read that does not wait.
abbrev AfterRead : {W : Type 0} → ReadStep W → Type 0
AfterRead blocks = Unit
AfterRead faults = Unit
AfterRead (runs (out, samples, q)) = IsValid q.iq_buffer

module _ {W : Type 0} where
  iq_read_buf-AfterRead :
      (destination : List ℕ) (count : ℕ) (p : Port W)
      → IsValid p.iq_buffer
      → count * bytes_per_sample ≤ length destination
      → AfterRead (iq_read_buf destination count p)
  unfolding iq_read_buf
  iq_read_buf-AfterRead destination count p v long =
      elim (Bool-cases (leb count (available_data p.iq_buffer))) [
        | inl t ↦
            let (out, r, e, v', less) =
              readbuf-less p.iq_buffer destination count v (leb→le _ _ t) long in
            rw (e, iq_read_buf) v'
        | inr f ↦
            rw (readbuf-blocks p.iq_buffer destination count (not_leb→lt _ _ f), iq_read_buf) tt
      ]

  -- With fewer unread samples a client's read waits.
  pub iq_read_buf-blocks :
      (destination : List ℕ) (count : ℕ) (p : Port W)
      → available_data p.iq_buffer < count
      → iq_read_buf destination count p ≡ blocks
  unfolding iq_read_buf
  iq_read_buf-blocks destination count p h =
      rw (readbuf-blocks p.iq_buffer destination count h, iq_read_buf) refl

  -- A client's read of the ring that does not wait leaves a valid ring.
  pub iq_read_buf-IsValid :
      (destination out : List ℕ) (count : ℕ) (samples : ℤ) (p q : Port W)
      → IsValid p.iq_buffer
      → count * bytes_per_sample ≤ length destination
      → iq_read_buf destination count p ≡ runs (out, samples, q)
      → IsValid q.iq_buffer
  iq_read_buf-IsValid destination out count samples p q v long e =
      subst AfterRead e (iq_read_buf-AfterRead destination count p v long)

  pub iq_clear_read_buf-IsValid :
      (p : Port W) → IsValid p.iq_buffer → IsValid (iq_clear_read_buf p).iq_buffer
  unfolding iq_clear_read_buf
  iq_clear_read_buf-IsValid p v = clear-IsValid v

  pub iq_clear_read_buf-empties : (p : Port W) → available_data (iq_clear_read_buf p).iq_buffer ≡ 0
  unfolding iq_clear_read_buf
  iq_clear_read_buf-empties p = clear-empties p.iq_buffer

  -- A client's read of samples that are there.
  pub iq_read_buf-takes :
      (destination : List ℕ) (n : ℕ) (p : Port W)
      → IsValid p.iq_buffer
      → n ≤ available_data p.iq_buffer
      → n * bytes_per_sample ≤ length destination
      → (out : List ℕ) × (r : Ring) × (iq_read_buf destination n p
          ≡ runs (out, to_int32 (n % 2 ^ 32), record p { iq_buffer = r }))
        × IsValid r
        × (unread r ≡ drop (n * bytes_per_sample) (unread p.iq_buffer))
        × (((p.iq_buffer.head + n ≤ p.iq_buffer.capacity) × (out ≡ destination))
            ⊎ ((p.iq_buffer.capacity < p.iq_buffer.head + n)
                × (length out ≡ length destination)
                × (take (n * bytes_per_sample) out
                    ≡ take (n * bytes_per_sample) (unread p.iq_buffer))))
  unfolding iq_read_buf
  iq_read_buf-takes destination n p v holds long =
      let (out, r, e, v', left, copied) = readbuf-takes p.iq_buffer destination n v holds long in
      (out, r, rw (e, iq_read_buf) refl, v', left, copied)
