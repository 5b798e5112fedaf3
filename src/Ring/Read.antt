-- ===== src/Ring/Read.antt =====
-- `readbuf` on a valid ring, on every branch.
use ic7610iq.Prelude.{
  ℕ, ◌+◌, ◌-◌, ◌*◌, ◌≤◌, ◌<◌, ◌≡◌, ◌⊎◌, inl, inr, refl, leb, leb→le, le→leb, not_leb→lt, lt→not_leb,
  Bool-cases, List, take, drop, length, length-drop, length-tabulate, ap, arith,
}
use ic7610iq.Common.{bytes_per_sample}
use ic7610iq.Ring.{Ring, blocks, runs, sub_size, available_data, readbuf}
use ic7610iq.Ring.Inv.{IsValid, unread, byte_at}
use ic7610iq.Ring.Taken.{
  advance-IsValid, unread-advance, contiguous-Moves, read_wrapped-takes, read_contiguous-eq,
}

-- On a valid ring, a read of `n` unread samples into an array that has room returns, keeps the
-- ring valid and takes the `n` oldest samples off the unread bytes. Where it goes past the end of
-- the storage, the array starts with exactly those samples; where it does not, the array comes
-- back unchanged.
pub readbuf-takes :
    (r : Ring) (destination : List ℕ) (n : ℕ)
    → IsValid r
    → n ≤ available_data r
    → n * bytes_per_sample ≤ length destination
    → (out : List ℕ) × (r' : Ring) × (readbuf destination n r ≡ runs (out, n, r'))
      × IsValid r'
      × (unread r' ≡ drop (n * bytes_per_sample) (unread r))
      × (((r.head + n ≤ r.capacity) × (out ≡ destination))
          ⊎ ((r.capacity < r.head + n)
              × (length out ≡ length destination)
              × (take (n * bytes_per_sample) out ≡ take (n * bytes_per_sample) (unread r))))
unfolding readbuf
readbuf-takes r destination n v holds long =
    let sub : sub_size r.capacity r.head ≡ r.capacity - r.head =
      omega (arith, v.head_in, v.small) in
    elim (Bool-cases (leb n (r.capacity - r.head))) [
      | inl e ↦
          let m = contiguous-Moves r destination n v holds long (leb→le _ _ e) in
          (
            destination,
            _,
            rw (sub, le→leb _ _ holds, e) (read_contiguous-eq r destination n v holds long),
            advance-IsValid r destination n v holds long _ m,
            unread-advance r destination n v holds long _ m,
            inl (omega (arith, leb→le _ _ e, v.head_in), refl),
          )
      | inr e ↦
          let (out, eq, m, size, same) =
            read_wrapped-takes r destination n v holds long (not_leb→lt _ _ e) in
          (
            out,
            _,
            rw (sub, le→leb _ _ holds, e) eq,
            advance-IsValid r destination n v holds long _ m,
            unread-advance r destination n v holds long _ m,
            inr (omega (arith, not_leb→lt _ _ e), size, same),
          )
    ]

-- The same, counted.
pub readbuf-less :
    (r : Ring) (destination : List ℕ) (n : ℕ)
    → IsValid r
    → n ≤ available_data r
    → n * bytes_per_sample ≤ length destination
    → (out : List ℕ) × (r' : Ring) × (readbuf destination n r ≡ runs (out, n, r'))
      × IsValid r'
      × (available_data r' + n ≡ available_data r)
unfolding unread
readbuf-less r destination n v holds long =
    let (out, r', e, valid, less, _) = readbuf-takes r destination n v holds long in
    (
      out,
      r',
      e,
      valid,
      omega (
        arith,
        ap length less,
        length-drop (n * bytes_per_sample) (unread r),
        length-tabulate (available_data r * bytes_per_sample) (byte_at r),
        length-tabulate (available_data r' * bytes_per_sample) (byte_at r'),
      ),
    )

-- A read waits as long as fewer samples are unread.
pub readbuf-blocks :
    (r : Ring) (destination : List ℕ) (n : ℕ)
    → available_data r < n
    → readbuf destination n r ≡ blocks
unfolding readbuf
readbuf-blocks r destination n h = rw (lt→not_leb _ _ h)
