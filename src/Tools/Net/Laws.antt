-- ===== src/Tools/Net/Laws.antt =====
-- What the servers send, and where the two searches for an address agree.
use ic7610iq.Prelude.{
  ℕ, ◌+◌, ◌*◌, ◌≤◌, ◌<◌, ◌≡◌, ◌⊎◌, inl, inr, refl, sym, ◌∙◌, ap, subst, Option, none, some, List,
  [], ◌∷◌, le→leb, if◌then◌else◌, length, take, take_all, drop, arith,
}
use ic7610iq.Common.{bytes_per_sample}
use ic7610iq.Ring.{runs, available_data}
use ic7610iq.Ring.Inv.{IsValid, unread}
use ic7610iq.Port.{Port}
use ic7610iq.Port.Data.Reads.{iq_read_buf-takes}
use ic7610iq.Tools.Net.{
  Net, num_samples, connect_windows, connect_posix, attempt, send_samples, send_round,
}

module _ {W : Type 0} (net : Net W) where
  take-length : (n : ℕ) (xs : List ℕ) → length xs ≡ n → take n xs ≡ xs
  take-length n xs e = subst (λ k. take k xs ≡ xs) e (take_all xs)

  -- A round of TCPClient on a valid ring with 1024 unread samples and a buffer of their size takes them
  -- from the ring and sends a block: when the samples do not go round the end of the storage it is the
  -- buffer as it was before the read; else it is the samples, oldest first. The loop goes on as long
  -- as the send does not fail.
  pub send_round-sends :
      (socket : ℕ) (buf : List ℕ) (p : Port W)
      → IsValid p.iq_buffer
      → num_samples ≤ available_data p.iq_buffer
      → length buf ≡ num_samples * bytes_per_sample
      → (block : List ℕ) × (q : Port W) × (send_round net socket buf p
          ≡ runs ((net.send socket block p.world).0, block, q))
        × IsValid q.iq_buffer
        × (unread q.iq_buffer ≡ drop (num_samples * bytes_per_sample) (unread p.iq_buffer))
        × (((p.iq_buffer.head + num_samples ≤ p.iq_buffer.capacity) × (block ≡ buf))
            ⊎ ((p.iq_buffer.capacity < p.iq_buffer.head + num_samples)
                × (block ≡ take (num_samples * bytes_per_sample) (unread p.iq_buffer))))
  unfolding send_round send_samples
  send_round-sends socket buf p v holds size =
      let (out, r, e, v', left, copied) =
        iq_read_buf-takes buf num_samples p v holds (omega (arith, size)) in
      let long : length out ≡ num_samples * bytes_per_sample = elim copied [
        | inl (h, same) ↦ ap length same ∙ size
        | inr (h, l, t) ↦ l ∙ size
      ] in
      let whole : take (num_samples * bytes_per_sample) out ≡ out = take-length _ out long in
      (
        out,
        record p { iq_buffer = r; world = (net.send socket out p.world).1 },
        rw (e, send_round)
            (rw (le→leb (num_samples * bytes_per_sample) (length out) (omega (arith, long)), whole)
              refl),
        v',
        left,
        elim copied [ inl (h, same) ↦ inl (h, same) | inr (h, l, t) ↦ inr (h, sym whole ∙ t) ],
      )

  attempt-opened :
      (addr : ℕ) (f g h k : W → Option ℕ × W) (w : W) (sfd : ℕ)
      → (net.open_socket addr w).0 ≡ some sfd
      → ((v : W) → h v ≡ k v)
      → attempt net addr f h w ≡ attempt net addr g k w
  unfolding attempt
  attempt-opened addr f g h k w sfd e same =
      let (success, w'') = net.connect_socket sfd addr (net.open_socket addr w).1 in
      rw (e, attempt)
        (ap (λ t. if success then (some sfd, w'') else t) (same (net.close_socket sfd w'')))

  -- When every address gives a socket, the search for an address on Windows and the one elsewhere
  -- come to the same socket.
  pub connect_windows-connect_posix :
      (addresses : List ℕ) (w : W)
      → ((addr : ℕ) (w : W) → (sfd : ℕ) × ((net.open_socket addr w).0 ≡ some sfd))
      → connect_windows net addresses w ≡ connect_posix net addresses w
  unfolding connect_windows connect_posix
  connect_windows-connect_posix [] w opens = refl
  connect_windows-connect_posix (addr ∷ rest) w opens =
      let (sfd, e) = opens addr w in
      attempt-opened addr (λ w. (none, w)) (connect_posix net rest) (connect_windows net rest)
        (connect_posix net rest) w sfd e (λ v. connect_windows-connect_posix rest v opens)
