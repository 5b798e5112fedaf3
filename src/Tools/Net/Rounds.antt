-- ===== src/Tools/Net/Rounds.antt =====
-- What a round of the loop that sends comes to: `handleClient` of Tools/IC7610TCPServer.cpp and the
-- loop of Tools/IC7610TCPClient.cpp.
use ic7610iq.Prelude.{
  ℕ, ◌*◌, ◌%◌, ◌^◌, ◌<◌, ℤ, pos, negsuc, to_int32, ltb, subst, Bool, List, leb, le→leb, leb→le,
  not_leb→lt, length, take, ◌≡◌, inl, inr, refl, ◌∙◌, ap, Bool-cases, arith,
}
use ic7610iq.Common.{bytes_per_sample}
use ic7610iq.Ring.{Ring, Step, blocks, faults, runs, available_data, readbuf}
use ic7610iq.Ring.Inv.{IsValid}
use ic7610iq.Port.{Port}
use ic7610iq.Port.Data.{iq_read_buf}
use ic7610iq.Port.Data.Reads.{iq_read_buf-takes, iq_read_buf-blocks}
use ic7610iq.Tools.Net.{Net, num_samples, send_samples, send_round}

module _ {W : Type 0} where
  -- What a round comes to: it waits, or it is a read of the ring followed by what changes no more
  -- of the port than the world.
  abbrev pub Rounded : List ℕ → Port W → Step (Bool × List ℕ × Port W) → Type 0
  Rounded buf p blocks = Unit
  Rounded buf p faults = ⊥
  Rounded buf p (runs (go, out, q)) =
      (length out ≡ num_samples * bytes_per_sample)
      × (samples : ℤ) × (r : Port W) × (w : W) × (iq_read_buf buf num_samples p
          ≡ runs (out, samples, r))
      × (q ≡ record r { world = w })

module _ {W : Type 0} (net : Net W) where
  -- On a valid ring a round never leaves the bounds of an object.
  pub send_round-Rounded :
      (socket : ℕ) (buf : List ℕ) (p : Port W)
      → IsValid p.iq_buffer
      → length buf ≡ num_samples * bytes_per_sample
      → Rounded buf p (send_round net socket buf p)
  unfolding send_round send_samples
  send_round-Rounded socket buf p v size =
      elim (Bool-cases (leb num_samples (available_data p.iq_buffer))) [
        | inl t ↦
            let (out, r, e, v', gone, copied) =
              iq_read_buf-takes buf num_samples p v (leb→le _ _ t) (omega (arith, size)) in
            let long : length out ≡ num_samples * bytes_per_sample = elim copied [
              | inl (h, same) ↦ ap length same ∙ size
              | inr (h, l, k) ↦ l ∙ size
            ] in
            rw (e, send_round)
              (rw (le→leb (num_samples * bytes_per_sample) (length out) (omega (arith, long))) (
                long,
                pos num_samples,
                record p { iq_buffer = r },
                (net.send socket (take (num_samples * bytes_per_sample) out) p.world).1,
                e,
                refl,
              ))
        | inr f ↦ rw (iq_read_buf-blocks buf num_samples p (not_leb→lt _ _ f), send_round) tt
      ]

  -- Until there are 1024 unread samples, a round waits.
  pub send_round-blocks :
      (socket : ℕ) (buf : List ℕ) (p : Port W)
      → available_data p.iq_buffer < num_samples
      → send_round net socket buf p ≡ blocks
  unfolding send_round
  send_round-blocks socket buf p h = rw (iq_read_buf-blocks buf num_samples p h, send_round) refl

-- A step that leaves the thread of the port, and its flag, as they are.
abbrev pub SameThread : {W : Type 0} → Port W → Step (Bool × List ℕ × Port W) → Type 0
SameThread p blocks = Unit
SameThread p faults = Unit
SameThread p (runs (go, out, q)) = (q.joinable ≡ p.joinable) × (q.running ≡ p.running)

module _ {W : Type 0} (net : Net W) where
  send_samples-SameThread :
      (socket : ℕ) (buf : List ℕ) (samples : ℤ) (p q : Port W)
      → (p.joinable ≡ q.joinable) × (p.running ≡ q.running)
      → SameThread q (send_samples net socket buf samples p)
  unfolding send_samples
  send_samples-SameThread socket buf (negsuc n) p q same = same
  send_samples-SameThread socket buf (pos n) p q same = elim (Bool-cases (ltb 0 n)) [
    | inr f ↦ rw f same
    | inl t ↦ elim (Bool-cases (leb (n * bytes_per_sample) (length buf))) [
      | inl u ↦ rw (t, u) same
      | inr u ↦ rw (t, u) tt
    ]
  ]

  read_samples-SameThread :
      (socket : ℕ) (buf : List ℕ) (p : Port W) (r : Step (List ℕ × ℕ × Ring))
      → readbuf buf num_samples p.iq_buffer ≡ r
      → SameThread p (send_round net socket buf p)
  unfolding send_round iq_read_buf
  read_samples-SameThread socket buf p blocks e = rw (e, send_round, iq_read_buf) tt
  read_samples-SameThread socket buf p faults e = rw (e, send_round, iq_read_buf) tt
  read_samples-SameThread socket buf p (runs (out, n, ring)) e =
      rw (e, send_round, iq_read_buf)
        (send_samples-SameThread socket out (to_int32 (n % 2 ^ 32)) (record p { iq_buffer = ring })
          p (refl, refl))

  pub send_round-SameThread :
      (socket : ℕ) (go : Bool) (buf out : List ℕ) (p q : Port W)
      → send_round net socket buf p ≡ runs (go, out, q)
      → (q.joinable ≡ p.joinable) × (q.running ≡ p.running)
  send_round-SameThread socket go buf out p q e =
      subst (SameThread p) e
        (read_samples-SameThread socket buf p (readbuf buf num_samples p.iq_buffer) refl)
