-- ===== src/Soapy/Settings/Tuning.antt =====
-- Tuning the device: what `setFrequency` and the `getFrequency` behind it come to.
use ic7610iq.Prelude.{
  ℕ, ◌^◌, ◌<◌, ◌≡◌, refl, sym, ap, subst, ℤ, negsuc, int_eq, to_int32, true, Bool-cases, inl, inr,
  lt→ltb, some, List, ◌∷◌, ◌++◌, ◌==◌, if◌then◌else◌, length, returns, ◌>>=◌,
}
use ic7610iq.Common.{civ_ack, reply_header}
use ic7610iq.Driver.{Ftd3xx}
use ic7610iq.Port.Command.Exchange.{Answers}
use ic7610iq.Port.Levels.{frequency_bytes, set_frequency}
use ic7610iq.Port.Levels.Frequency.{set_frequency-Answers}
use ic7610iq.Soapy.{Api, Sdr}
use ic7610iq.Soapy.Calls.{on_port-returns}
use ic7610iq.Soapy.Settings.{tune, set_frequency_of, get_frequency}

module _ {W D : Type 0} (ft : Ftd3xx W) (api : Api D) where
  abbrev answered : ℕ → ℕ → ℤ
  answered f answer = if answer == civ_ack then to_int32 f else negsuc 0

  abbrev tuned : Sdr W D → ℕ → D → W → Sdr W D
  tuned d answer frequency w' = record d {
    port = record d.port { world = w' };
    rx_frequency = if answer == civ_ack then frequency else d.rx_frequency;
  }

  tune-Answers :
      (frequency : D) (f answer : ℕ) (rest : List ℕ) (d : Sdr W D) (w' : W)
      → api.to_uint32 frequency ≡ some f
      → 0 < f
      → f < 2 ^ 31
      → length rest ≡ 3
      → Answers ft
          (0x25 ∷ d.rx_vfo ∷ frequency_bytes f)
          (reply_header ++ (answer ∷ rest))
          d.port.world
          w'
      → tune ft api frequency (record d { port = record d.port { is_open = true } })
        ≡ returns tt
            (tuned (record d { port = record d.port { is_open = true } }) answer frequency w')
  unfolding tune
  tune-Answers frequency f answer rest d w' e pos_f below l a = rw (e) (
      rw
        (
          on_port-returns (set_frequency ft d.rx_vfo f)
              (record d { port = record d.port { is_open = true } }) (answered f answer)
              (record d.port { is_open = true; world = w' })
              (set_frequency-Answers ft d.rx_vfo f answer rest (record d.port { is_open = true }) w'
                refl l a),
          ◌>>=◌,
        )
        (elim (Bool-cases (answer == civ_ack)) [
          | inl t ↦ rw (t, lt→ltb f (2 ^ 31) below, lt→ltb 0 f pos_f) refl
          | inr n ↦ rw n refl
        ]))

  -- Tuning the receiver of an open device to a frequency that is `f` Hz as a `uint32_t`, with 0 <
  -- f < 2 ^ 31: when the command goes out and an answer of eight bytes comes back, `getFrequency`
  -- then returns the new frequency if the answer is an ACK, and otherwise the old.
  pub set_frequency_of-get_frequency :
      (direction : ℤ) (frequency : D) (f answer : ℕ) (rest : List ℕ) (d : Sdr W D) (w' : W)
      → int_eq direction api.rx ≡ true
      → d.port.is_open ≡ true
      → api.to_uint32 frequency ≡ some f
      → 0 < f
      → f < 2 ^ 31
      → length rest ≡ 3
      → Answers ft
          (0x25 ∷ d.rx_vfo ∷ frequency_bytes f)
          (reply_header ++ (answer ∷ rest))
          d.port.world
          w'
      → (set_frequency_of ft api direction "RF" frequency >>= λ _. get_frequency ft api direction) d
        ≡ returns
            (if answer == civ_ack then frequency else d.rx_frequency)
            (tuned d answer frequency w')
  unfolding set_frequency_of get_frequency
  set_frequency_of-get_frequency direction frequency f answer rest d w' r o e pos_f below l a =
      subst
        (λ q.
          (set_frequency_of ft api direction "RF" frequency >>= λ _. get_frequency ft api direction)
            q
          ≡ returns (if answer == civ_ack then frequency else d.rx_frequency)
              (tuned q answer frequency w'))
        (sym (ap (λ b. record d { port = record d.port { is_open = b } }) o))
        (rw r (
          rw (tune-Answers frequency f answer rest d w' e pos_f below l a, if◌then◌else◌, ◌>>=◌)
            refl))
