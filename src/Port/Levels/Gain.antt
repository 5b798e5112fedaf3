-- ===== src/Port/Levels/Gain.antt =====
-- The RF gain that `iqGetRFGain` reads out of a reply.
use ic7610iq.Prelude.{
  ℕ, ◌+◌, ◌*◌, ◌/◌, ◌%◌, ◌^◌, ◌<◌, ◌≡◌, refl, ap, pos, true, false, some, List, [], ◌∷◌, ◌++◌, ◌==◌,
  lt→ltb, length, returns, ◌>>=◌, arith,
}
use ic7610iq.Common.{civ_eom, reply_header}
use ic7610iq.Bcd.{bcd_digits}
use ic7610iq.Bcd.Laws.{read_bcd-bcd_digits, bcd_digits-lt}
use ic7610iq.Driver.{Ftd3xx}
use ic7610iq.Port.{Port}
use ic7610iq.Port.Command.Exchange.{Answers, icom_iq_command-Answers, when_open}
use ic7610iq.Port.Levels.{gain_value, get_rf_gain}

not_eom : (n value : ℕ) → (bcd_digits n value == civ_eom) ≡ false
not_eom n value = ground (arith, bcd_digits-lt n value)

gain_sum :
    (v : ℕ)
    → v < 10000
    → ((0 + v / 100 % 100 * 100) % 2 ^ 32 + v / 1 % 100 * (100 / 100)) % 2 ^ 32 ≡ v
gain_sum v h = omega arith

gain_value-digits :
    (v : ℕ) (rest : List ℕ)
    → v < 10000
    → gain_value (bcd_digits v 100 ∷ bcd_digits v 1 ∷ civ_eom ∷ rest) 100 0 ≡ some v
unfolding gain_value
gain_value-digits v rest h =
    rw (not_eom v 100, not_eom v 1, read_bcd-bcd_digits v 100, read_bcd-bcd_digits v 1)
      (ap some (gain_sum v h))

-- The reply to `0x14 0x02`: the gain `v` of receiver `vfo`, and what the buffer holds behind it.
abbrev pub gain_reply : ℕ → ℕ → List ℕ → List ℕ
gain_reply vfo v rest =
    reply_header ++ (0x29 ∷ vfo ∷ 0x14 ∷ 0x02 ∷ bcd_digits v 100 ∷ bcd_digits v 1 ∷ civ_eom ∷ rest)

module _ {W : Type 0} (ft : Ftd3xx W) where
  -- On an open port, when the query goes out and the reply comes back with an RF gain below 10000
  -- in the two bytes that `iqSetRFGain` sends for it, `iqGetRFGain` returns that gain.
  pub get_rf_gain-reply :
      (vfo v : ℕ) (rest : List ℕ) (p : Port W) (w' : W)
      → p.is_open ≡ true
      → v < 10000
      → Answers ft (0x29 ∷ vfo ∷ 0x14 ∷ 0x02 ∷ []) (gain_reply vfo v rest) p.world w'
      → get_rf_gain ft vfo p ≡ returns (pos v) (record p { world = w' })
  unfolding get_rf_gain
  get_rf_gain-reply vfo v rest p w' o h a =
      when_open (λ q. get_rf_gain ft vfo q ≡ returns (pos v) (record q { world = w' })) p o
        (rw (icom_iq_command-Answers ft _ _ (record p { is_open = true }) w' a, get_rf_gain, ◌>>=◌)
          (rw
            (
              lt→ltb 0 (length (gain_reply vfo v rest)) (omega arith),
              gain_value-digits v rest h,
              lt→ltb v (2 ^ 31) (omega arith),
            )
            refl))
