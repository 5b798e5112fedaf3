-- ===== src/Port/Levels/Frequency.antt =====
-- The frequency that `iqGetFrequency` and `iqSetFrequency` read out of a reply.
use ic7610iq.Prelude.{
  ℕ, ◌+◌, ◌*◌, ◌/◌, ◌%◌, ◌^◌, ◌<◌, ◌≡◌, refl, pos, negsuc, to_int32, true, List, [], ◌∷◌, ◌++◌,
  ◌==◌, lt→ltb, if◌then◌else◌, length, returns, undefined, ◌>>=◌, pure, arith,
}
use ic7610iq.Common.{civ_ack, civ_eom, reply_header}
use ic7610iq.Bcd.{read_bcd, bcd_digits}
use ic7610iq.Bcd.Laws.{read_bcd-bcd_digits}
use ic7610iq.Driver.{Ftd3xx}
use ic7610iq.Port.{Port}
use ic7610iq.Port.Command.Exchange.{Answers, icom_iq_command-Answers, when_open}
use ic7610iq.Port.Levels.{frequency_value, frequency_bytes, get_frequency, set_frequency}

digits_sum :
    (f : ℕ)
    → f < 2 ^ 31
    → f / 1 % 100 * 1
        + f / 100 % 100 * 100
        + f / 10000 % 100 * 10000
        + f / 1000000 % 100 * 1000000
        + f / 100000000 % 100 * 100000000
      ≡ f
digits_sum f h = omega arith

pub length-frequency_bytes : (f : ℕ) → length (frequency_bytes f) ≡ 5
unfolding frequency_bytes
length-frequency_bytes f = refl

-- The reply to `0x25`: the frequency of receiver `vfo`, and whatever follows.
abbrev pub frequency_reply : ℕ → ℕ → List ℕ → List ℕ
unfolding frequency_bytes
frequency_reply vfo f rest = reply_header ++ (0x25 ∷ vfo ∷ (frequency_bytes f ++ rest))

decoded :
    (f : ℕ)
    → f < 2 ^ 31
    → read_bcd (bcd_digits f 1) * 1
        + read_bcd (bcd_digits f 100) * 100
        + read_bcd (bcd_digits f 10000) * 10000
        + read_bcd (bcd_digits f 1000000) * 1000000
        + read_bcd (bcd_digits f 100000000) * 100000000
      ≡ f
decoded f h =
    rw
      (
        read_bcd-bcd_digits f 1,
        read_bcd-bcd_digits f 100,
        read_bcd-bcd_digits f 10000,
        read_bcd-bcd_digits f 1000000,
        read_bcd-bcd_digits f 100000000,
      )
      (digits_sum f h)

frequency_value-reply :
    {S : Type 0} (vfo f : ℕ) (rest : List ℕ) (s : S)
    → f < 2 ^ 31
    → frequency_value (frequency_reply vfo f rest) 6 s ≡ returns f s
unfolding frequency_value frequency_bytes
frequency_value-reply vfo f rest s h = rw (decoded f h, lt→ltb _ _ h) refl

past_end :
    {S : Type 0} (vfo f : ℕ) (s : S)
    → (frequency_value (frequency_reply vfo f (civ_eom ∷ [])) 11 >>= λ value. pure (pos value)) s
      ≡ undefined
unfolding frequency_value frequency_bytes
past_end vfo f s = refl

module _ {W : Type 0} (ft : Ftd3xx W) where
  -- On an open port, when the query goes out and the reply comes back with a frequency below 2 ^
  -- 31 Hz in the five bytes that `iqSetFrequency` sends for it, `iqGetFrequency` returns that
  -- frequency.
  pub get_frequency-reply :
      (vfo f : ℕ) (rest : List ℕ) (p : Port W) (w' : W)
      → p.is_open ≡ true
      → f < 2 ^ 31
      → Answers ft (0x25 ∷ vfo ∷ []) (frequency_reply vfo f rest) p.world w'
      → get_frequency ft vfo p ≡ returns (pos f) (record p { world = w' })
  unfolding get_frequency frequency_bytes
  get_frequency-reply vfo f rest p w' o h a =
      when_open (λ q. get_frequency ft vfo q ≡ returns (pos f) (record q { world = w' })) p o
        (rw
          (icom_iq_command-Answers ft _ _ (record p { is_open = true }) w' a, get_frequency, ◌>>=◌)
          (rw
            (
              lt→ltb 0 (length (frequency_reply vfo f rest)) (omega arith),
              frequency_value-reply vfo f rest (record p { is_open = true; world = w' }) h,
              ◌>>=◌,
            )
            refl))

  -- On an open port, when the command goes out and an answer of eight bytes comes back,
  -- `iqSetFrequency` returns the frequency as an `int` if the answer is an ACK, and -1 otherwise.
  pub set_frequency-Answers :
      (vfo f answer : ℕ) (rest : List ℕ) (p : Port W) (w' : W)
      → p.is_open ≡ true
      → length rest ≡ 3
      → Answers ft (0x25 ∷ vfo ∷ frequency_bytes f) (reply_header ++ (answer ∷ rest)) p.world w'
      → set_frequency ft vfo f p
        ≡ returns (if answer == civ_ack then to_int32 f else negsuc 0) (record p { world = w' })
  unfolding set_frequency frequency_bytes
  set_frequency-Answers vfo f answer rest p w' o l a =
      let eight : length (reply_header ++ (answer ∷ rest)) ≡ 8 = omega (arith, l) in
      when_open
        (λ q.
          set_frequency ft vfo f q
          ≡ returns (if answer == civ_ack then to_int32 f else negsuc 0) (record q { world = w' }))
        p o
        (rw
          (icom_iq_command-Answers ft _ _ (record p { is_open = true }) w' a, set_frequency, ◌>>=◌)
          (rw eight refl))

  -- On an open port, when the command goes out and comes back whole, as twelve bytes,
  -- `iqSetFrequency` reads past the end of the reply, which is undefined.
  set_frequency-echo :
      (vfo f : ℕ) (p : Port W) (w' : W)
      → p.is_open ≡ true
      → Answers ft
          (0x25 ∷ vfo ∷ frequency_bytes f)
          (frequency_reply vfo f (civ_eom ∷ []))
          p.world
          w'
      → set_frequency ft vfo f p ≡ undefined
  unfolding set_frequency frequency_bytes
  set_frequency-echo vfo f p w' o a =
      when_open (λ q. set_frequency ft vfo f q ≡ undefined) p o
        (rw
          (icom_iq_command-Answers ft _ _ (record p { is_open = true }) w' a, set_frequency, ◌>>=◌)
          (past_end vfo f (record p { is_open = true; world = w' })))
