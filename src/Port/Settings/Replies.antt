-- ===== src/Port/Settings/Replies.antt =====
-- What the setters make of the radio's answer.
use ic7610iq.Prelude.{
  ℕ, ◌≤◌, ◌≡◌, refl, pos, Bool, true, false, List, [], ◌∷◌, ◌++◌, ltb, leb, ◌==◌, lt→not_leb,
  Bool-cases, inl, inr, get_elem?-none, get_elem?-some, if◌then◌else◌, length, returns, undefined,
  ◌>>=◌, arith,
}
use ic7610iq.Common.{civ_ack, reply_header}
use ic7610iq.Driver.{Ftd3xx}
use ic7610iq.Port.{Port}
use ic7610iq.Port.Command.Exchange.{Answers, icom_iq_command-Answers, when_open}
use ic7610iq.Port.Settings.{set_antenna, set_ip_status, set_status}

abbrev pub antenna_command : ℕ → ℕ → Bool → List ℕ
antenna_command vfo antenna status =
    0x29 ∷ vfo ∷ 0x12 ∷ antenna ∷ (if status then 0x01 else 0x00) ∷ []

abbrev pub ip_command : ℕ → Bool → List ℕ
ip_command vfo status = 0x29 ∷ vfo ∷ 0x16 ∷ 0x65 ∷ (if status then 0x01 else 0x00) ∷ []

module _ {W : Type 0} (ft : Ftd3xx W) where
  not_above : (antenna : ℕ) → antenna ≤ 1 → ltb 1 antenna ≡ false
  not_above antenna h = ground arith

  -- On an open port, when the command goes out and an answer of at least five bytes comes back,
  -- `iqSetAntenna` returns 0 for antenna 0 or 1 whatever the answer is, ACK or NAK.
  pub set_antenna-Answers :
      (vfo antenna : ℕ) (status : Bool) (reply : List ℕ) (p : Port W) (w' : W)
      → p.is_open ≡ true
      → antenna ≤ 1
      → 5 ≤ length reply
      → Answers ft (antenna_command vfo antenna status) reply p.world w'
      → set_antenna ft vfo (pos antenna) status p ≡ returns (pos 0) (record p { world = w' })
  unfolding set_antenna
  set_antenna-Answers vfo antenna status reply p w' o h l a =
      when_open
        (λ q. set_antenna ft vfo (pos antenna) status q ≡ returns (pos 0) (record q { world = w' }))
        p o
        (rw (not_above antenna h) (
          rw (icom_iq_command-Answers ft _ reply (record p { is_open = true }) w' a, ◌>>=◌)
            (elim (Bool-cases (leb 9 (length reply))) [
              | inl t ↦ rw t refl
              | inr f ↦ rw (f, get_elem?-some reply 4 0 (omega arith)) refl
            ])))

  -- On an open port, when the command goes out and an answer of less than five bytes comes back,
  -- an empty one included, `iqSetAntenna` for antenna 0 or 1 reads a byte that is not there.
  pub set_antenna-short :
      (vfo antenna : ℕ) (status : Bool) (reply : List ℕ) (p : Port W) (w' : W)
      → p.is_open ≡ true
      → antenna ≤ 1
      → length reply ≤ 4
      → Answers ft (antenna_command vfo antenna status) reply p.world w'
      → set_antenna ft vfo (pos antenna) status p ≡ undefined
  unfolding set_antenna
  set_antenna-short vfo antenna status reply p w' o h l a =
      when_open (λ q. set_antenna ft vfo (pos antenna) status q ≡ undefined) p o
        (rw (not_above antenna h) (
          rw (icom_iq_command-Answers ft _ reply (record p { is_open = true }) w' a, ◌>>=◌)
            (rw (lt→not_leb 9 (length reply) (omega arith), get_elem?-none reply 4 l) refl)))

  -- On an open port, when the command goes out and an answer of eight bytes comes back,
  -- `iqSetIP_Status` sets the IP+ flag if the answer is an ACK, and otherwise leaves it.
  pub set_ip_status-Answers :
      (vfo : ℕ) (status : Bool) (answer : ℕ) (rest : List ℕ) (p : Port W) (w' : W)
      → p.is_open ≡ true
      → length rest ≡ 3
      → Answers ft (ip_command vfo status) (reply_header ++ (answer ∷ rest)) p.world w'
      → set_ip_status ft vfo status p
        ≡ returns tt
            (record p { world = w'; ip_plus = if answer == civ_ack then status else p.ip_plus })
  unfolding set_ip_status set_status
  set_ip_status-Answers vfo status answer rest p w' o l a =
      when_open
        (λ q.
          set_ip_status ft vfo status q
          ≡ returns tt
              (record q { world = w'; ip_plus = if answer == civ_ack then status else p.ip_plus }))
        p o
        (rw (icom_iq_command-Answers ft _ _ (record p { is_open = true }) w' a, set_status, ◌>>=◌)
          (rw (eight)
            (elim (Bool-cases (answer == civ_ack)) [ inl t ↦ rw t refl | inr f ↦ rw f refl ])))
    where
      eight : length (reply_header ++ (answer ∷ rest)) ≡ 8
      eight = omega (arith, l)
