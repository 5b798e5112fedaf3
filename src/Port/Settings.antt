-- ===== src/Port/Settings.antt =====
-- The switches of the radio: antenna, DIGI-SEL and IP+.
pub mod Replies
use ic7610iq.Prelude.{
  ℕ, ◌+◌, ℤ, pos, negsuc, Bool, true, false, ◌||◌, List, [], ◌∷◌, ◌++◌, ltb, leb, ◌==◌,
  if◌then◌else◌, length, get_elem?, String, M, ◌>>=◌, ◌>>◌, pure, gets, modify, access,
}
use ic7610iq.Common.{cmd_index, civ_ack, civ_ack_nak_offset}
use ic7610iq.Driver.{Ftd3xx}
use ic7610iq.Port.{Port, call}
use ic7610iq.Port.Command.{icom_iq_command}

-- `antenna` with the pieces that the source appends.
pub antenna_name : ℕ → ℕ → String
antenna_name number status =
    if number == 0x00
    then if status == 0x00 then "ANT1_OFF" else "ANT1_ON"
    else if status == 0x00
    then "ANT2_OFF"
    else "ANT2_ON"

module _ {W : Type 0} (ft : Ftd3xx W) where
  unfoldable pub get_antenna : ℕ → M (Port W) String
  get_antenna vfo = do
    open' ← gets λ p. p.is_open
    if open'
        then (do
          let command = 0x29 ∷ vfo ∷ 0x12 ∷ []
          (received, reply) ← icom_iq_command ft command []
          if ltb 0 received
              then (do
                number ← access (get_elem? reply (cmd_index + length command))
                status ← access (get_elem? reply (cmd_index + length command + 1))
                pure (antenna_name number status))
              else pure "")
        else pure ""

  -- The value that an ACK sets is overwritten by 0 before the return, as in the source.
  unfoldable pub set_antenna : ℕ → ℤ → Bool → M (Port W) ℤ
  set_antenna vfo (negsuc n) status = pure (negsuc 0)
  set_antenna vfo (pos antenna) status = if ltb 1 antenna then pure (negsuc 0) else (do
    open' ← gets λ p. p.is_open
    if open'
        then (do
          let command = 0x29 ∷ vfo ∷ 0x12 ∷ antenna ∷ (if status then 0x01 else 0x00) ∷ []
          (received, reply) ← icom_iq_command ft command []
          value ← if leb (cmd_index + length command) received then pure (pos 1) else (do
            answer ← access (get_elem? reply civ_ack_nak_offset)
            pure (if answer == civ_ack then pos 1 else negsuc 0))
          pure (pos 0))
        else pure (negsuc 0))

  -- `iqGetDIGI_SEL_Status` and `iqGetIP_Status` differ in the command's last byte only.
  unfoldable pub get_status : ℕ → ℕ → M (Port W) Bool
  get_status vfo function = do
    open' ← gets λ p. p.is_open
    if open'
        then (do
          let command = 0x29 ∷ vfo ∷ 0x16 ∷ function ∷ []
          (received, reply) ← icom_iq_command ft command []
          if ltb 0 received
              then (do b ← access (get_elem? reply (cmd_index + length command)); pure (b == 0x01))
              else pure false)
        else pure false

  unfoldable pub get_digi_sel_status : ℕ → M (Port W) Bool
  unfolding get_status
  get_digi_sel_status vfo = get_status vfo 0x4e

  unfoldable pub get_ip_status : ℕ → M (Port W) Bool
  unfolding get_status
  get_ip_status vfo = get_status vfo 0x65

  -- `iqSetDIGI_SEL_Status` and `iqSetIP_Status`, up to the command's byte and the field they set.
  unfoldable pub set_status : ℕ → (Bool → Port W → Port W) → ℕ → Bool → M (Port W) (Unit {0})
  set_status function store vfo status = do
    open' ← gets λ p. p.is_open
    if open'
        then (do
          let command = 0x29 ∷ vfo ∷ 0x16 ∷ function ∷ (if status then 0x01 else 0x00) ∷ []
          (received, reply) ← icom_iq_command ft command []
          if leb (cmd_index + length command) received then pure tt else (do
            answer ← access (get_elem? reply civ_ack_nak_offset)
            if answer == civ_ack then modify (store status) else pure tt))
        else pure tt

  unfoldable pub set_digi_sel_status : ℕ → Bool → M (Port W) (Unit {0})
  unfolding set_status
  set_digi_sel_status = set_status 0x4e (λ b p. record p { digi_sel = b })

  unfoldable pub set_ip_status : ℕ → Bool → M (Port W) (Unit {0})
  unfolding set_status
  set_ip_status = set_status 0x65 (λ b p. record p { ip_plus = b })
