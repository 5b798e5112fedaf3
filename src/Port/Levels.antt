-- ===== src/Port/Levels.antt =====
-- The numbers the radio keeps: RF gain, attenuator, preamplifier and frequency.
pub mod Frequency
pub mod Gain
pub mod Unstarted
mod Tests
use ic7610iq.Prelude.{
  ℕ, ◌+◌, ◌*◌, ◌/◌, ◌%◌, ◌^◌, ℤ, pos, negsuc, to_int32, to_uint32, Bool, ◌||◌, Option, none, some,
  List, [], ◌∷◌, ◌++◌, ltb, leb, ◌==◌, if◌then◌else◌, length, get_elem?, drop, M, ◌>>=◌, ◌>>◌, pure,
  gets, access, require,
}
use ic7610iq.Common.{cmd_index, civ_eom, civ_ack, civ_ack_nak_offset, iq_ack_nak_msg_len}
use ic7610iq.Bcd.{read_bcd, bcd_digits}
use ic7610iq.Driver.{Ftd3xx}
use ic7610iq.Port.{Port}
use ic7610iq.Port.Command.{icom_iq_command}

-- The loop of `iqGetRFGain` over the bytes from `data_index` on; `none` is a read past the reply.
unfoldable pub gain_value : List ℕ → ℕ → ℕ → Option ℕ
gain_value [] multiplier value = none
gain_value (b ∷ bs) multiplier value =
    let rest = gain_value bs (multiplier / 100) ((value + read_bcd b * multiplier) % 2 ^ 32) in
    if b == civ_eom then some value else rest

-- The five bytes from `index` on as a number: sums of `int`s, which must not pass 2 ^ 31 - 1. The
-- summands are not negative, so the whole sum passes it if any part does.
unfoldable pub frequency_value : {S : Type 0} → List ℕ → ℕ → M S ℕ
frequency_value reply index = do
  b0 ← access (get_elem? reply index)
  b1 ← access (get_elem? reply (index + 1))
  b2 ← access (get_elem? reply (index + 2))
  b3 ← access (get_elem? reply (index + 3))
  b4 ← access (get_elem? reply (index + 4))
  let value =
      read_bcd b0 * 1
      + read_bcd b1 * 100
      + read_bcd b2 * 10000
      + read_bcd b3 * 1000000
      + read_bcd b4 * 100000000
  require (ltb value (2 ^ 31))
  pure value

-- The five bytes that `iqSetFrequency` appends.
pub frequency_bytes : ℕ → List ℕ
frequency_bytes f =
    bcd_digits f 1
    ∷ bcd_digits f 100
    ∷ bcd_digits f 10000
    ∷ bcd_digits f 1000000
    ∷ bcd_digits f 100000000
    ∷ []

abbrev valid_attenuation : List ℕ
valid_attenuation = 0 ∷ 3 ∷ 6 ∷ 9 ∷ 12 ∷ 15 ∷ 18 ∷ 21 ∷ 24 ∷ 27 ∷ 30 ∷ 33 ∷ 36 ∷ 39 ∷ 42 ∷ 45 ∷ []

-- `std::find(…) != end()` for an `int`.
pub contains : List ℕ → ℤ → Bool
contains [] a = ltb 0 0
contains (x ∷ xs) (pos n) = x == n || contains xs (pos n)
contains (x ∷ xs) (negsuc n) = contains xs (negsuc n)

module _ {W : Type 0} (ft : Ftd3xx W) where
  unfoldable pub get_rf_gain : ℕ → M (Port W) ℤ
  get_rf_gain vfo = do
    open' ← gets λ p. p.is_open
    if open'
        then (do
          let command = 0x29 ∷ vfo ∷ 0x14 ∷ 0x02 ∷ []
          (received, reply) ← icom_iq_command ft command []
          if ltb 0 received
              then (do
                value ← access (gain_value (drop (cmd_index + length command) reply) 100 0)
                pure (to_int32 value))
              else pure (pos 0))
        else pure (pos 0)

  pub set_rf_gain : ℕ → ℤ → M (Port W) ℤ
  set_rf_gain vfo rfgain = do
    open' ← gets λ p. p.is_open
    if open'
        then (do
          let digits = bcd_digits (to_uint32 rfgain) 100 ∷ bcd_digits (to_uint32 rfgain) 1 ∷ []
          (received, reply) ← icom_iq_command ft (0x29 ∷ vfo ∷ 0x14 ∷ 0x02 ∷ digits) []
          if ltb 0 received
              then (do
                answer ← access (get_elem? reply civ_ack_nak_offset)
                pure (if answer == civ_ack then rfgain else negsuc 0))
              else pure (negsuc 0))
        else pure (negsuc 0)

  unfoldable pub get_attenuator_settings : ℕ → M (Port W) ℕ
  get_attenuator_settings vfo = do
    open' ← gets λ p. p.is_open
    if open'
        then (do
          let command = 0x29 ∷ vfo ∷ 0x11 ∷ []
          (received, reply) ← icom_iq_command ft command []
          if ltb 0 received
              then (do
                b ← access (get_elem? reply (cmd_index + length command))
                pure (read_bcd b % 256))
              else pure 0xff)
        else pure 0xff

  -- The `int` -1 of a failure comes back as the `uint8_t` 0xff.
  pub set_attenuator_settings : ℕ → ℤ → M (Port W) ℕ
  set_attenuator_settings vfo attenuation = do
    open' ← gets λ p. p.is_open
    if contains valid_attenuation attenuation
        then (if open'
            then (do
              let digits = bcd_digits (to_uint32 attenuation) 1 ∷ []
              (received, reply) ← icom_iq_command ft (0x29 ∷ vfo ∷ 0x11 ∷ digits) []
              if ltb 0 received
                  then (do
                    answer ← access (get_elem? reply civ_ack_nak_offset)
                    pure (if answer == civ_ack then to_uint32 attenuation % 256 else 0xff))
                  else pure 0xff)
            else pure 0xff)
        else pure 0xff

  unfoldable pub get_preamp_status : ℕ → M (Port W) ℤ
  get_preamp_status vfo = do
    open' ← gets λ p. p.is_open
    if open'
        then (do
          let command = 0x29 ∷ vfo ∷ 0x16 ∷ 0x02 ∷ []
          (received, reply) ← icom_iq_command ft command []
          if ltb 0 received
              then (do b ← access (get_elem? reply (cmd_index + length command)); pure (pos b))
              else pure (negsuc 0))
        else pure (negsuc 0)

  unfoldable pub get_frequency : ℕ → M (Port W) ℤ
  get_frequency vfo = do
    open' ← gets λ p. p.is_open
    if open'
        then (do
          let command = 0x25 ∷ vfo ∷ []
          (received, reply) ← icom_iq_command ft command []
          if ltb 0 received
              then (do value ← frequency_value reply (cmd_index + length command); pure (pos value))
              else pure (pos 0))
        else pure (pos 0)

  -- `data_index` counts the five bytes of data that `command` has by then.
  unfoldable pub set_frequency : ℕ → ℕ → M (Port W) ℤ
  set_frequency vfo f = do
    open' ← gets λ p. p.is_open
    let command = 0x25 ∷ vfo ∷ frequency_bytes f
    let data_index = cmd_index + length command
    if open'
        then (do
          (received, reply) ← icom_iq_command ft command []
          if leb data_index received
              then (do value ← frequency_value reply data_index; pure (pos value))
              else if received == iq_ack_nak_msg_len
              then (do
                answer ← access (get_elem? reply civ_ack_nak_offset)
                pure (if answer == civ_ack then to_int32 f else negsuc 0))
              else pure (negsuc 0))
        else pure (negsuc 0)
