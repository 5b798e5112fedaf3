-- ===== src/Soapy/Tests.antt =====
-- A device on the scripted library, with frequencies that are whole numbers.
use ic7610iq.Prelude.{
  ℕ, ◌*◌, ◌≤◌, ◌≡◌, refl, ℤ, pos, true, false, List, [], ◌∷◌, ◌++◌, returns, ◌>>=◌, arith,
}
use ic7610iq.Common.{civ_ack, civ_eom, reply_header}
use ic7610iq.Port.Levels.{frequency_bytes}
use ic7610iq.Port.Levels.Frequency.{length-frequency_bytes}
use ic7610iq.Port.Scripted.{scripted, scripted-Answers, scripted-Bounded, ready}
use ic7610iq.Port.Data.Bounds.{AtMost, Documented}
use ic7610iq.Soapy.Streaming.Bounds.{element_size, read_stream-fits}
use ic7610iq.Soapy.{Sdr, new_sdr}
use ic7610iq.Soapy.Scripted.{whole_numbers}
use ic7610iq.Soapy.Settings.{set_frequency_of, get_frequency}
use ic7610iq.Soapy.Settings.Tuning.{set_frequency_of-get_frequency}
use ic7610iq.Soapy.Streaming.{Filled, read_stream}

abbrev device : List ℕ → ℤ → Sdr (List ℕ) ℤ
device reply frequency =
    record (new_sdr scripted whole_numbers false 0 true (pos 0) frequency reply) {
      port = ready reply;
    }

abbrev two_samples : List ℕ
two_samples = 11 ∷ 12 ∷ 13 ∷ 14 ∷ 21 ∷ 22 ∷ 23 ∷ 24 ∷ []

abbrev accepted : List ℕ
accepted = reply_header ++ (civ_ack ∷ civ_eom ∷ 0xff ∷ 0xff ∷ [])

set_frequency_of-get_frequency_example :
    (set_frequency_of scripted whole_numbers (pos 1) "RF" (pos 14250000) >>= λ _.
    get_frequency scripted whole_numbers (pos 1))
      (device accepted (pos 7100000))
    ≡ returns (pos 14250000) (device accepted (pos 14250000))
set_frequency_of-get_frequency_example =
    set_frequency_of-get_frequency scripted whole_numbers (pos 1) (pos 14250000) 14250000 civ_ack
      (civ_eom ∷ 0xff ∷ 0xff ∷ []) (device accepted (pos 7100000)) accepted refl refl refl
      (omega arith) (omega arith) refl
      (scripted-Answers (0x25 ∷ 0 ∷ frequency_bytes 14250000) accepted
        (omega (arith, length-frequency_bytes 14250000)) (omega arith))

-- The data is on, and the radio sends two samples.
abbrev listening : Sdr (List ℕ) ℤ
listening = record (device two_samples (pos 7100000)) {
  port = record (ready two_samples) { iq_data_enabled = true };
}

scripted-Documented : Documented scripted
scripted-Documented = record {
  small = λ pipe size w. omega arith;
  bounded = λ pipe size w. scripted-Bounded pipe size w;
}

room : element_size scripted whole_numbers "CF32" * 1024 ≤ 8192
unfolding element_size
room = omega arith

read_stream-fits_example :
    (samples : ℤ) × (filled : Filled) × (d' : Sdr (List ℕ) ℤ) × (read_stream scripted whole_numbers
        1024 8192
        (record listening { rx_format = "CF32" })
      ≡ returns (samples, filled) d')
    × AtMost 1024 samples
read_stream-fits_example =
    read_stream-fits scripted whole_numbers 1024 8192 (record listening { rx_format = "CF32" })
      scripted-Documented room
