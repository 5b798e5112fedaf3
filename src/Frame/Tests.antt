-- ===== src/Frame/Tests.antt =====
-- The command that asks for the frequency of the first receiver.
use ic7610iq.Prelude.{
  ℕ, ◌%◌, ◌≤◌, ◌<◌, ◌≡◌, ◌⊎◌, refl, none, some, List, [], ◌∷◌, ◌++◌, length, replicate, take, drop,
  arith,
}
use ic7610iq.Common.{command_header}
use ic7610iq.Frame.{put_byte, put_bytes, pad, civ_frame, iq_frame}
use ic7610iq.Frame.Laws.{civ_message, iq_frame_lem, up_to_eom, iq_frame-up_to_eom}

abbrev ask_frequency : List ℕ
ask_frequency = 0x25 ∷ 0x00 ∷ []

asked : iq_frame ask_frequency ≡ some (0xfe ∷ 0xfe ∷ 0x98 ∷ 0xe0 ∷ 0x25 ∷ 0x00 ∷ 0xfd ∷ 0xff ∷ [])
unfolding iq_frame civ_frame put_bytes put_byte pad
asked = refl

iq_frame_lem_example :
    ((2 ≤ 27)
      × (iq_frame ask_frequency ≡ some (civ_message ask_frequency ++ replicate 1 0xff))
      × (length (civ_message ask_frequency ++ replicate 1 0xff) % 4 ≡ 0)
      × (length (civ_message ask_frequency ++ replicate 1 0xff) ≤ 32))
    ⊎ ((27 < 2) × (iq_frame ask_frequency ≡ none))
iq_frame_lem_example = iq_frame_lem ask_frequency

iq_frame-up_to_eom_example :
    (frame : List ℕ) × (iq_frame ask_frequency ≡ some frame)
    × (take 4 frame ≡ command_header)
    × (up_to_eom (drop 4 frame) ≡ some ask_frequency)
iq_frame-up_to_eom_example =
    iq_frame-up_to_eom ask_frequency (omega arith) (omega arith, (omega arith, tt))
