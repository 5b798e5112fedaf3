-- ===== src/Port/Levels/Tests.antt =====
-- An exchange about 14250000 Hz, with the scripted library.
use ic7610iq.Prelude.{ℕ, ◌≡◌, refl, pos, List, [], ◌∷◌, returns, arith}
use ic7610iq.Common.{civ_eom}
use ic7610iq.Port.Scripted.{scripted, scripted-Answers, ready}
use ic7610iq.Port.Levels.{frequency_bytes, get_frequency}
use ic7610iq.Port.Levels.Frequency.{frequency_reply, get_frequency-reply}

abbrev reported : List ℕ
reported = frequency_reply 0 14250000 (civ_eom ∷ 0xff ∷ 0xff ∷ 0xff ∷ [])

get_frequency-reply_example :
    get_frequency scripted 0 (ready reported) ≡ returns (pos 14250000) (ready reported)
unfolding frequency_bytes
get_frequency-reply_example =
    get_frequency-reply scripted 0 14250000 (civ_eom ∷ 0xff ∷ 0xff ∷ 0xff ∷ []) (ready reported)
      reported refl (omega arith)
      (scripted-Answers (0x25 ∷ 0 ∷ []) reported (omega arith) (omega arith))
