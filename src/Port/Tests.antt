-- ===== src/Port/Tests.antt =====
-- The port with the scripted library.
use ic7610iq.Prelude.{
  ℕ, ◌*◌, tabulate, get_or, ◌≡◌, refl, pos, true, false, List, [], ◌∷◌, ◌++◌, length, returns,
  arith,
}
use ic7610iq.Common.{bytes_per_sample, civ_eom, reply_header}
use ic7610iq.Ring
use ic7610iq.Ring.{Ring}
use ic7610iq.Ring.Inv.{IsValid, unread, create-IsValid, available_space-create}
use ic7610iq.Ring.Stored.{source_byte}
use ic7610iq.Port.{Port}
use ic7610iq.Port.Command.{icom_iq_command}
use ic7610iq.Port.Command.Exchange.{icom_iq_command-returns}
use ic7610iq.Port.Settings.{set_antenna}
use ic7610iq.Port.Settings.Replies.{antenna_command, set_antenna-Answers}
use ic7610iq.Port.Async.{looping, worker_round}
use ic7610iq.Port.Async.Rounds.{worker_round-appends}
use ic7610iq.Port.Scripted.{scripted, scripted-Bounded, scripted-Answers, ready}

-- A NAK, filled to eight bytes.
abbrev refused : List ℕ
refused = reply_header ++ (0xfa ∷ civ_eom ∷ 0xff ∷ 0xff ∷ [])

abbrev acknowledged : List ℕ
acknowledged = reply_header ++ (0xfb ∷ civ_eom ∷ 0xff ∷ 0xff ∷ [])

icom_iq_command-returns_example :
    (reply : List ℕ) × (w' : List ℕ) × (icom_iq_command scripted (0x25 ∷ 0 ∷ []) [] (ready refused)
      ≡ returns (length reply, reply) (ready w'))
icom_iq_command-returns_example =
    icom_iq_command-returns scripted scripted-Bounded (0x25 ∷ 0 ∷ []) (ready refused) (omega arith)

set_antenna-Answers_example :
    set_antenna scripted 0 (pos 1) true (ready refused) ≡ returns (pos 0) (ready refused)
set_antenna-Answers_example =
    set_antenna-Answers scripted 0 1 true refused (ready refused) refused refl (omega arith)
      (omega arith)
      (scripted-Answers (antenna_command 0 1 true) refused (omega arith) (omega arith))

abbrev closed : Port (List ℕ)
closed = record (ready refused) { is_open = false }

abbrev two_samples : List ℕ
two_samples = 11 ∷ 12 ∷ 13 ∷ 14 ∷ 21 ∷ 22 ∷ 23 ∷ 24 ∷ []

abbrev streaming : Port (List ℕ)
streaming = record (ready two_samples) { running = true; joinable = true }

worker_round-appends_example :
    (r' : Ring) × (w'' : List ℕ) × (worker_round scripted streaming
      ≡ returns looping (record streaming { iq_buffer = r'; world = w'' }))
    × IsValid r'
    × (unread r'
        ≡ unread Ring.create
          ++ tabulate
              (2 * bytes_per_sample)
              (λ j. get_or two_samples (source_byte Ring.create j) 0))
worker_round-appends_example =
    worker_round-appends scripted streaming two_samples 2 two_samples refl refl refl (omega arith)
      (omega arith) create-IsValid (omega (arith, available_space-create))
