-- ===== src/Tools/Client/Ending.antt =====
-- How TCPClient (Tools/IC7610TCPClient.cpp) comes to its end once it has asked its reader to stop, and
-- when it does not.
use ic7610iq.Prelude.{ℕ, true, none, some, ◌≡◌}
use ic7610iq.Driver.{Ftd3xx}
use ic7610iq.Ring.Inv.{IsValid}
use ic7610iq.Port.Unstarted.{Unstarted}
use ic7610iq.Port.{Port}
use ic7610iq.Port.Async.{Worker}
use ic7610iq.Port.Async.Stopping.{stopped, Lost}
use ic7610iq.Port.Async.Flags.{Flags}
use ic7610iq.Port.Async.System.{
  System, Turns, no_turn as no_port_turn, then_turn as then_port_turn, reader_turn,
  Turns-SoundSystem, Turns-append,
}
use ic7610iq.Tools.Net.{Net}
use ic7610iq.Tools.Server.{Client, arrived, stopped as after_stop}
use ic7610iq.Tools.Server.Safe.{Sized, ClientTurn-Turns}
use ic7610iq.Tools.Client.{MainTurns, no_turn, then_turn, main_turn, worker_turn}

-- The reader, in a thread that is to be joined, does not return, or is in a read behind which it does
-- not, or which ends the program.
abbrev pub LostReader : {W : Type 0} → Ftd3xx W → System W → Type 0
LostReader ft s = (w : Worker) × (s.reader ≡ some w) × Lost ft w s.port × (s.port.joinable ≡ true)

module _ {W : Type 0} (ft : Ftd3xx W) (net : Net W) (vfo socket : ℕ) where
  -- What `main` and its reader do is a history of the port's system.
  pub MainTurns-Turns :
      (s : System W) (t : System W) (c : Client)
      → IsValid s.port.iq_buffer
      → s.reader ≡ none
      → MainTurns ft net vfo socket s arrived t c
      → Turns ft s t × Sized (socket, c)
  MainTurns-Turns s _ _ v r no_turn = (no_port_turn, tt)
  MainTurns-Turns s t c v r (then_turn {t = u} {d = d} turns (main_turn _ _ _ turn)) =
      let (q, z) = MainTurns-Turns s u d v r turns in
      let (v', whole) = Turns-SoundSystem ft s u v r q in
      let (q', z') = ClientTurn-Turns ft net vfo socket u v' z turn in (Turns-append ft q q', z')
  MainTurns-Turns s t c v r (then_turn {t = u} {d = d} turns (worker_turn _ w w' p k e)) =
      let (q, z) = MainTurns-Turns s u d v r turns in
      (then_port_turn q (reader_turn u w w' p k e), z)
