-- ===== src/Tools/Client.antt =====
-- The whole of TCPClient (Tools/IC7610TCPClient.cpp): its options, its operands and its connection, on a
-- port that is new, and then what `handleClient` of TCPServer does too, on that one socket: the start of
-- the reader, the loop that sends, the stop, and the close.
pub mod Settled
pub mod Ending
pub mod Defined
mod Tests
use ic7610iq.Prelude.{ℕ, false, none, some, List, String, Option, returns, ◌≡◌}
use ic7610iq.Driver.{Ftd3xx}
use ic7610iq.Port.{Port, new_port}
use ic7610iq.Port.Async.{Worker, worker_step}
use ic7610iq.Port.Async.System.{System}
use ic7610iq.Tools.{Letter, Numbers, Settings}
use ic7610iq.Tools.Net.{Net}
use ic7610iq.Tools.Programs.{connected, client_prepare}
use ic7610iq.Tools.Server.{Client, arrived, ClientTurn}

-- A turn of `main` or of the reader.
pub data MainTurn {W : Type 0} (ft : Ftd3xx W) (net : Net W) (vfo socket : ℕ) (s : System W)
    : Client → System W → Client → Type 0 where
  main_turn :
      (c d : Client) (t : System W)
      → ClientTurn ft net vfo socket s c t d
      → MainTurn ft net vfo socket s c t d
  worker_turn :
      (c : Client) (w w' : Worker) (p : Port W)
      → s.reader ≡ some w
      → worker_step ft w s.port ≡ returns w' p
      → MainTurn ft net vfo socket s c (record { port = p; reader = some w' }) c

pub data MainTurns {W : Type 0} (ft : Ftd3xx W) (net : Net W) (vfo socket : ℕ) (s : System W)
    (c : Client) : System W → Client → Type 0 where
  no_turn : MainTurns ft net vfo socket s c s c
  then_turn :
      {t u : System W} {d e : Client}
      → MainTurns ft net vfo socket s c t d
      → MainTurn ft net vfo socket t d u e
      → MainTurns ft net vfo socket s c u e

-- What `main` may come to on these options and operands, in the world `w`, and where it stands then.
-- `iqPort` is a global object, so its handle is null. `find` tries the addresses of the host.
pub data MainRun {W : Type 0} (numbers : Numbers) (ft : Ftd3xx W) (net : Net W)
    (find : List ℕ → W → Option ℕ × W) (options : List (Letter × String)) (operands : List String)
    (w : W) (t : System W) (c : Client) : Type 0 where
  ran :
      (s : Settings) (socket : ℕ) (p : Port W)
      → client_prepare numbers ft net find options operands (new_port false w)
        ≡ returns (connected socket s) p
      → MainTurns ft net s.vfo socket (record { port = p; reader = none }) arrived t c
      → MainRun numbers ft net find options operands w t c
