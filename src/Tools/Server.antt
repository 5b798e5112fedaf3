-- ===== src/Tools/Server.antt =====
-- TCPServer while it runs: the accept loop of `main` and the threads that it makes, each of them a
-- `handleClient` on the one `iqPort` (Tools/IC7610TCPServer.cpp), beside the reader thread. The
-- threads take turns in any order. The two counters of `handleClient`, `int`s that it only prints, are
-- left out, as is their overflow. The client of TCPClient is a server with one connection.
pub mod Safe
pub mod Stuck
pub mod Starved
pub mod Stranded
mod Tests
use ic7610iq.Prelude.{ℕ, true, false, some, none, List, ◌∷◌, ◌++◌, returns, ◌≡◌}
use ic7610iq.Driver.{Ftd3xx}
use ic7610iq.Ring.{runs}
use ic7610iq.Port.{Port}
use ic7610iq.Port.Async.{
  Worker, starting, finished, worker_step, start_enabled, start_thread, set_running, stop_request,
  stop_finish,
}
use ic7610iq.Port.Async.System.{System}
use ic7610iq.Tools.Net.{Net, new_buf, send_round, serve_close}

-- Where a `handleClient` stands: before `iqAsyncStart`; in it, with the thread made and `_running`
-- not yet set; at the head of its loop, with its buffer; behind the loop; in the join of
-- `iqAsyncStop`; behind `iqAsyncStop`; returned.
pub data Client : Type 0 where
  arrived spawned : Client
  serving : List ℕ → Client
  leaving joining stopped left : Client

-- The clients with their sockets, the newest first.
pub record Server (W : Type 0) : Type 0 where
  pub system : System W
  pub clients : List (ℕ × Client)

-- One turn of a client. Where `std::thread` would be assigned to a thread that has not been joined,
-- the program ends, so there is no turn; a client at a read that has to wait has none either.
pub data ClientTurn {W : Type 0} (ft : Ftd3xx W) (net : Net W) (vfo socket : ℕ) (s : System W)
    : Client → System W → Client → Type 0 where
  spawn :
      (p q : Port W)
      → s.reader ≡ none
      → start_enabled ft vfo s.port ≡ returns true p
      → start_thread ft p ≡ returns tt q
      → ClientTurn ft net vfo socket s arrived (record { port = q; reader = some starting }) spawned
  announce :
      (p : Port W)
      → set_running ft s.port ≡ returns tt p
      → ClientTurn ft net vfo socket s spawned (record s { port = p }) (serving new_buf)
  -- `iqAsyncStart` returns false, which is not looked at.
  refuse :
      (p : Port W)
      → start_enabled ft vfo s.port ≡ returns false p
      → ClientTurn ft net vfo socket s arrived (record s { port = p }) (serving new_buf)
  round :
      (buf out : List ℕ) (p : Port W)
      → send_round net socket buf s.port ≡ runs (true, out, p)
      → ClientTurn ft net vfo socket s (serving buf) (record s { port = p }) (serving out)
  last_round :
      (buf out : List ℕ) (p : Port W)
      → send_round net socket buf s.port ≡ runs (false, out, p)
      → ClientTurn ft net vfo socket s (serving buf) (record s { port = p }) leaving
  request :
      (p : Port W)
      → stop_request ft s.port ≡ returns tt p
      → ClientTurn ft net vfo socket s leaving (record s { port = p }) joining
  join :
      (p : Port W)
      → s.reader ≡ some finished
      → stop_finish ft s.port ≡ returns tt p
      → ClientTurn ft net vfo socket s joining (record { port = p; reader = none }) stopped
  no_join :
      (p : Port W)
      → s.port.joinable ≡ false
      → stop_finish ft s.port ≡ returns tt p
      → ClientTurn ft net vfo socket s joining (record s { port = p }) stopped
  close :
      (p : Port W)
      → serve_close net socket s.port ≡ returns tt p
      → ClientTurn ft net vfo socket s stopped (record s { port = p }) left

-- A turn of a client's thread or of the reader's.
pub data ThreadTurn {W : Type 0} (ft : Ftd3xx W) (net : Net W) (vfo : ℕ) (s : Server W)
    : Server W → Type 0 where
  client_turn :
      (before after : List (ℕ × Client)) (socket : ℕ) (c c' : Client) (t : System W)
      → s.clients ≡ before ++ ((socket, c) ∷ after)
      → ClientTurn ft net vfo socket s.system c t c'
      → ThreadTurn ft net vfo s (record { system = t; clients = before ++ ((socket, c') ∷ after) })
  worker_turn :
      (w w' : Worker) (p : Port W)
      → s.system.reader ≡ some w
      → worker_step ft w s.system.port ≡ returns w' p
      → ThreadTurn ft net vfo s (record s { system = record { port = p; reader = some w' } })

pub data ThreadTurns {W : Type 0} (ft : Ftd3xx W) (net : Net W) (vfo : ℕ) (s : Server W)
    : Server W → Type 0 where
  no_turn : ThreadTurns ft net vfo s s
  then_turn :
      {t u : Server W}
      → ThreadTurns ft net vfo s t
      → ThreadTurn ft net vfo t u
      → ThreadTurns ft net vfo s u

-- The loop of `main` may accept a connection between any two turns; an accept that fails changes
-- nothing.
pub data ServerTurns {W : Type 0} (ft : Ftd3xx W) (net : Net W) (vfo : ℕ) (s : Server W)
    : Server W → Type 0 where
  listening : ServerTurns ft net vfo s s
  then_thread :
      {t u : Server W}
      → ServerTurns ft net vfo s t
      → ThreadTurn ft net vfo t u
      → ServerTurns ft net vfo s u
  then_accept :
      {t : Server W} (socket : ℕ)
      → ServerTurns ft net vfo s t
      → ServerTurns ft net vfo s (record t { clients = (socket, arrived) ∷ t.clients })
