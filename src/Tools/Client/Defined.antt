-- ===== src/Tools/Client/Defined.antt =====
-- TCPClient (Tools/IC7610TCPClient.cpp) never reads or writes outside an object, when the library's reads
-- keep to their sizes.
use ic7610iq.Prelude.{ℕ, Option, none, some, ◌≢◌, IsDefined}
use ic7610iq.Driver.{Ftd3xx}
use ic7610iq.Ring.{faults}
use ic7610iq.Port.{Port}
use ic7610iq.Port.Unstarted.{Unstarted}
use ic7610iq.Port.Async.{Worker, start_enabled, set_running, stop_request, stop_finish, worker_step}
use ic7610iq.Port.Async.System.{System}
use ic7610iq.Tools.Net.{Net, send_round, serve_close}
use ic7610iq.Tools.Server.{Client, arrived, spawned, serving, leaving, joining, stopped, left}

-- The next call of `main`, wherever it stands, reads and writes inside its objects.
abbrev pub ClientDefined : {W : Type 0} → Ftd3xx W → Net W → System W → ℕ × Client → Type 0
ClientDefined ft net s (socket, arrived) = (vfo : ℕ) → IsDefined (start_enabled ft vfo s.port)
ClientDefined ft net s (socket, spawned) = IsDefined (set_running ft s.port)
ClientDefined ft net s (socket, serving buf) = send_round net socket buf s.port ≢ faults
ClientDefined ft net s (socket, leaving) = IsDefined (stop_request ft s.port)
ClientDefined ft net s (socket, joining) = IsDefined (stop_finish ft s.port)
ClientDefined ft net s (socket, stopped) = IsDefined (serve_close net socket s.port)
ClientDefined ft net s (socket, left) = Unit

-- The next turn of the reader does.
abbrev pub ReaderDefined : {W : Type 0} → Ftd3xx W → Port W → Option Worker → Type 0
ReaderDefined ft p none = Unit
ReaderDefined ft p (some w) = IsDefined (worker_step ft w p)
