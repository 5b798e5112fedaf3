-- ===== src/Tools/Server/Stranded.antt =====
-- A client that ends takes the reader thread from the others: `iqAsyncStop` and `iqClearReadBuf` in
-- `handleClient` of Tools/IC7610TCPServer.cpp are calls on the port that all clients share.
use ic7610iq.Prelude.{ℕ}
use ic7610iq.Port.{Port}
use ic7610iq.Port.Async.System.{System}
use ic7610iq.Tools.Net.{Net}
use ic7610iq.Tools.Server.{
  Client, arrived, spawned, serving, leaving, joining, stopped, left, Server,
}

-- A client in its loop, or one that has returned.
abbrev pub Settled : ℕ × Client → Type 0
Settled (socket, arrived) = ⊥
Settled (socket, spawned) = ⊥
Settled (socket, serving buf) = Unit
Settled (socket, leaving) = ⊥
Settled (socket, joining) = ⊥
Settled (socket, stopped) = ⊥
Settled (socket, left) = Unit
