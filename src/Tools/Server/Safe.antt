-- ===== src/Tools/Server/Safe.antt =====
-- What a thread that serves a client does to the port (`handleClient` of Tools/IC7610TCPServer.cpp, and
-- `main` of Tools/IC7610TCPClient.cpp) is turns of the port's system.
use ic7610iq.Prelude.{
  ℕ, ◌*◌, Bool, true, false, List, length, length-replicate, ◌≡◌, sym, subst, arith,
}
use ic7610iq.Common.{bytes_per_sample}
use ic7610iq.Driver.{Ftd3xx}
use ic7610iq.Ring.{runs}
use ic7610iq.Ring.Inv.{IsValid}
use ic7610iq.Port.{Port}
use ic7610iq.Port.Data.{iq_clear_read_buf}
use ic7610iq.Port.Async.System.{
  System, Turns, no_turn, then_turn, spawn_turn, running_turn, refused_turn, stop_turn, join_turn,
  unjoined_turn, read_turn, clear_turn, world_turn,
}
use ic7610iq.Tools.Net.{Net, num_samples, serve_close}
use ic7610iq.Tools.Net.Rounds.{Rounded, send_round-Rounded}
use ic7610iq.Tools.Server.{
  Client, arrived, spawned, serving, leaving, joining, stopped, left, ClientTurn, spawn, announce,
  refuse, round, last_round, request, join, no_join, close,
}

-- A client that serves has a buffer of 1024 samples.
abbrev pub Sized : ℕ × Client → Type 0
Sized (socket, arrived) = Unit
Sized (socket, spawned) = Unit
Sized (socket, serving buf) = length buf ≡ num_samples * bytes_per_sample
Sized (socket, leaving) = Unit
Sized (socket, joining) = Unit
Sized (socket, stopped) = Unit
Sized (socket, left) = Unit

module _ {W : Type 0} (ft : Ftd3xx W) (net : Net W) (vfo : ℕ) where
  round-Turns :
      (s : System W) (go : Bool) (buf out : List ℕ) (p : Port W)
      → length buf ≡ num_samples * bytes_per_sample
      → Rounded buf s.port (runs (go, out, p))
      → Turns ft s (record s { port = p })
  round-Turns s go buf out p size (long, samples, r, w, e, e') =
      subst (λ q. Turns ft s (record s { port = q })) (sym e')
        (then_turn
          (then_turn no_turn (read_turn s buf out num_samples samples r (omega (arith, size)) e))
          (world_turn (record s { port = r }) w))

  -- A client's turn is turns of the system, and keeps the size of its buffer.
  pub ClientTurn-Turns :
      {t : System W} {c c' : Client} (socket : ℕ) (s : System W)
      → IsValid s.port.iq_buffer
      → Sized (socket, c)
      → ClientTurn ft net vfo socket s c t c'
      → Turns ft s t × Sized (socket, c')
  unfolding serve_close
  ClientTurn-Turns socket s v z (spawn p q r e e') =
      (then_turn no_turn (spawn_turn s vfo p q r e e'), tt)
  ClientTurn-Turns socket s v z (announce p e) =
      (then_turn no_turn (running_turn s p e), length-replicate {A = ℕ} _ 0)
  ClientTurn-Turns socket s v z (refuse p e) =
      (then_turn no_turn (refused_turn s vfo p e), length-replicate {A = ℕ} _ 0)
  ClientTurn-Turns socket s v z (round buf out p e) =
      let k : Rounded buf s.port (runs (true, out, p)) =
        subst (Rounded buf s.port) e (send_round-Rounded net socket buf s.port v z) in
      (round-Turns s true buf out p z k, k.0)
  ClientTurn-Turns socket s v z (last_round buf out p e) =
      let k : Rounded buf s.port (runs (false, out, p)) =
        subst (Rounded buf s.port) e (send_round-Rounded net socket buf s.port v z) in
      (round-Turns s false buf out p z k, tt)
  ClientTurn-Turns socket s v z (request p e) = (then_turn no_turn (stop_turn s p e), tt)
  ClientTurn-Turns socket s v z (join p r e) = (then_turn no_turn (join_turn s p r e), tt)
  ClientTurn-Turns socket s v z (no_join p j e) = (then_turn no_turn (unjoined_turn s p j e), tt)
  ClientTurn-Turns socket s v z (close p e) =
      let q : Port W = iq_clear_read_buf s.port in
      let same : record q { world = net.close_socket socket q.world } ≡ p = cc e in
      (
        subst (λ r. Turns ft s (record s { port = r })) same
            (then_turn (then_turn no_turn (clear_turn s))
              (world_turn (record s { port = q }) (net.close_socket socket q.world))),
        tt,
      )
