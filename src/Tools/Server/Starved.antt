-- ===== src/Tools/Server/Starved.antt =====
-- A reader thread that has its first turns before `iqAsyncStart` sets `_running`: it ends at once,
-- and the port says for good that it runs.
use ic7610iq.Prelude.{ℕ, ◌<◌, true, false, some, List, [], ◌∷◌, ◌≡◌, refl, All}
use ic7610iq.Driver.{Ftd3xx}
use ic7610iq.Ring.{available_data}
use ic7610iq.Port.{Port}
use ic7610iq.Port.Async.{starting, looping, finished}
use ic7610iq.Port.Async.Turns.{worker_step-starting, worker_step-stops, set_running_lem}
use ic7610iq.Port.Async.System.{System}
use ic7610iq.Tools.Net.{Net, num_samples, new_buf}
use ic7610iq.Tools.Server.{
  Client, arrived, spawned, serving, leaving, joining, stopped, left, Server, announce, client_turn,
  worker_turn, ThreadTurns, no_turn, then_turn,
}

-- A client before `iqAsyncStart`, or in its loop.
abbrev pub Idle : ℕ × Client → Type 0
Idle (socket, arrived) = Unit
Idle (socket, spawned) = ⊥
Idle (socket, serving buf) = Unit
Idle (socket, leaving) = ⊥
Idle (socket, joining) = ⊥
Idle (socket, stopped) = ⊥
Idle (socket, left) = ⊥

-- The reader has ended, the port says that it runs, and there is less than a block to read.
pub record Starved {W : Type 0} (s : System W) : Type 0 where
  pub ended : s.reader ≡ some finished
  pub flag : s.port.running ≡ true
  pub few : available_data s.port.iq_buffer < num_samples

module _ {W : Type 0} (ft : Ftd3xx W) (net : Net W) (vfo : ℕ) where
  -- When a client is in `iqAsyncStart`, with the thread made and `_running` not yet set, the others
  -- are before theirs or in their loops, and less than a block is unread, the threads may take turns
  -- after which the reader has ended while the port says that it runs, and every client is before
  -- `iqAsyncStart` or in its loop.
  pub early_reader-Starved :
      (s : Server W) (socket : ℕ) (rest : List (ℕ × Client))
      → s.clients ≡ (socket, spawned) ∷ rest
      → All Idle rest
      → s.system.reader ≡ some starting
      → s.system.port.running ≡ false
      → available_data s.system.port.iq_buffer < num_samples
      → (t : Server W) × ThreadTurns ft net vfo s t × Starved t.system × All Idle t.clients
  early_reader-Starved s socket rest c i r off few =
      let (w1, e1) = worker_step-starting ft s.system.port in
      let p1 : Port W = record s.system.port { world = w1 } in
      let (w2, e2) = worker_step-stops ft p1 off in
      let p2 : Port W = record p1 { world = w2 } in
      let s1 : Server W = record s { system = record { port = p1; reader = some looping } } in
      let s2 : Server W = record s { system = record { port = p2; reader = some finished } } in
      let p3 : Port W = record p2 { running = true } in
      (
        record {
          system = record { port = p3; reader = some finished };
          clients = (socket, serving new_buf) ∷ rest;
        },
        then_turn
            (then_turn (then_turn no_turn (worker_turn starting looping p1 r e1))
              (worker_turn looping finished p2 refl e2))
            (client_turn [] rest socket spawned (serving new_buf)
              (record { port = p3; reader = some finished }) c
              (announce p3 (set_running_lem ft p2))),
        record { ended = refl; flag = refl; few = few },
        (tt, i),
      )
