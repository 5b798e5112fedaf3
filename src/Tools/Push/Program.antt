-- ===== src/Tools/Push/Program.antt =====
-- The whole of zmqPush (Tools/IC7610zmqPush.cpp): its options and its set-up, on a port that is new, and
-- then its loop beside the reader thread.
use ic7610iq.Prelude.{ℕ, true, false, none, some, Option, List, String, returns, ◌≡◌}
use ic7610iq.Driver.{Ftd3xx}
use ic7610iq.Ring.{runs}
use ic7610iq.Port.{Port, new_port}
use ic7610iq.Port.Async.{Worker, starting, worker_step, start_enabled, start_thread, set_running}
use ic7610iq.Port.Async.System.{System}
use ic7610iq.Tools.{Letter, Numbers, Settings, prepared}
use ic7610iq.Tools.Net.{new_buf}
use ic7610iq.Tools.Programs.{push_prepare}
use ic7610iq.Tools.Push.{Counters, no_samples, push_read, push_send}

-- Where `main` stands: before `iqAsyncStart`; in it, with the thread made and `_running` not yet set;
-- at the head of its loop, with its buffer and counters; in its body, with the number of samples that
-- it has read; behind the loop.
pub data Pusher : Type 0 where
  set_up spawned : Pusher
  pushing : List ℕ → Counters → Pusher
  sending : List ℕ → ℕ → Counters → Pusher
  ended : Pusher

-- A turn of `main` or of the reader.
pub data PushTurn {W : Type 0} (ft : Ftd3xx W) (send : List ℕ → W → Option W) (data_type : String)
    (vfo : ℕ) (s : System W) : Pusher → System W → Pusher → Type 0 where
  spawn :
      (p q : Port W)
      → s.reader ≡ none
      → start_enabled ft vfo s.port ≡ returns true p
      → start_thread ft p ≡ returns tt q
      → PushTurn ft send data_type vfo s set_up
          (record { port = q; reader = some starting })
          spawned
  announce :
      (p : Port W)
      → set_running ft s.port ≡ returns tt p
      → PushTurn ft send data_type vfo s spawned
          (record s { port = p })
          (pushing new_buf no_samples)
  -- `iqAsyncStart` returns false, which is not looked at.
  refuse :
      (p : Port W)
      → start_enabled ft vfo s.port ≡ returns false p
      → PushTurn ft send data_type vfo s set_up (record s { port = p }) (pushing new_buf no_samples)
  read_round :
      (buf out : List ℕ) (n : ℕ) (c : Counters) (p : Port W)
      → push_read buf s.port ≡ runs (some n, out, p)
      → PushTurn ft send data_type vfo s (pushing buf c) (record s { port = p }) (sending out n c)
  -- A send that does not return has no turn.
  sent_round :
      (buf : List ℕ) (n : ℕ) (c c' : Counters) (p : Port W)
      → push_send send data_type buf n c s.port ≡ runs (c', p)
      → PushTurn ft send data_type vfo s (sending buf n c) (record s { port = p }) (pushing buf c')
  last_round :
      (buf out : List ℕ) (c : Counters) (p : Port W)
      → push_read buf s.port ≡ runs (none, out, p)
      → PushTurn ft send data_type vfo s (pushing buf c) (record s { port = p }) ended
  worker_turn :
      (d : Pusher) (w w' : Worker) (p : Port W)
      → s.reader ≡ some w
      → worker_step ft w s.port ≡ returns w' p
      → PushTurn ft send data_type vfo s d (record { port = p; reader = some w' }) d

pub data PushTurns {W : Type 0} (ft : Ftd3xx W) (send : List ℕ → W → Option W) (data_type : String)
    (vfo : ℕ) (s : System W) (d : Pusher) : System W → Pusher → Type 0 where
  no_turn : PushTurns ft send data_type vfo s d s d
  then_turn :
      {t u : System W} {e f : Pusher}
      → PushTurns ft send data_type vfo s d t e
      → PushTurn ft send data_type vfo t e u f
      → PushTurns ft send data_type vfo s d u f

-- What `main` may come to on these options, in the world `w`, with the data type that it has settled
-- on. `iqPort` is a global object, so its handle is null.
pub data PushRun {W : Type 0} (numbers : Numbers) (ft : Ftd3xx W) (send : List ℕ → W → Option W)
    (options : List (Letter × String)) (w : W) (data_type : String) (t : System W) (d : Pusher)
    : Type 0 where
  ran :
      (s : Settings) (p : Port W)
      → push_prepare numbers ft options (new_port false w) ≡ returns (prepared s) p
      → s.data_type ≡ data_type
      → PushTurns ft send data_type s.vfo (record { port = p; reader = none }) set_up t d
      → PushRun numbers ft send options w data_type t d
