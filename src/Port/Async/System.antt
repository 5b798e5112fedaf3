-- ===== src/Port/Async/System.antt =====
-- The reader thread and its clients as one system: they share the port, and the ring in it, and
-- take turns in any order. An exception in the thread ends the program, so no turn follows it.
use ic7610iq.Prelude.{
  ℕ, ◌*◌, ◌/◌, ◌≤◌, ◌<◌, ℤ, true, false, Option, none, some, List, length, Outcome, returns, ◌≡◌,
  sym, subst, Ends,
}
use ic7610iq.Common.{bytes_per_sample}
use ic7610iq.Driver.{Ftd3xx}
use ic7610iq.Ring.{runs, available_space}
use ic7610iq.Ring.Inv.{IsValid}
use ic7610iq.Port.{Port}
use ic7610iq.Port.Data.{iq_read_buf, iq_clear_read_buf}
use ic7610iq.Port.Data.Reads.{iq_read_buf-IsValid, iq_clear_read_buf-IsValid}
use ic7610iq.Port.Async.{
  Worker, starting, waiting, finished, worker_step, worker_steps, start_enabled, start_thread,
  set_running, stop_request, stop_finish,
}
use ic7610iq.Port.Async.Turns.{
  Whole, Sound, worker_step-Sound, worker_steps-waits, start_enabled-KeepsRing,
  start_thread-KeepsRing, set_running-KeepsRing, stop_request-KeepsRing, stop_finish-KeepsRing,
}

pub record System (W : Type 0) : Type 0 where
  pub port : Port W
  -- the reader thread, if there is one
  pub reader : Option Worker

-- A client is inside `iqAsyncStart` between a `spawn_turn` and its `running_turn`, and inside
-- `iqAsyncStop` between a `stop_turn` and the turn that ends its join; the other calls are one step.
pub data Turn {W : Type 0} (ft : Ftd3xx W) : System W → System W → Type 0 where
  reader_turn :
      (s : System W) (w w' : Worker) (p : Port W)
      → s.reader ≡ some w
      → worker_step ft w s.port ≡ returns w' p
      → Turn ft s (record { port = p; reader = some w' })
  spawn_turn :
      (s : System W) (vfo : ℕ) (p q : Port W)
      → s.reader ≡ none
      → start_enabled ft vfo s.port ≡ returns true p
      → start_thread ft p ≡ returns tt q
      → Turn ft s (record { port = q; reader = some starting })
  running_turn :
      (s : System W) (p : Port W)
      → set_running ft s.port ≡ returns tt p
      → Turn ft s (record s { port = p })
  refused_turn :
      (s : System W) (vfo : ℕ) (p : Port W)
      → start_enabled ft vfo s.port ≡ returns false p
      → Turn ft s (record s { port = p })
  stop_turn :
      (s : System W) (p : Port W)
      → stop_request ft s.port ≡ returns tt p
      → Turn ft s (record s { port = p })
  join_turn :
      (s : System W) (p : Port W)
      → s.reader ≡ some finished
      → stop_finish ft s.port ≡ returns tt p
      → Turn ft s (record { port = p; reader = none })
  -- Without a thread to join.
  unjoined_turn :
      (s : System W) (p : Port W)
      → s.port.joinable ≡ false
      → stop_finish ft s.port ≡ returns tt p
      → Turn ft s (record s { port = p })
  read_turn :
      (s : System W) (destination out : List ℕ) (count : ℕ) (samples : ℤ) (p : Port W)
      → count * bytes_per_sample ≤ length destination
      → iq_read_buf destination count s.port ≡ runs (out, samples, p)
      → Turn ft s (record s { port = p })
  clear_turn : (s : System W) → Turn ft s (record s { port = iq_clear_read_buf s.port })
  -- What a client does elsewhere, such as sending.
  world_turn : (s : System W) (w : W) → Turn ft s (record s { port = record s.port { world = w } })

pub data Turns {W : Type 0} (ft : Ftd3xx W) (s : System W) : System W → Type 0 where
  no_turn : Turns ft s s
  then_turn : {t u : System W} → Turns ft s t → Turn ft t u → Turns ft s u

abbrev pub WholeReader : Option Worker → Type 0
WholeReader none = Unit
WholeReader (some w) = Whole w

-- A valid ring, and whole samples in the hands of the reader.
abbrev pub SoundSystem : {W : Type 0} → System W → Type 0
SoundSystem s = IsValid s.port.iq_buffer × WholeReader s.reader

module _ {W : Type 0} (ft : Ftd3xx W) where
  pub Turns-append : {s t u : System W} → Turns ft s t → Turns ft t u → Turns ft s u
  Turns-append r no_turn = r
  Turns-append r (then_turn q turn) = then_turn (Turns-append r q) turn

  kept :
      {A : Type 0} (p q : Port W) (o : Outcome (Port W) A) (a : A)
      → Ends (λ a q. q.iq_buffer ≡ p.iq_buffer) o
      → o ≡ returns a q
      → IsValid p.iq_buffer
      → IsValid q.iq_buffer
  kept p q o a k e v =
      let same : q.iq_buffer ≡ p.iq_buffer = subst (Ends (λ a q. q.iq_buffer ≡ p.iq_buffer)) e k in
      subst IsValid (sym same) v

  Turn-SoundSystem : {s t : System W} → Turn ft s t → SoundSystem s → SoundSystem t
  Turn-SoundSystem (reader_turn s w w' p r e) (v, whole) =
      let sound : Sound w s.port = (v, subst WholeReader r whole) in
      subst (Ends (λ w q. Sound w q)) e (worker_step-Sound ft w s.port sound)
  Turn-SoundSystem (spawn_turn s vfo p q r e e') (v, whole) =
      let v' : IsValid p.iq_buffer =
        kept s.port p _ true (start_enabled-KeepsRing ft vfo s.port) e v in
      (kept p q _ tt (start_thread-KeepsRing ft p) e' v', tt)
  Turn-SoundSystem (running_turn s p e) (v, whole) =
      (kept s.port p _ tt (set_running-KeepsRing ft s.port) e v, whole)
  Turn-SoundSystem (refused_turn s vfo p e) (v, whole) =
      (kept s.port p _ false (start_enabled-KeepsRing ft vfo s.port) e v, whole)
  Turn-SoundSystem (stop_turn s p e) (v, whole) =
      (kept s.port p _ tt (stop_request-KeepsRing ft s.port) e v, whole)
  Turn-SoundSystem (join_turn s p r e) (v, whole) =
      (kept s.port p _ tt (stop_finish-KeepsRing ft s.port) e v, tt)
  Turn-SoundSystem (unjoined_turn s p j e) (v, whole) =
      (kept s.port p _ tt (stop_finish-KeepsRing ft s.port) e v, whole)
  Turn-SoundSystem (read_turn s destination out count samples p long e) (v, whole) =
      (iq_read_buf-IsValid destination out count samples s.port p v long e, whole)
  Turn-SoundSystem (clear_turn s) (v, whole) = (iq_clear_read_buf-IsValid s.port v, whole)
  Turn-SoundSystem (world_turn s w) sound = sound

  -- From a port with a valid ring and no reader thread, whatever turns the reader thread and its
  -- clients take, in any order and whatever the library answers, the ring is valid, and a reader
  -- that waits for space has whole samples in its hands.
  pub Turns-SoundSystem :
      (s t : System W) → IsValid s.port.iq_buffer → s.reader ≡ none → Turns ft s t → SoundSystem t
  Turns-SoundSystem s _ v r no_turn = (v, subst WholeReader (sym r) tt)
  Turns-SoundSystem s t v r (then_turn turns turn) =
      Turn-SoundSystem turn (Turns-SoundSystem s _ v r turns)

  -- When the reader waits with more samples than the ring has space for, `iqAsyncStop` does not get
  -- past its join by itself: after its request, if that returns, the reader still waits, however
  -- often it is scheduled while no client takes samples.
  pub stop_request-waits :
      (n : ℕ) (bytes : List ℕ) (p q : Port W)
      → available_space p.iq_buffer < length bytes / bytes_per_sample
      → stop_request ft p ≡ returns tt q
      → worker_steps ft n (waiting bytes) q ≡ returns (waiting bytes) q
  stop_request-waits n bytes p q full e =
      let same : q.iq_buffer ≡ p.iq_buffer =
        subst (Ends (λ a q. q.iq_buffer ≡ p.iq_buffer)) e (stop_request-KeepsRing ft p) in
      worker_steps-waits ft n bytes q
        (subst (λ r. available_space r < length bytes / bytes_per_sample) (sym same) full)
