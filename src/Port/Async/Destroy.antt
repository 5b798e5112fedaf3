-- ===== src/Port/Async/Destroy.antt =====
-- `~IcomIQPort()` of a port whose reader runs, in src/IcomIQPort.cpp: the destructor aborts the
-- reads, and joins the reader if the port still says that it runs; it does not tell it to stop.
use ic7610iq.Prelude.{
  ℕ, ◌%◌, true, false, ◌&&◌, List, ltb, leb, ◌==◌, length, none, some, Outcome, returns, ◌>>◌, pure,
  throw, Error, ◌≡◌, refl, subst, Ends, Ends-bind, Ends-if, Ends-require, Ends-any, ◌⊎◌, inl, inr,
  ap, ◌∙◌,
}
use ic7610iq.Common.{ft_ok, ft_timeout, bytes_per_sample, iq_block_length}
use ic7610iq.Driver.{Ftd3xx}
use ic7610iq.Ring.{Ring, Step, blocks, faults, runs, writebuf}
use ic7610iq.Port.{Port}
use ic7610iq.Port.Device.{destroy_request, destroy_finish}
use ic7610iq.Port.Device.Frame.{destroy_request-OnlyWorld}
use ic7610iq.Port.Async.{
  Worker, starting, looping, reading, waiting, stopping, finished, stop_request, queue_read, store,
  worker_start, worker_test, worker_read, worker_step,
}
use ic7610iq.Port.Async.Flags.{
  Flags, ReaderFlags, as_told, told_itself, worker_step-Flags, worker_stop-throws,
}
use ic7610iq.Port.Async.System.{System}

-- Where the destructor stands: before its body, in its join, or at its end.
pub data Destructor : Type 0 where
  entered joining closed : Destructor

-- The destructor beside the reader thread. Without `_running` there is no join.
pub data DestroyTurn {W : Type 0} (ft : Ftd3xx W)
    : System W → Destructor → System W → Destructor → Type 0 where
  abort_turn :
      (s : System W) (p : Port W)
      → destroy_request ft s.port ≡ returns tt p
      → DestroyTurn ft s entered (record s { port = p }) joining
  join_turn :
      (s : System W) (p : Port W)
      → s.port.running ≡ true
      → s.reader ≡ some finished
      → destroy_finish ft s.port ≡ returns tt p
      → DestroyTurn ft s joining (record { port = p; reader = none }) closed
  no_join_turn :
      (s : System W) (p : Port W)
      → s.port.running ≡ false
      → destroy_finish ft s.port ≡ returns tt p
      → DestroyTurn ft s joining (record s { port = p }) closed
  reader_turn :
      (s : System W) (d : Destructor) (w w' : Worker) (p : Port W)
      → s.reader ≡ some w
      → worker_step ft w s.port ≡ returns w' p
      → DestroyTurn ft s d (record { port = p; reader = some w' }) d

pub data DestroyTurns {W : Type 0} (ft : Ftd3xx W) (s : System W) (d : Destructor)
    : System W → Destructor → Type 0 where
  no_turn : DestroyTurns ft s d s d
  then_turn :
      {t u : System W} {e f : Destructor}
      → DestroyTurns ft s d t e
      → DestroyTurn ft t e u f
      → DestroyTurns ft s d u f

-- A reader that has not ended.
abbrev pub Unfinished : Worker → Type 0
Unfinished starting = Unit
Unfinished looping = Unit
Unfinished reading = Unit
Unfinished (waiting bytes) = Unit
Unfinished stopping = Unit
Unfinished finished = ⊥

abbrev pub RunningPort : {W : Type 0} → Port W → Type 0
RunningPort p = (p.running ≡ true) × (p.joinable ≡ true)

-- A reader that has not ended, in a thread that is to be joined, on a port that says that it runs.
abbrev pub Running : {W : Type 0} → System W → Type 0
Running s = (w : Worker) × (s.reader ≡ some w) × Unfinished w × RunningPort s.port

abbrev pub Unclosed : Destructor → Type 0
Unclosed entered = Unit
Unclosed joining = Unit
Unclosed closed = ⊥

-- The reader has not ended, and its thread is to be joined; and the port says that it runs and the
-- destructor is not at its end, or the port does not and the reader is before its own join.
abbrev pub Lingers : {W : Type 0} → System W → Destructor → Type 0
Lingers s d =
    (w : Worker) × (s.reader ≡ some w)
    × Unfinished w
    × (s.port.joinable ≡ true)
    × (((s.port.running ≡ true) × Unclosed d) ⊎ ((s.port.running ≡ false) × (w ≡ stopping)))

abbrev StillThere : {W : Type 0} → Outcome (Port W) Worker → Type 0
StillThere = Ends (λ w p. Unfinished w)

module _ {W : Type 0} (ft : Ftd3xx W) where
  stored :
      (bytes : List ℕ) (p : Port W) (r : Step (ℕ × Ring))
      → writebuf bytes (length bytes) p.iq_buffer ≡ r
      → StillThere (store ft bytes p)
  unfolding store queue_read
  stored bytes p blocks e = rw (e, store) tt
  stored bytes p faults e = rw (e, store) tt
  stored bytes p (runs (n, ring)) e = rw (e, store) tt

  store-StillThere : (bytes : List ℕ) (p : Port W) → StillThere (store ft bytes p)
  store-StillThere bytes p = stored bytes p (writebuf bytes (length bytes) p.iq_buffer) refl

  worker_read-StillThere : (p : Port W) → StillThere (worker_read ft p)
  unfolding worker_read queue_read
  worker_read-StillThere p =
      let ((status, bytes), w) = ft.get_overlapped_result true p.world in
      let q : Port W = record p { world = w } in
      Ends-require (λ w p. Unfinished w) (leb (length bytes) iq_block_length) _ q
        (Ends-if (λ w p. Unfinished w) (status == ft_ok && ltb 0 (length bytes)) _ _ q
          (λ _.
            Ends-if (λ w p. Unfinished w) (length bytes % bytes_per_sample == 0) (store ft bytes)
              (throw Error.bad_block) q (λ _. store-StillThere bytes q) (λ _. tt))
          (λ _.
            Ends-if (λ w p. Unfinished w) (status == ft_timeout) (do queue_read ft; pure looping)
              (do stop_request ft; pure stopping) q (λ _. tt)
              (λ _.
                Ends-bind (λ a r. Unit {0}) (λ w p. Unfinished w) (stop_request ft) _ q (Ends-any _)
                  (λ a r _. tt))))

  worker_step-StillThere :
      (w : Worker) (p : Port W)
      → Unfinished w
      → p.running ≡ true
      → p.joinable ≡ true
      → StillThere (worker_step ft w p)
  unfolding worker_step worker_start worker_test queue_read
  worker_step-StillThere starting p u on j = tt
  worker_step-StillThere looping p u on j = rw on tt
  worker_step-StillThere reading p u on j = worker_read-StillThere p
  worker_step-StillThere (waiting bytes) p u on j = store-StillThere bytes p
  worker_step-StillThere stopping p u on j = worker_stop-throws ft (λ w p. Unfinished w) p j
  worker_step-StillThere finished p u on j = absurd u

  stopping-throws : (p : Port W) → p.joinable ≡ true → Ends (λ w q. ⊥) (worker_step ft stopping p)
  unfolding worker_step
  stopping-throws p j = worker_stop-throws ft (λ w q. ⊥) p j

  aborted :
      (p q : Port W) → destroy_request ft p ≡ returns tt q → (w : W) × (q ≡ record p { world = w })
  aborted p q e =
      subst (Ends (λ a q. (w : W) × (q ≡ record p { world = w }))) e
        (destroy_request-OnlyWorld ft p)

  closed_port :
      (p q : Port W)
      → p.running ≡ false
      → destroy_finish ft p ≡ returns tt q
      → (w : W) × (q ≡ record p { world = w })
  unfolding destroy_finish
  closed_port p q off e = (ft.close p.world, cc (e, off))

  -- Whatever only changes the world, and leaves the destructor open if the port says that it runs.
  at_world :
      (s : System W) (d e : Destructor) (p : Port W)
      → ((w : W) × (p ≡ record s.port { world = w }))
      → (s.port.running ≡ true → Unclosed e)
      → Lingers s d
      → Lingers (record s { port = p }) e
  at_world s d e p (world, same) c (w, r, u, j, k) = (
    w,
    r,
    u,
    ap (λ q. q.joinable) same ∙ j,
    elim k [
      | inl (on, c') ↦ inl (ap (λ q. q.running) same ∙ on, c on)
      | inr (off, before) ↦ inr (ap (λ q. q.running) same ∙ off, before)
    ],
  )

  told :
      (w : Worker) (p : Port W) (d : Destructor)
      → Unclosed d
      → ReaderFlags true w p
      → (p.joinable ≡ true)
        × (((p.running ≡ true) × Unclosed d) ⊎ ((p.running ≡ false) × (w ≡ stopping)))
  told w p d c (as_told h) = (h.thread, inl (h.flag, c))
  told w p d c (told_itself s h) = (h.thread, inr (h.flag, s))

  DestroyTurn-Lingers :
      {s t : System W} {d e : Destructor} → DestroyTurn ft s d t e → Lingers s d → Lingers t e
  DestroyTurn-Lingers (abort_turn s p e) l =
      at_world s entered joining p (aborted s.port p e) (λ _. tt) l
  DestroyTurn-Lingers (join_turn s p on r e) (w, r', u, j, k) =
      let done : w ≡ finished = cc in absurd (subst Unfinished done u)
  DestroyTurn-Lingers (no_join_turn s p off e) l =
      at_world s joining closed p (closed_port s.port p off e) (λ on. absurd (cc (on, off))) l
  DestroyTurn-Lingers (reader_turn s d w w' p r e) (v, r', u, j, inl (on, c)) =
      let u' : Unfinished w = subst Unfinished (cc (r)) u in
      let h : Flags true true s.port = record { thread = j; flag = on } in
      let (j', k') =
        told w' p d c
          (subst (Ends (ReaderFlags true)) e (worker_step-Flags ft w s.port (as_told h))) in
      (w', refl, subst StillThere e (worker_step-StillThere w s.port u' on j), j', k')
  DestroyTurn-Lingers (reader_turn s d w w' p r e) (v, r', u, j, inr (off, before)) =
      let same : w ≡ stopping = cc (r, r', before) in
      let e' : worker_step ft stopping s.port ≡ returns w' p =
        subst (λ w. worker_step ft w s.port ≡ returns w' p) same e in
      absurd (subst (Ends (λ _ _. ⊥)) e' (stopping-throws s.port j))

  -- When the reader of a port has not ended, in a thread that is to be joined, and the port says that
  -- it runs, then the destructor of the port never joins the reader, whatever turns it and the reader
  -- take and whatever the library answers: the reader does not end, and its thread is still to be
  -- joined. As long as the port says that it runs, the destructor does not come to its end; it may
  -- come there only when a read has failed and the reader, before its own join, has turned that off.
  pub destroy-Lingers :
      (s t : System W) (d : Destructor) → Running s → DestroyTurns ft s entered t d → Lingers t d
  destroy-Lingers s _ _ (w, r, u, (on, j)) no_turn = (w, r, u, j, inl (on, tt))
  destroy-Lingers s t d k (then_turn {t = u} {e = e} turns turn) =
      DestroyTurn-Lingers turn (destroy-Lingers s u e k turns)
