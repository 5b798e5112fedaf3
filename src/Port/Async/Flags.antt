-- ===== src/Port/Async/Flags.antt =====
-- The thread of a port and its `_running` flag: what keeps them, and what changes them, in
-- src/IcomIQPort.cpp.
use ic7610iq.Prelude.{
  ℕ, Bool, true, false, List, length, modify, ◌≡◌, refl, sym, ◌∙◌, subst, Ends, Ends-bind, Ends-if,
  Ends-weaken, Keeps, keeps_rules, throw, pure, Error, ◌%◌, ◌&&◌, ltb, leb, ◌==◌, Ends-require,
  ◌>>=◌, ◌>>◌,
}
use ic7610iq.Common.{ft_ok, ft_timeout, bytes_per_sample, iq_block_length}
use ic7610iq.Driver.{Ftd3xx}
use ic7610iq.Ring.{Ring, Step, blocks, faults, runs, writebuf}
use ic7610iq.Port.{Port, call}
use ic7610iq.Port.Command.{icom_iq_command}
use ic7610iq.Port.Command.Frame.{icom_iq_command-OnlyWorld}
use ic7610iq.Port.Device.{enable_iq_data, disable_iq_data}
use ic7610iq.Port.Async.{
  Worker, starting, looping, reading, waiting, stopping, finished, start_enabled, stop_request,
  stop_finish, queue_read, store, worker_start, worker_test, worker_read, self_join, worker_stop,
  worker_step,
}

-- Whether there is a thread to join, and whether the port says that it runs.
pub record Flags {W : Type 0} (joinable running : Bool) (p : Port W) : Type 0 where
  pub thread : p.joinable ≡ joinable
  pub flag : p.running ≡ running

module _ {W : Type 0} {j r : Bool} where
  -- What keeps both keeps the predicate.
  pub Flags-same :
      (p q : Port W) → q.joinable ≡ p.joinable → q.running ≡ p.running → Flags j r p → Flags j r q
  Flags-same p q t o h = record { thread = t ∙ h.thread; flag = o ∙ h.flag }

  pub Flags-call : {A : Type 0} (f : W → A × W) → Keeps (Flags j r) (call f)
  Flags-call f = record {
    at = λ p h. Flags-same p (record p { world = (f p.world).1 }) refl refl h;
  }

  pub Flags-change :
      (f : Port W → Port W)
      → ((p : Port W) → ((f p).joinable ≡ p.joinable) × ((f p).running ≡ p.running))
      → Keeps (Flags j r) (modify f)
  Flags-change f same = record { at = λ p h. Flags-same p (f p) (same p).0 (same p).1 h }

  pub icom_iq_command-Flags :
      (ft : Ftd3xx W) (cmd reply : List ℕ) → Keeps (Flags j r) (icom_iq_command ft cmd reply)
  icom_iq_command-Flags ft cmd reply = record {
    at = λ p h.
        Ends-weaken (λ a q. (w : W) × (q ≡ record p { world = w })) (λ a q. Flags j r q) _
          (icom_iq_command-OnlyWorld ft cmd reply p)
          (λ a q (w, e).
            subst (Flags j r) (sym e) (Flags-same p (record p { world = w }) refl refl h));
  }

ruleset flags_rules = (keeps_rules, Flags-call, Flags-change, icom_iq_command-Flags)

module _ {W : Type 0} (ft : Ftd3xx W) where
  enable_iq_data-Flags : {j r : Bool} (source : ℕ) → Keeps (Flags j r) (enable_iq_data ft source)
  unfolding enable_iq_data
  enable_iq_data-Flags source = search flags_rules depth 12

  disable_iq_data-Flags : {j r : Bool} → Keeps (Flags j r) (disable_iq_data ft)
  unfolding disable_iq_data
  disable_iq_data-Flags = search flags_rules depth 12

  pub start_enabled-Flags : {j r : Bool} (vfo : ℕ) → Keeps (Flags j r) (start_enabled ft vfo)
  unfolding start_enabled
  start_enabled-Flags vfo = search (flags_rules, enable_iq_data-Flags) depth 12

  -- Without a thread it has none to join, and stays off.
  pub stop_finish-Flags :
      {j r : Bool} (p : Port W) → Flags j r p → Ends (λ a q. Flags false r q) (stop_finish ft p)
  unfolding stop_finish
  stop_finish-Flags p h =
      disable_iq_data-Flags.at (record p { joinable = false })
        (record { thread = refl; flag = h.flag })

  -- A request to stop turns `_running` off, and joins nothing.
  pub stop_request-Flags :
      {j r : Bool} (p : Port W) → Flags j r p → Ends (λ a q. Flags j false q) (stop_request ft p)
  unfolding stop_request
  stop_request-Flags {j = j} p h =
      Ends-if (λ a q. Flags j false q) p.has_handle _ (pure tt) (record p { running = false })
        (λ _. record { thread = h.thread; flag = refl })
        (λ _. record { thread = h.thread; flag = refl })

-- There is a thread to join, and the port says that it runs as `running` does; or a failed read has
-- turned that off, and the reader is about to join itself.
pub data ReaderFlags {W : Type 0} (running : Bool) (w : Worker) (p : Port W) : Type 0 where
  as_told : Flags true running p → ReaderFlags running w p
  told_itself : w ≡ stopping → Flags true false p → ReaderFlags running w p

module _ {W : Type 0} {r : Bool} where
  -- Either way there is a thread to join.
  pub ReaderFlags-thread : {w : Worker} {p : Port W} → ReaderFlags r w p → p.joinable ≡ true
  ReaderFlags-thread (as_told h) = h.thread
  ReaderFlags-thread (told_itself s h) = h.thread

module _ {W : Type 0} where
  -- A port that was told to be off is off.
  pub ReaderFlags-off : {w : Worker} {p : Port W} → ReaderFlags false w p → Flags true false p
  ReaderFlags-off (as_told h) = h
  ReaderFlags-off (told_itself s h) = h

module _ {W : Type 0} (ft : Ftd3xx W) where
  -- In a thread that is to be joined its own join does not return to the reader.
  pub worker_stop-throws :
      (P : Worker → Port W → Type 0) (p : Port W) → p.joinable ≡ true → Ends P (worker_stop ft p)
  unfolding worker_stop self_join
  worker_stop-throws P p j = rw j tt

module _ {W : Type 0} (ft : Ftd3xx W) {r : Bool} where
  stored :
      (bytes : List ℕ) (p : Port W) (step : Step (ℕ × Ring))
      → Flags true r p
      → writebuf bytes (length bytes) p.iq_buffer ≡ step
      → Ends (ReaderFlags r) (store ft bytes p)
  unfolding store queue_read
  stored bytes p blocks h e = rw (e, store) (as_told h)
  stored bytes p faults h e = rw (e, store) tt
  stored bytes p (runs (n, ring)) h e =
      rw (e, store) (as_told (record { thread = h.thread; flag = h.flag }))

  store-Flags :
      (bytes : List ℕ) (p : Port W) → Flags true r p → Ends (ReaderFlags r) (store ft bytes p)
  store-Flags bytes p h = stored bytes p (writebuf bytes (length bytes) p.iq_buffer) h refl

  worker_test-Flags : (p : Port W) → Flags true r p → Ends (ReaderFlags r) (worker_test ft p)
  unfolding worker_test
  worker_test-Flags p h =
      Ends-if (ReaderFlags r) p.running (pure reading)
        (do _ ← call ft.release_overlapped; pure finished) p (λ _. as_told h)
        (λ _. as_told (record { thread = h.thread; flag = h.flag }))

  worker_read-Flags : (p : Port W) → Flags true r p → Ends (ReaderFlags r) (worker_read ft p)
  unfolding worker_read queue_read
  worker_read-Flags p h =
      let ((status, bytes), w) = ft.get_overlapped_result true p.world in
      let q : Port W = record p { world = w } in
      let k : Flags true r q = record { thread = h.thread; flag = h.flag } in
      Ends-require (ReaderFlags r) (leb (length bytes) iq_block_length) _ q (
        Ends-if (ReaderFlags r) (status == ft_ok && ltb 0 (length bytes)) _ _ q
          (λ _.
            Ends-if (ReaderFlags r) (length bytes % bytes_per_sample == 0) (store ft bytes)
              (throw Error.bad_block) q (λ _. store-Flags bytes q k) (λ _. tt))
          (λ _.
            Ends-if (ReaderFlags r) (status == ft_timeout) (do queue_read ft; pure looping)
              (do stop_request ft; pure stopping) q
              (λ _. as_told (record { thread = h.thread; flag = h.flag }))
              (λ _.
                Ends-bind (λ a q. Flags true false q) (ReaderFlags r) (stop_request ft) _ q
                  (stop_request-Flags ft q k) (λ a q e. told_itself refl e))))

  -- A turn of a reader in a thread that is to be joined leaves the thread so, and turns the port off
  -- only to stop.
  pub worker_step-Flags :
      (w : Worker) (p : Port W) → ReaderFlags r w p → Ends (ReaderFlags r) (worker_step ft w p)
  unfolding worker_step worker_start queue_read
  worker_step-Flags starting p (as_told h) = as_told (record { thread = h.thread; flag = h.flag })
  worker_step-Flags looping p (as_told h) = worker_test-Flags p h
  worker_step-Flags reading p (as_told h) = worker_read-Flags p h
  worker_step-Flags (waiting bytes) p (as_told h) = store-Flags bytes p h
  worker_step-Flags stopping p h = worker_stop-throws ft (ReaderFlags r) p (ReaderFlags-thread h)
  worker_step-Flags finished p (as_told h) = as_told h
  worker_step-Flags w p (told_itself s h) =
      subst (λ w. Ends (ReaderFlags r) (worker_step ft w p)) (sym s)
        (worker_stop-throws ft (ReaderFlags r) p h.thread)
