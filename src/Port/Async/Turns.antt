-- ===== src/Port/Async/Turns.antt =====
-- What a turn of the reader thread leaves: a valid ring, whatever its reads give.
use ic7610iq.Prelude.{
  ℕ, zero, suc, ◌*◌, ◌/◌, ◌%◌, ◌<◌, true, false, ◌&&◌, ◌||◌, not, List, ltb, leb, leb→le,
  not_leb→lt, ◌==◌, ==_iff, length, returns, ◌>>=◌, ◌>>◌, pure, throw, Error, ◌≡◌, inl, inr, refl,
  sym, ap, ◌∙◌, subst, Bool-cases, Ends, Ends-bind, Ends-if, Ends-require, Ends-Runs, Runs, arith,
}
use ic7610iq.Common.{ft_ok, ft_timeout, bytes_per_sample, iq_block_length}
use ic7610iq.Driver.{Ftd3xx}
use ic7610iq.Ring.{runs, available_space, writebuf}
use ic7610iq.Ring.Inv.{IsValid}
use ic7610iq.Ring.Write.{writebuf-Wrote, writebuf-blocks}
use ic7610iq.Port.{Port, call}
use ic7610iq.Port.Device.{enable_iq_data, disable_iq_data}
use ic7610iq.Port.Device.Frame.{
  KeepsRing, disable_iq_data-KeepsRing, enable_iq_data-KeepsRing, enable_iq_data-enabled,
}
use ic7610iq.Port.Async.{
  Worker, starting, looping, reading, waiting, stopping, finished, stop_request, stop_finish,
  start_enabled, start_thread, set_running, worker_start, queue_read, store, worker_test,
  worker_read, self_join, worker_stop, worker_step, worker_steps,
}

-- What a waiting thread has in its hands is whole samples.
abbrev pub Whole : Worker → Type 0
Whole starting = Unit
Whole looping = Unit
Whole reading = Unit
Whole (waiting bytes) = length bytes % bytes_per_sample ≡ 0
Whole stopping = Unit
Whole finished = Unit

module _ {W : Type 0} where
  abbrev pub Sound : Worker → Port W → Type 0
  Sound w p = IsValid p.iq_buffer × Whole w

module _ {W : Type 0} (ft : Ftd3xx W) where
  pub stop_request-KeepsRing : (p : Port W) → KeepsRing p (stop_request ft p)
  unfolding stop_request
  stop_request-KeepsRing p =
      Ends-if (λ a q. q.iq_buffer ≡ p.iq_buffer) p.has_handle _ (pure tt)
        (record p { running = false }) (λ _. refl) (λ _. refl)

  pub stop_request-KeepsThread :
      (p : Port W) → Ends (λ a q. q.joinable ≡ p.joinable) (stop_request ft p)
  unfolding stop_request
  stop_request-KeepsThread p =
      Ends-if (λ a q. q.joinable ≡ p.joinable) p.has_handle _ (pure tt)
        (record p { running = false }) (λ _. refl) (λ _. refl)

  pub stop_finish-KeepsRing : (p : Port W) → KeepsRing p (stop_finish ft p)
  unfolding stop_finish
  stop_finish-KeepsRing p = disable_iq_data-KeepsRing ft (record p { joinable = false })

  pub start_enabled-KeepsRing : (vfo : ℕ) (p : Port W) → KeepsRing p (start_enabled ft vfo p)
  unfolding start_enabled
  start_enabled-KeepsRing vfo p =
      Ends-if (λ a q. q.iq_buffer ≡ p.iq_buffer) (not p.is_open || p.running) (pure false)
        (enable_iq_data ft vfo) p (λ _. refl) (λ _. enable_iq_data-KeepsRing ft vfo p)

  pub start_thread-KeepsRing : (p : Port W) → KeepsRing p (start_thread ft p)
  unfolding start_thread
  start_thread-KeepsRing p = refl

  pub set_running-KeepsRing : (p : Port W) → KeepsRing p (set_running ft p)
  unfolding set_running
  set_running-KeepsRing p = refl

  worker_stop-Sound :
      (p : Port W) → IsValid p.iq_buffer → Ends (λ w q. Sound w q) (worker_stop ft p)
  unfolding worker_stop self_join
  worker_stop-Sound p v =
      Ends-bind (λ a q. q.iq_buffer ≡ p.iq_buffer) (λ w q. Sound w q) (self_join ft) _ p
        (Ends-if (λ a q. q.iq_buffer ≡ p.iq_buffer) p.joinable (throw Error.deadlock)
          (disable_iq_data ft) p (λ _. tt) (λ _. disable_iq_data-KeepsRing ft p))
        (λ a r e. (subst IsValid (sym e) v, tt))

  -- Storing whole samples on a valid ring never leaves its bounds: the thread waits with them, and nothing
  -- has changed, or they are in.
  pub store-Sound :
      (bytes : List ℕ) (p : Port W)
      → IsValid p.iq_buffer
      → length bytes % bytes_per_sample ≡ 0
      → Runs (λ w q. Sound w q) (store ft bytes p)
  unfolding store queue_read
  store-Sound bytes p v whole =
      let n : ℕ = length bytes / bytes_per_sample in
      let all : n * bytes_per_sample ≡ length bytes = omega (arith, whole) in
      elim (Bool-cases (leb n (available_space p.iq_buffer))) [
        | inl e ↦
            let (r', eq, w) =
              writebuf-Wrote p.iq_buffer bytes n v (omega (arith, all)) (leb→le _ _ e) in
            let eq' : writebuf bytes (length bytes) p.iq_buffer ≡ runs (length bytes, r') =
              subst (λ k. writebuf bytes k p.iq_buffer ≡ runs (k, r')) all eq in
            rw (eq', store) (w.valid, tt)
        | inr e ↦
            rw (writebuf-blocks p.iq_buffer bytes (length bytes) (not_leb→lt _ _ e), store)
              (v, whole)
      ]

  worker_read-Sound :
      (p : Port W) → IsValid p.iq_buffer → Ends (λ w q. Sound w q) (worker_read ft p)
  unfolding worker_read queue_read
  worker_read-Sound p v =
      let ((status, bytes), w) = ft.get_overlapped_result true p.world in
      let q : Port W = record p { world = w } in
      Ends-require (λ w q. Sound w q) (leb (length bytes) iq_block_length) _ q
        (Ends-if (λ w q. Sound w q) (status == ft_ok && ltb 0 (length bytes)) _ _ q
          (λ _.
            Ends-if (λ w q. Sound w q) (length bytes % bytes_per_sample == 0) (store ft bytes)
              (throw Error.bad_block) q
              (λ e. Ends-Runs (λ w q. Sound w q) _ (store-Sound bytes q v ((==_iff _ _).0 e)))
              (λ _. tt))
          (λ _.
            Ends-if (λ w q. Sound w q) (status == ft_timeout) (do queue_read ft; pure looping)
              (do stop_request ft; pure stopping) q (λ _. (v, tt))
              (λ _.
                Ends-bind (λ a r. r.iq_buffer ≡ p.iq_buffer) (λ w q. Sound w q) (stop_request ft) _
                  q (stop_request-KeepsRing q) (λ a r e. (subst IsValid (sym e) v, tt)))))

  -- Every turn of a sound thread that returns leaves it sound.
  pub worker_step-Sound :
      (w : Worker) (p : Port W) → Sound w p → Ends (λ w q. Sound w q) (worker_step ft w p)
  unfolding worker_step worker_start worker_test queue_read
  worker_step-Sound starting p (v, whole) = (v, tt)
  worker_step-Sound looping p (v, whole) =
      Ends-if (λ w q. Sound w q) p.running (pure reading)
        (do _ ← call ft.release_overlapped; pure finished) p (λ _. (v, tt)) (λ _. (v, tt))
  worker_step-Sound reading p (v, whole) = worker_read-Sound p v
  worker_step-Sound stopping p (v, whole) = worker_stop-Sound p v
  worker_step-Sound (waiting bytes) p (v, whole) =
      Ends-Runs (λ w q. Sound w q) _ (store-Sound bytes p v whole)
  worker_step-Sound finished p (v, whole) = (v, tt)

  -- While there is no room the thread waits.
  pub worker_step-waits :
      (bytes : List ℕ) (p : Port W)
      → available_space p.iq_buffer < length bytes / bytes_per_sample
      → worker_step ft (waiting bytes) p ≡ returns (waiting bytes) p
  unfolding worker_step store
  worker_step-waits bytes p full =
      rw (writebuf-blocks p.iq_buffer bytes (length bytes) full, worker_step, store) refl

  -- While there is no room the thread waits, however often it is scheduled.
  pub worker_steps-waits :
      (n : ℕ) (bytes : List ℕ) (p : Port W)
      → available_space p.iq_buffer < length bytes / bytes_per_sample
      → worker_steps ft n (waiting bytes) p ≡ returns (waiting bytes) p
  unfolding worker_steps
  worker_steps-waits zero bytes p full = refl
  worker_steps-waits (suc n) bytes p full =
      rw (worker_step-waits bytes p full, ◌>>=◌) (worker_steps-waits n bytes p full)

  -- The first turn of the thread goes to the head of the loop, and a turn there with `_running` off
  -- ends it.
  pub worker_step-starting :
      (p : Port W)
      → (w : W) × (worker_step ft starting p ≡ returns looping (record p { world = w }))
  unfolding worker_step worker_start queue_read
  worker_step-starting p = (_, refl)

  pub worker_step-stops :
      (p : Port W)
      → p.running ≡ false
      → (w : W) × (worker_step ft looping p ≡ returns finished (record p { world = w }))
  unfolding worker_step worker_test
  worker_step-stops p off = ((ft.release_overlapped p.world).1, rw off refl)

  pub worker_step-finished : (p : Port W) → worker_step ft finished p ≡ returns finished p
  unfolding worker_step
  worker_step-finished p = refl

  -- A port that is running starts no second thread.
  pub start_enabled-refuses :
      (vfo : ℕ) (p : Port W) → p.running ≡ true → start_enabled ft vfo p ≡ returns false p
  unfolding start_enabled
  start_enabled-refuses vfo p on = elim (Bool-cases p.is_open) [
    | inl e ↦ rw (e, on) refl
    | inr e ↦ rw e refl
  ]

  pub set_running_lem : (p : Port W) → set_running ft p ≡ returns tt (record p { running = true })
  unfolding set_running
  set_running_lem p = refl

  pub start_thread_lem :
      (p : Port W) → start_thread ft p ≡ returns tt (record p { joinable = true })
  unfolding start_thread
  start_thread_lem p = refl

  -- With the data on already, a thread is to be made at once.
  pub start_enabled-enabled :
      (vfo : ℕ) (p : Port W)
      → p.is_open ≡ true
      → p.running ≡ false
      → p.iq_data_enabled ≡ true
      → start_enabled ft vfo p ≡ returns true p
  unfolding start_enabled
  start_enabled-enabled vfo p o r d =
      simp (o, r) (enable_iq_data-enabled ft vfo p d ∙ ap (λ b. returns b p) d)
