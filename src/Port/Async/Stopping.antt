-- ===== src/Port/Async/Stopping.antt =====
-- `iqAsyncStop` up to its join: when the reader that it joins comes to its end, and
-- when it does not, in src/IcomIQPort.cpp.
use ic7610iq.Prelude.{
  ℕ, Bool, true, ◌/◌, ◌<◌, false, List, leb, leb→le, not_leb→lt, length, Bool-cases, returns, ◌≡◌,
  ◌⊎◌, inl, inr, refl, arith, sym, ◌∙◌, ap, subst, ◌%◌, ◌&&◌, ltb, ◌==◌, ==_iff, Outcome, throws,
  undefined, Error, throw, pure, ◌>>◌, Ends, Ends-bind, Ends-if, Ends-require, Ends-Runs, Runs,
}
use ic7610iq.Common.{ft_ok, ft_timeout, iq_block_length, bytes_per_sample, iq_in, cmd_in, cmd_out}
use ic7610iq.Driver.{Ftd3xx}
use ic7610iq.Ring.{available_space}
use ic7610iq.Ring.Inv.{IsValid}
use ic7610iq.Port.{Port}
use ic7610iq.Port.Command.Exchange.{Bounded}
use ic7610iq.Port.Device.Opening.{disable_iq_data-returns}
use ic7610iq.Port.Async.{
  Worker, starting, looping, reading, waiting, stopping, finished, queue_read, store, stop_request,
  stop_finish, worker_read, worker_step,
}
use ic7610iq.Port.Async.Turns.{
  Sound, worker_step-starting, worker_step-stops, worker_step-finished, worker_step-waits,
  stop_request-KeepsThread,
}
use ic7610iq.Port.Async.Flags.{worker_stop-throws}
use ic7610iq.Port.Async.Rounds.{store-appends}

module _ {W : Type 0} where
  -- It waits with more samples than there is space for, or is before its own join, in a thread that is
  -- to be joined.
  abbrev pub Unreturning : Worker → Port W → Type 0
  Unreturning w p =
      ((bytes : List ℕ) × (w ≡ waiting bytes)
        × (available_space p.iq_buffer < length bytes / bytes_per_sample))
      ⊎ ((w ≡ stopping) × (p.joinable ≡ true))

  -- It is past the read, at the test with `_running` off, or not to return.
  abbrev Past : Worker → Port W → Type 0
  Past w p = ((w ≡ looping) × (p.running ≡ false)) ⊎ Unreturning w p

module _ {W : Type 0} (ft : Ftd3xx W) where
  -- Three turns end it.
  abbrev pub Ended : Worker → Port W → Type 0
  Ended w p =
      (v : Worker) × (q : Port W) × (x : Worker) × (r : Port W) × (o : Port W) × (worker_step ft w p
        ≡ returns v q)
      × (worker_step ft v q ≡ returns x r)
      × (worker_step ft x r ≡ returns finished o)

  -- It does not return, or is in a read behind which it does not, or which ends the program.
  abbrev pub Lost : Worker → Port W → Type 0
  Lost w p = Unreturning w p ⊎ ((w ≡ reading) × Ends Unreturning (worker_read ft p))

  at_test : (p : Port W) → p.running ≡ false → Ended looping p
  at_test p off =
      let (w, e) = worker_step-stops ft p off in
      let q : Port W = record p { world = w } in
      (finished, q, finished, q, q, e, worker_step-finished ft q, worker_step-finished ft q)

  to_test :
      (w : Worker) (p q : Port W)
      → worker_step ft w p ≡ returns looping q
      → q.running ≡ false
      → Ended w p
  to_test w p q e off =
      let (world, e') = worker_step-stops ft q off in
      let r : Port W = record q { world = world } in
      (looping, q, finished, r, r, e, e', worker_step-finished ft r)

  store-Past :
      (bytes : List ℕ) (p : Port W)
      → IsValid p.iq_buffer
      → length bytes % bytes_per_sample ≡ 0
      → p.running ≡ false
      → Runs Past (store ft bytes p)
  unfolding store worker_step
  store-Past bytes p v whole off =
      let n : ℕ = length bytes / bytes_per_sample in
      elim (Bool-cases (leb n (available_space p.iq_buffer))) [
        | inl t ↦
            let (r, w, e, v', u) =
              store-appends ft bytes n p v (omega (arith, whole)) (leb→le _ _ t) in
            subst (Runs Past) (sym e) (inl (refl, off))
        | inr f ↦
            let full : available_space p.iq_buffer < n = not_leb→lt _ _ f in
            let e : store ft bytes p ≡ returns (waiting bytes) p =
              worker_step-waits ft bytes p full in
            subst (Runs Past) (sym e) (inr (inl (bytes, refl, full)))
      ]

  worker_read-Past :
      (p : Port W)
      → IsValid p.iq_buffer
      → p.running ≡ false
      → p.joinable ≡ true
      → Ends Past (worker_read ft p)
  unfolding worker_read queue_read
  worker_read-Past p v off j =
      let ((status, bytes), w) = ft.get_overlapped_result true p.world in
      let q : Port W = record p { world = w } in
      Ends-require Past (leb (length bytes) iq_block_length) _ q (
        Ends-if Past (status == ft_ok && ltb 0 (length bytes)) _ _ q
          (λ _.
            Ends-if Past (length bytes % bytes_per_sample == 0) (store ft bytes)
              (throw Error.bad_block) q
              (λ e. Ends-Runs Past _ (store-Past bytes q v ((==_iff _ _).0 e) off)) (λ _. tt))
          (λ _.
            Ends-if Past (status == ft_timeout) (do queue_read ft; pure looping)
              (do stop_request ft; pure stopping) q (λ _. inl (refl, off))
              (λ _.
                Ends-bind (λ a r. r.joinable ≡ true) Past (stop_request ft) _ q
                  (subst (λ b. Ends (λ a r. r.joinable ≡ b) (stop_request ft q)) j
                    (stop_request-KeepsThread ft q))
                  (λ a r e. inr (inr (refl, e))))))

  read_over :
      (p : Port W) (o : Outcome (Port W) Worker)
      → worker_read ft p ≡ o
      → Ends Past o
      → Ended reading p ⊎ Lost reading p
  unfolding worker_step
  read_over p (returns v q) e (inl (same, off)) =
      inl (to_test reading p q (e ∙ ap (λ v. returns v q) same) off)
  read_over p (returns v q) e (inr k) = inr (inr (refl, subst (Ends Unreturning) (sym e) k))
  read_over p (throws x q) e k = inr (inr (refl, subst (Ends Unreturning) (sym e) tt))
  read_over p undefined e k = inr (inr (refl, subst (Ends Unreturning) (sym e) tt))

  -- With `_running` off, in a thread that is to be joined.
  pub stopped :
      (w : Worker) (p : Port W)
      → p.running ≡ false
      → p.joinable ≡ true
      → Sound w p
      → Ended w p ⊎ Lost w p
  unfolding worker_step
  stopped starting p off j (v, whole) =
      let (w, e) = worker_step-starting ft p in inl (to_test starting p _ e off)
  stopped looping p off j (v, whole) = inl (at_test p off)
  stopped reading p off j (v, whole) =
      read_over p (worker_read ft p) refl (worker_read-Past p v off j)
  stopped (waiting bytes) p off j (v, whole) =
      let n : ℕ = length bytes / bytes_per_sample in
      elim (Bool-cases (leb n (available_space p.iq_buffer))) [
        | inl t ↦
            let (r, w, e, v', u) =
              store-appends ft bytes n p v (omega (arith, whole)) (leb→le _ _ t) in
            inl (to_test (waiting bytes) p _ e off)
        | inr f ↦ inr (inl (inl (bytes, refl, not_leb→lt _ _ f)))
      ]
  stopped stopping p off j (v, whole) = inr (inl (inr (refl, j)))
  stopped finished p off j (v, whole) =
      let e = worker_step-finished ft p in inl (finished, p, finished, p, p, e, e, e)

  -- A turn does not bring it back.
  pub Lost-step :
      (w w' : Worker) (p q : Port W) → Lost w p → worker_step ft w p ≡ returns w' q → Lost w' q
  unfolding worker_step
  Lost-step w w' p q (inl (inl (bytes, same, full))) e =
      let e' : returns (waiting bytes) p ≡ returns w' q =
        sym (worker_step-waits ft bytes p full)
        ∙ subst (λ v. worker_step ft v p ≡ returns w' q) same e in
      let port : p ≡ q = cc in
      let worker : w' ≡ waiting bytes = cc in
      inl (
        inl (
          bytes,
          worker,
          subst (λ q. available_space q.iq_buffer < length bytes / bytes_per_sample) port full,
        ))
  Lost-step w w' p q (inl (inr (same, j))) e = absurd (
      subst (Ends (λ _ _. ⊥)) (subst (λ v. worker_step ft v p ≡ returns w' q) same e)
        (worker_stop-throws ft (λ _ _. ⊥) p j))
  Lost-step w w' p q (inr (same, k)) e =
      inl (subst (Ends Unreturning) (subst (λ v. worker_step ft v p ≡ returns w' q) same e) k)

  pub Lost-unfinished : (w : Worker) (p : Port W) → Lost w p → ¬ (w ≡ finished)
  Lost-unfinished w p (inl (inl (bytes, same, full))) e = cc (e, same)
  Lost-unfinished w p (inl (inr (same, j))) e = cc (e, same)
  Lost-unfinished w p (inr (same, k)) e = cc (e, same)

  -- Behind the join it returns, when reads are bounded.
  pub stop_finish-returns :
      Bounded ft → (p : Port W) → (q : Port W) × (stop_finish ft p ≡ returns tt q)
  unfolding stop_finish
  stop_finish-returns bounded p =
      let (b, w, e) = disable_iq_data-returns ft bounded (record p { joinable = false }) in (_, e)

  -- The request itself always returns.
  pub stop_request-returns : (p : Port W) → (q : Port W) × (stop_request ft p ≡ returns tt q)
  unfolding stop_request
  stop_request-returns p = by_handle p.has_handle refl
    where
      by_handle : (b : Bool) → p.has_handle ≡ b → (q : Port W) × (stop_request ft p ≡ returns tt q)
      by_handle true t = (
        record p {
          running = false;
          world =
              (ft.abort_pipe cmd_out (ft.abort_pipe cmd_in (ft.abort_pipe iq_in p.world).1).1).1;
        },
        rw t refl,
      )
      by_handle false f = (record p { running = false }, rw f refl)
