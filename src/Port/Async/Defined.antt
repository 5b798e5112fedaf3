-- ===== src/Port/Async/Defined.antt =====
-- The reader thread and the calls that start and stop it never read or write outside an object, when
-- the library's reads keep to the sizes that they are given.
use ic7610iq.Prelude.{
  ℕ, ◌%◌, ◌≤◌, Bool, true, false, ◌&&◌, ◌||◌, not, ltb, leb, le→leb, ◌==◌, ==_iff, length, ◌>>=◌,
  ◌>>◌, pure, throw, Error, sym, subst, IsDefined, IsDefined-bind, IsDefined-if, IsDefined-require,
  IsDefined-Runs, Ends-any,
}
use ic7610iq.Common.{ft_ok, ft_timeout, bytes_per_sample, iq_block_length}
use ic7610iq.Driver.{Ftd3xx}
use ic7610iq.Ring.Inv.{IsValid}
use ic7610iq.Port.{Port, call}
use ic7610iq.Port.Command.Exchange.{Bounded}
use ic7610iq.Port.Device.{enable_iq_data, disable_iq_data}
use ic7610iq.Port.Device.Opening.{enable_iq_data-flag, disable_iq_data-returns}
use ic7610iq.Port.Async.{
  Worker, starting, looping, reading, waiting, stopping, finished, start_enabled, stop_request,
  stop_finish, queue_read, store, worker_start, worker_test, worker_read, self_join, worker_stop,
  worker_step,
}
use ic7610iq.Port.Async.Turns.{Sound, store-Sound}

-- What the library documents of its reads: they store no more bytes than were asked for, and the
-- reader asks for a block.
pub record KeepsSizes {W : Type 0} (ft : Ftd3xx W) : Type 0 where
  pub bounded : Bounded ft
  pub block :
      (wait : Bool) (w : W) → length ((ft.get_overlapped_result wait w).0.1) ≤ iq_block_length

module _ {W : Type 0} (ft : Ftd3xx W) (sizes : KeepsSizes ft) where
  disable_iq_data-IsDefined : (p : Port W) → IsDefined (disable_iq_data ft p)
  disable_iq_data-IsDefined p =
      let (b, w, e) = disable_iq_data-returns ft sizes.bounded p in subst IsDefined (sym e) tt

  pub start_enabled-IsDefined : (vfo : ℕ) (p : Port W) → IsDefined (start_enabled ft vfo p)
  unfolding start_enabled
  start_enabled-IsDefined vfo p =
      IsDefined-if (not p.is_open || p.running) (pure false) (enable_iq_data ft vfo) p (λ _. tt)
        (λ _.
          let (b, w, e, flag) = enable_iq_data-flag ft sizes.bounded vfo p in
          subst IsDefined (sym e) tt)

  pub stop_request-IsDefined : (p : Port W) → IsDefined (stop_request ft p)
  unfolding stop_request
  stop_request-IsDefined p =
      IsDefined-if p.has_handle _ (pure tt) (record p { running = false }) (λ _. tt) (λ _. tt)

  pub stop_finish-IsDefined : (p : Port W) → IsDefined (stop_finish ft p)
  unfolding stop_finish
  stop_finish-IsDefined p = disable_iq_data-IsDefined (record p { joinable = false })

  worker_stop-IsDefined : (p : Port W) → IsDefined (worker_stop ft p)
  unfolding worker_stop self_join
  worker_stop-IsDefined p =
      IsDefined-bind (λ a q. Unit {0}) (self_join ft) _ p
        (IsDefined-if p.joinable (throw Error.deadlock) (disable_iq_data ft) p (λ _. tt)
          (λ _. disable_iq_data-IsDefined p))
        (Ends-any _) (λ a r _. tt)

  worker_read-IsDefined : (p : Port W) → IsValid p.iq_buffer → IsDefined (worker_read ft p)
  unfolding worker_read queue_read
  worker_read-IsDefined p v =
      let ((status, bytes), w) = ft.get_overlapped_result true p.world in
      let q : Port W = record p { world = w } in
      IsDefined-require (leb (length bytes) iq_block_length) _ q
        (le→leb _ _ (sizes.block true p.world))
        (IsDefined-if (status == ft_ok && ltb 0 (length bytes)) _ _ q
          (λ _.
            IsDefined-if (length bytes % bytes_per_sample == 0) (store ft bytes)
              (throw Error.bad_block) q
              (λ e.
                IsDefined-Runs (λ w q. Sound w q) _ (store-Sound ft bytes q v ((==_iff _ _).0 e)))
              (λ _. tt))
          (λ _.
            IsDefined-if (status == ft_timeout) (do queue_read ft; pure looping)
              (do stop_request ft; pure stopping) q (λ _. tt)
              (λ _.
                IsDefined-bind (λ a q. Unit {0}) (stop_request ft) _ q (stop_request-IsDefined q)
                  (Ends-any _) (λ a r _. tt))))

  -- A turn of a reader with a valid ring and whole samples in its hands is never undefined.
  pub worker_step-IsDefined : (w : Worker) (p : Port W) → Sound w p → IsDefined (worker_step ft w p)
  unfolding worker_step worker_start worker_test queue_read
  worker_step-IsDefined starting p v = tt
  worker_step-IsDefined looping p (v, whole) =
      IsDefined-if p.running (pure reading) (do _ ← call ft.release_overlapped; pure finished) p
        (λ _. tt) (λ _. tt)
  worker_step-IsDefined reading p (v, whole) = worker_read-IsDefined p v
  worker_step-IsDefined (waiting bytes) p (v, whole) =
      IsDefined-Runs (λ w q. Sound w q) _ (store-Sound ft bytes p v whole)
  worker_step-IsDefined stopping p v = worker_stop-IsDefined p
  worker_step-IsDefined finished p v = tt
