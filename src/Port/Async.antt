-- ===== src/Port/Async.antt =====
-- The reader thread: `iqAsyncStart`, `iqAsyncStop` and `iqAsyncReadWorker`. The thread's loop is its
-- rounds; a round that waits for space in the ring is taken up again by `store`.
pub mod Rounds
pub mod Turns
pub mod System
pub mod Defined
pub mod Destroy
pub mod Flags
pub mod Stopping
mod Tests
use ic7610iq.Prelude.{
  ℕ, zero, suc, ◌%◌, Bool, true, false, ◌&&◌, ◌||◌, not, List, ltb, leb, ◌==◌, if◌then◌else◌,
  length, Outcome, returns, undefined, M, ◌>>=◌, ◌>>◌, pure, throw, gets, modify, require, Error,
}
use ic7610iq.Common.{cmd_in, cmd_out, iq_in, ft_ok, ft_timeout, bytes_per_sample, iq_block_length}
use ic7610iq.Driver.{Ftd3xx}
use ic7610iq.Ring.{Ring, Step, blocks, faults, runs}
use ic7610iq.Ring
use ic7610iq.Port.{Port, call}
use ic7610iq.Port.Device.{enable_iq_data, disable_iq_data}

-- Where the thread stands: before its loop; at the test of it; past the test, in a read; in
-- `writebuf` with these bytes; in its own `iqAsyncStop`, behind the request and before the join; or
-- returned.
pub data Worker : Type 0 where
  starting : Worker
  looping : Worker
  reading : Worker
  waiting : List ℕ → Worker
  stopping : Worker
  finished : Worker

module _ {W : Type 0} (ft : Ftd3xx W) where
  -- `iqAsyncStart` up to the thread: whether there is to be one.
  unfoldable pub start_enabled : ℕ → M (Port W) Bool
  start_enabled vfo = do
    open' ← gets λ p. p.is_open
    running ← gets λ p. p.running
    if not open' || running then pure false else enable_iq_data ft vfo

  -- The thread runs from here on, before `_running` is set.
  pub start_thread : M (Port W) (Unit {0})
  start_thread = modify λ p. record p { joinable = true }

  pub set_running : M (Port W) (Unit {0})
  set_running = modify λ p. record p { running = true }

  -- Whether it started the thread.
  pub iq_async_start : ℕ → M (Port W) Bool
  unfolding start_enabled start_thread set_running
  iq_async_start vfo = do
    enabled ← start_enabled vfo
    if enabled then (do start_thread; set_running; pure true) else pure false

  -- `iqAsyncStop` up to its join.
  unfoldable pub stop_request : M (Port W) (Unit {0})
  stop_request = do
    modify λ p. record p { running = false }
    handle ← gets λ p. p.has_handle
    if handle
        then (do
          _ ← call (ft.abort_pipe iq_in)
          _ ← call (ft.abort_pipe cmd_in)
          _ ← call (ft.abort_pipe cmd_out)
          pure tt)
        else pure tt

  -- From its join on, in a client's thread once the reader has returned.
  unfoldable pub stop_finish : M (Port W) (Unit {0})
  stop_finish = do modify λ p. record p { joinable = false }; disable_iq_data ft

  -- The whole of it where the join returns: there is no reader, or it has ended.
  unfoldable pub iq_async_stop : M (Port W) (Unit {0})
  iq_async_stop = do stop_request; stop_finish

  -- From its join on in the reader thread, which may not join itself.
  unfoldable pub self_join : M (Port W) (Unit {0})
  self_join = do
    joinable ← gets λ p. p.joinable
    if joinable then throw Error.deadlock else disable_iq_data ft

  -- The reader's own `iqAsyncStop` from there, and the reader's end.
  pub worker_stop : M (Port W) Worker
  unfolding self_join
  worker_stop = do self_join; _ ← call ft.release_overlapped; pure finished

  queue_read : M (Port W) (Unit {0})
  queue_read = do _ ← call (ft.read_pipe iq_in iq_block_length); pure tt

  -- Up to the loop. Left out is the `memset` of the first four bytes of the buffer, behind the read:
  -- the bytes of a read are what its result gives.
  pub worker_start : M (Port W) Worker
  unfolding queue_read
  worker_start = do _ ← call ft.initialize_overlapped; queue_read; pure looping

  -- `writebuf` of the bytes of a read, and the next read.
  pub store : List ℕ → M (Port W) Worker
  unfolding queue_read
  store bytes p = elim (Ring.writebuf bytes (length bytes) p.iq_buffer) [
    | blocks ↦ returns (waiting bytes) p
    | faults ↦ undefined
    | runs (count, ring) ↦ (do queue_read; pure looping) (record p { iq_buffer = ring })
  ]

  -- The loop's test.
  unfoldable pub worker_test : M (Port W) Worker
  worker_test = do
    running ← gets λ p. p.running
    if running then pure reading else (do _ ← call ft.release_overlapped; pure finished)

  -- What follows the read that it was in: after one that fails, `iqAsyncStop` up to its join.
  pub worker_read : M (Port W) Worker
  unfolding queue_read
  worker_read = do
    (status, bytes) ← call (ft.get_overlapped_result true)
    require (leb (length bytes) iq_block_length)
    if status == ft_ok && ltb 0 (length bytes)
        then (if length bytes % bytes_per_sample == 0 then store bytes else throw Error.bad_block)
        else if status == ft_timeout
        then (do queue_read; pure looping)
        else (do stop_request; pure stopping)

  -- What the thread does when it is scheduled.
  unfoldable pub worker_step : Worker → M (Port W) Worker
  unfolding worker_start worker_test worker_read store worker_stop
  worker_step starting = worker_start
  worker_step looping = worker_test
  worker_step reading = worker_read
  worker_step (waiting bytes) = store bytes
  worker_step stopping = worker_stop
  worker_step finished = pure finished

  pub worker_steps : ℕ → Worker → M (Port W) Worker
  unfolding worker_step
  worker_steps zero w = pure w
  worker_steps (suc n) w = do w' ← worker_step w; worker_steps n w'

  -- The loop's test and what follows it, as one thread alone runs them: to the next test, into
  -- `writebuf`, into its own join, or to its end.
  pub worker_round : M (Port W) Worker
  unfolding worker_read
  worker_round = do
    running ← gets λ p. p.running
    if running then worker_read else (do _ ← call ft.release_overlapped; pure finished)
