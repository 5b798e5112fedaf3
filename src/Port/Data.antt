-- ===== src/Port/Data.antt =====
-- Reading I/Q samples: `readIQData`, `readIQDataEx`, `iqGetOverlappedResults` and the reads of the
-- ring that the reader thread fills. The bytes that a read stores in the caller's array come back.
pub mod Reads
pub mod Bounds
use ic7610iq.Prelude.{
  ℕ, ◌*◌, ◌/◌, ◌%◌, ◌^◌, ℤ, pos, neg, neg_int, to_int32, Bool, true, ◌&&◌, ◌||◌, not, List, [], leb,
  ◌==◌, if◌then◌else◌, length, M, ◌>>=◌, ◌>>◌, pure, gets, require,
}
use ic7610iq.Common.{iq_in, ft_ok, ft_io_pending, bytes_per_sample}
use ic7610iq.Driver.{Ftd3xx}
use ic7610iq.Ring.{Ring, Step, blocks, faults, runs}
use ic7610iq.Ring
use ic7610iq.Port.{Port, call}

-- The negation of a status that an `int` holds; that of the least `int` overflows.
unfoldable pub negated : {S : Type 0} → ℕ → M S ℤ
negated status = do require (not (status % 2 ^ 32 == 2 ^ 31)); pure (neg_int (to_int32 status))

-- The bytes of the whole blocks of 128 samples in `buffer_size`: `size_t` to `DWORD` twice.
pub bytes_to_read : ℕ → ℕ
bytes_to_read buffer_size = buffer_size / 128 * 128 % 2 ^ 32 * bytes_per_sample % 2 ^ 32

-- Where a read takes its samples: the ring answers, waits for more, or leaves its bounds.
abbrev pub ReadStep : Type 0 → Type 0
ReadStep W = Step (List ℕ × ℤ × Port W)

module _ {W : Type 0} (ft : Ftd3xx W) where
  -- `overlapped` says whether `overlapped_` is not null.
  unfoldable pub read_iq_data : ℕ → Bool → M (Port W) (ℤ × List ℕ)
  read_iq_data buffer_size overlapped = do
    enabled ← gets λ p. p.iq_data_enabled
    if enabled
        then (do
          (res, bytes) ← call (ft.read_pipe iq_in (bytes_to_read buffer_size))
          if res == ft_ok
              then (do
                require (leb (length bytes) (bytes_to_read buffer_size))
                pure (pos (length bytes / bytes_per_sample), bytes))
              else if res == ft_io_pending && overlapped
              then (do
                (res', bytes') ← call (ft.get_overlapped_result true)
                require (leb (length bytes') (bytes_to_read buffer_size))
                pure (pos (length bytes' / bytes_per_sample), bytes'))
              else (do value ← negated res; pure (value, [])))
        else pure (neg 32, [])

  -- Without a context `ctx` is read unset; with the data off, `res` is.
  pub read_iq_data_ex : ℕ → Bool → M (Port W) ℤ
  read_iq_data_ex buffer_size overlapped = do
    enabled ← gets λ p. p.iq_data_enabled
    require (enabled && overlapped)
    res ← call (ft.read_pipe_ex iq_in buffer_size overlapped)
    if res == ft_ok
        then pure (neg 32)
        else if res == ft_io_pending
        then pure (pos 0)
        else negated res

  -- The result, and the bytes that the context's buffer holds by then.
  pub iq_get_overlapped_results : Bool → M (Port W) (ℤ × List ℕ)
  iq_get_overlapped_results wait = do
    (status, bytes) ← call (ft.get_overlapped_result wait)
    if status == ft_ok || status == ft_io_pending
        then pure (pos 0, bytes)
        else (do value ← negated status; _ ← call (ft.abort_pipe iq_in); pure (value, bytes))

module _ {W : Type 0} where
  unfoldable pub iq_read_buf : List ℕ → ℕ → Port W → ReadStep W
  iq_read_buf destination count p = elim (Ring.readbuf destination count p.iq_buffer) [
    | blocks ↦ blocks
    | faults ↦ faults
    | runs (out, samples, ring) ↦
        runs (out, to_int32 (samples % 2 ^ 32), record p { iq_buffer = ring })
  ]

  pub iq_get_size_of_available_data : Port W → ℕ
  iq_get_size_of_available_data p = Ring.available_data p.iq_buffer

  unfoldable pub iq_clear_read_buf : Port W → Port W
  iq_clear_read_buf p = record p { iq_buffer = Ring.clear_ringbuffer p.iq_buffer }
