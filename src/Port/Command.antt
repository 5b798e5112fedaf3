-- ===== src/Port/Command.antt =====
-- Sending a command and reading its reply: `sendIQCommand`, `readIQReply`, `icomIQCommand`.
pub mod Exchange
pub mod Frame
use ic7610iq.Prelude.{
  ℕ, Bool, true, false, List, ◌++◌, ltb, leb, ◌==◌, if◌then◌else◌, length, M, ◌>>=◌, ◌>>◌, pure,
  access, require,
}
use ic7610iq.Common.{cmd_in, cmd_out, ft_ok}
use ic7610iq.Frame.{iq_frame}
use ic7610iq.Driver.{Ftd3xx}
use ic7610iq.Port.{Port, call}

-- `_civBufferSize`.
abbrev pub civ_buffer_size : ℕ
civ_buffer_size = 256

module _ {W : Type 0} (ft : Ftd3xx W) where
  unfoldable pub send_iq_command : List ℕ → M (Port W) Bool
  send_iq_command cmd = do
    buf ← access (iq_frame cmd)
    (res, count) ← call (ft.write_pipe cmd_out buf)
    pure (if res == ft_ok then count == length buf else false)

  -- The number of bytes in `buffer` when it returns, and `buffer`. More bytes than were asked for
  -- would lie outside `buf`.
  unfoldable pub read_iq_reply : List ℕ → M (Port W) (ℕ × List ℕ)
  read_iq_reply buffer = do
    (res, buf) ← call (ft.read_pipe cmd_in civ_buffer_size)
    if res == ft_ok
        then (do
          require (leb (length buf) civ_buffer_size)
          pure (length (buffer ++ buf), buffer ++ buf))
        else (do _ ← call (ft.abort_pipe cmd_in); pure (0, buffer))

  unfoldable pub icom_iq_command : List ℕ → List ℕ → M (Port W) (ℕ × List ℕ)
  icom_iq_command cmd reply = do
    res ← send_iq_command cmd
    if res
        then (do
          (byte_count, reply') ← read_iq_reply reply
          pure (if ltb 0 byte_count then length reply' else 0, reply'))
        else pure (0, reply)
