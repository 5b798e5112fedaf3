-- ===== src/Stream.antt =====
-- The stream to disk: include/IcomIQStream.hpp. A read is started, its completion hands the buffer
-- to a write and starts the next read, and the completion of a write gives its buffers back to the
-- pool. The bytes in the buffers are left out: what matters here is which buffers are in use; what the
-- conversion to CF32 puts in them is Convert.

pub mod Convert
pub mod Frames
pub mod Accounting
pub mod Turns
pub mod Full
pub mod Totals
pub mod Double
pub mod Opening
pub mod Scripted
mod Tests
use ic7610iq.Prelude.{
  ℕ, ◌+◌, ◌*◌, ◌%◌, ◌^◌, Bool, true, false, ◌||◌, not, Option, none, some, List, [], ◌∷◌, leb, ◌==◌,
  if◌then◌else◌, String, str_eq, length, Outcome, returns, throws, undefined, M, ◌>>=◌, ◌>>◌, pure,
  gets, modify, access, require, throw, Error,
}
use ic7610iq.Common.{iq_in, ft_ok, ft_io_pending}
use ic7610iq.Driver.{Ftd3xx}
use ic7610iq.Port.{Port, new_port}
use ic7610iq.Port.Device.{init, enable_iq_data}
use ic7610iq.Port.Device
use ic7610iq.Pool.{Pool, Buffer, acquire, release}
use ic7610iq.Pool

abbrev pub main_vfo : ℕ
main_vfo = 0x00

abbrev pub num_stream_buffers : ℕ
num_stream_buffers = 16

abbrev pub stream_buffer_size : ℕ
stream_buffer_size = 65536

pub data StreamFormat : Type 0 where
  invalid_format interleaved_short complex_float complex_double : StreamFormat

pub data WriteMode : Type 0 where
  to_disk to_tcp : WriteMode

-- An `async_write` that has not completed: the buffers that its handler gives back, and the
-- addresses and sizes of what it writes.
pub data Write : Type 0 where
  cs16_write : ℕ → ℕ → Write
  cf32_write : ℕ → ℕ → List (ℕ × ℕ) → Write

pub record Stream (W : Type 0) : Type 0 where
  pub port : Port W
  pub total_read : ℕ
  pub total_write : ℕ
  pub mode : WriteMode
  pub out_type : StreamFormat
  pub num_buffers_required : ℕ
  pub pool : Pool
  -- `overlapped.buffer`, and whether the wait for its read is registered
  pub overlapped_buffer : Option ℕ
  pub is_waiting : Bool
  pub vfo : ℕ
  -- the writes that are under way, the newest first
  pub writes : List Write

-- What the constructor comes to: a stream, or `exit` with a code.
pub data Made (W : Type 0) : Type 0 where
  exits : ℕ → Made W
  made : Stream W → Made W

unfoldable pub format_of : String → StreamFormat × ℕ
format_of out_type =
    if str_eq out_type "S16"
    then (interleaved_short, 1)
    else if str_eq out_type "CS16"
    then (interleaved_short, 1)
    else if str_eq out_type "CF32"
    then (complex_float, 2)
    else if str_eq out_type "CF64"
    then (complex_double, 4)
    else (invalid_format, 0)

unfoldable pub is_invalid : StreamFormat → Bool
is_invalid invalid_format = true
is_invalid interleaved_short = false
is_invalid complex_float = false
is_invalid complex_double = false

module _ {W : Type 0} where
  put_port : {A : Type 0} → Stream W → Outcome (Port W) A → Outcome (Stream W) A
  put_port s (returns a p) = returns a (record s { port = p })
  put_port s (throws e p) = throws e (record s { port = p })
  put_port s undefined = undefined

  put_pool : {A : Type 0} → Stream W → Outcome Pool A → Outcome (Stream W) A
  put_pool s (returns a p) = returns a (record s { pool = p })
  put_pool s (throws e p) = throws e (record s { pool = p })
  put_pool s undefined = undefined

  -- A call of a method of the base class, and of the pool.
  on_port : {A : Type 0} → M (Port W) A → M (Stream W) A
  unfolding put_port
  on_port m s = put_port s (m s.port)

  pub on_pool : {A : Type 0} → M Pool A → M (Stream W) A
  unfolding put_pool
  on_pool m s = put_pool s (m s.pool)

  -- The stream that the constructor leaves on an open port.
  new_stream : StreamFormat → ℕ → Port W → Stream W
  new_stream format number port = record {
    port = port;
    total_read = 0;
    total_write = 0;
    mode = to_disk;
    out_type = format;
    num_buffers_required = number;
    pool = Pool.create num_stream_buffers (stream_buffer_size * 4);
    overlapped_buffer = none;
    is_waiting = false;
    vfo = main_vfo;
    writes = [];
  }

  pub set_mode : WriteMode → Stream W → Stream W
  set_mode mode s = record s { mode = mode }

  pub set_vfo : ℕ → Stream W → Stream W
  set_vfo vfo s = record s { vfo = vfo }

  pub get_vfo : Stream W → ℕ
  get_vfo s = s.vfo

  unfoldable pub get_read_total : Stream W → ℕ
  get_read_total s = s.total_read

  pub get_write_total : Stream W → ℕ
  get_write_total s = s.total_write

  pub process_and_write_cs16 : ℕ → ℕ → M (Stream W) (Unit {0})
  process_and_write_cs16 buffer transferred =
      modify λ s. record s { writes = cs16_write buffer transferred ∷ s.writes }

  -- From the two acquired buffers on. The two chunks of the write are both taken from the first
  -- one, the second with the size of the second buffer, as in the source.
  write_cf32 : ℕ → Option ℕ → Option ℕ → M (Stream W) (Unit {0})
  unfolding on_pool
  write_cf32 buffer first second = do
    raw1 ← access first
    raw2 ← access second
    pool ← gets λ s. s.pool
    buf1 ← access (pool.cells raw1)
    buf2 ← access (pool.cells raw2)
    on_pool (release (some buffer))
    modify λ s. record s {
      writes = cf32_write raw1 raw2 ((raw1, buf1.size) ∷ (raw1, buf2.size) ∷ []) ∷ s.writes;
    }

  pub process_and_write_cf32 : ℕ → ℕ → M (Stream W) (Unit {0})
  unfolding on_pool write_cf32
  process_and_write_cf32 buffer transferred = do
    first ← on_pool acquire
    second ← on_pool acquire
    write_cf32 buffer first second

  pub process : StreamFormat → ℕ → ℕ → M (Stream W) (Unit {0})
  unfolding process_and_write_cs16 process_and_write_cf32
  process interleaved_short buffer transferred = process_and_write_cs16 buffer transferred
  process complex_float buffer transferred = process_and_write_cf32 buffer transferred
  process complex_double buffer transferred = pure tt
  process invalid_format buffer transferred = pure tt

  pub handle_write_cs16_complete : Bool → ℕ → ℕ → M (Stream W) (Unit {0})
  unfolding on_pool
  handle_write_cs16_complete failed bytes buffer = do
    if failed
        then pure tt
        else modify (λ s. record s { total_write = (s.total_write + bytes) % 2 ^ 64 })
    on_pool (release (some buffer))

  pub handle_write_cf32_complete : ℕ → ℕ → M (Stream W) (Unit {0})
  unfolding on_pool
  handle_write_cf32_complete buf1 buf2 = do
    on_pool (release (some buf1))
    on_pool (release (some buf2))

  pub write_complete : Bool → ℕ → Write → M (Stream W) (Unit {0})
  unfolding handle_write_cs16_complete handle_write_cf32_complete
  write_complete failed bytes (cs16_write buffer n) = handle_write_cs16_complete failed bytes buffer
  write_complete failed bytes (cf32_write buf1 buf2 chunks) = handle_write_cf32_complete buf1 buf2

module _ {W : Type 0} (ft : Ftd3xx W) where
  -- `IcomIQPortStream(ctx, deviceSerialNum, path, out_type)`, on the fields of a new port. The file at the
  -- path is opened first, which throws where it does not open.
  unfoldable pub construct : Bool → String → String → M (Port W) (Made W)
  unfolding new_stream
  construct opens serial out_type = if not opens then throw Error.file_not_opened else (do
    let (format, number) = format_of out_type
    if is_invalid format then pure (exits 4) else (do
      init ft serial false
      port ← gets λ p. p
      pure (if port.is_open then made (new_stream format number port) else exits 2)))

  -- The data is enabled once; then the read gets a buffer, whose address is taken from
  -- `overlapped.buffer->bufferPointer` even when there is none.
  pub enable_data : M (Stream W) (Unit {0})
  unfolding on_port
  enable_data = do
    s ← gets λ s. s
    if s.port.iq_data_enabled then pure tt else (do _ ← on_port (enable_iq_data ft s.vfo); pure tt)

  -- From the buffer on.
  begin_read : Option ℕ → M (Stream W) (Unit {0})
  begin_read buffer = do
    modify λ s. record s { overlapped_buffer = buffer }
    _ ← access buffer
    (status, w) ← gets λ s. ft.read_pipe_ex iq_in stream_buffer_size true s.port.world
    modify λ s. record s { port = record s.port { world = w } }
    if status == ft_io_pending || status == ft_ok
        then modify (λ s. record s { is_waiting = true })
        else pure tt

  pub initiate_read : M (Stream W) (Unit {0})
  unfolding on_pool enable_data begin_read
  initiate_read = do enable_data; buffer ← on_pool acquire; begin_read buffer

  -- `vfo` is a `uint8_t`.
  pub start : ℕ → M (Stream W) (Unit {0})
  start vfo = do modify λ s. record s { vfo = vfo % 256 }; initiate_read

  -- What follows a read of `n` bytes: its buffer goes to a write, and the next read starts.
  pub hand_over : ℕ → M (Stream W) (Unit {0})
  unfolding process initiate_read
  hand_over n = do
    s ← gets λ s. s
    buffer ← access s.overlapped_buffer
    process s.out_type buffer n
    modify λ s. record s { total_read = (s.total_read + n) % 2 ^ 64 }
    initiate_read

  -- The wait has ended without an error. The result is asked for without waiting.
  pub handle_read_complete : M (Stream W) (Unit {0})
  unfolding hand_over
  handle_read_complete = do
    ((status, bytes), w) ← gets λ s. ft.get_overlapped_result false s.port.world
    modify λ s. record s { port = record s.port { world = w }; is_waiting = false }
    require (leb (length bytes) stream_buffer_size)
    if status == ft_ok then hand_over (length bytes) else pure tt

  -- The completion of a read's wait: with an error code it is only reported.
  pub read_complete : Bool → M (Stream W) (Unit {0})
  unfolding handle_read_complete
  read_complete failed =
      if failed then modify (λ s. record s { is_waiting = false }) else handle_read_complete

  -- `~IcomIQPortStream()` and that of its base class, where it returns. The pool is not deleted.
  pub destroy : M (Stream W) (Unit {0})
  unfolding on_port
  destroy = on_port (Device.destroy ft)
