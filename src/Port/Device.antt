-- ===== src/Port/Device.antt =====
-- Opening and closing the port, its timeouts, and the I/Q data switch.
pub mod Closing
pub mod Opening
pub mod Frame
pub mod Unstarted
use ic7610iq.Prelude.{
  ℕ, zero, suc, ◌+◌, ◌-◌, ◌%◌, ◌^◌, ℤ, Bool, true, false, ◌||◌, not, List, [], ◌∷◌, ltb, ◌==◌,
  if◌then◌else◌, get_elem?, Option, none, some, String, to_int32, Outcome, returns, M, ◌>>=◌, ◌>>◌,
  pure, throw, gets, modify, access, require, leb, length, Error,
}
use ic7610iq.Common.{cmd_in, cmd_out, iq_in, ft_ok}
use ic7610iq.Driver.{Ftd3xx}
use ic7610iq.Port.{Port, call}
use ic7610iq.Port.Command.{icom_iq_command}

-- `FT_STATUS` is an `unsigned long`: its negation wraps, and is then read as an `int`.
abbrev pub neg_status : ℕ → ℤ
neg_status s = to_int32 ((2 ^ 32 - s % 2 ^ 32) % 2 ^ 32)

module _ {W : Type 0} (ft : Ftd3xx W) where
  -- The library writes its nodes to an array of 16, here and below.
  unfoldable pub init : String → Bool → M (Port W) (Unit {0})
  init serial stream = do
    modify λ p. record p { device_serial_num = serial; is_stream = stream }
    (res, count) ← call ft.create_device_info_list
    if not (res == ft_ok) then throw Error.no_devices else (do
      (res', nodes) ← call ft.get_device_info_list
      if not (res' == ft_ok) then throw Error.device_list_failed else (do
        require (leb (length nodes) 16)
        handle ← call (ft.create serial)
        modify λ p. record p { has_handle = handle }
        if not handle
            then throw Error.open_failed
            else modify λ p. record p { is_initialized = true; is_open = true }))

  -- The serial number of the first node; `none` is `exit(1)`. With no device the node was never set.
  unfoldable pub get_device_serial_num : M (Port W) (Option String)
  get_device_serial_num = do
    (res, count) ← call ft.create_device_info_list
    if not (res == ft_ok) then pure none else (do
      (res', nodes) ← call ft.get_device_info_list
      if not (res' == ft_ok) then pure none else (do
        require (leb (length nodes) 16)
        first ← access (get_elem? nodes 0)
        pure (some first.serial_number)))

  abort_pipes : M (Port W) (Unit {0})
  abort_pipes = do
    _ ← call (ft.abort_pipe cmd_out)
    _ ← call (ft.abort_pipe cmd_in)
    _ ← call (ft.abort_pipe iq_in)
    pure tt

  -- `~IcomIQPort()` up to its join.
  unfoldable pub destroy_request : M (Port W) (Unit {0})
  unfolding abort_pipes
  destroy_request = abort_pipes

  -- From its join on: it joins the reader if that is still marked as running.
  unfoldable pub destroy_finish : M (Port W) (Unit {0})
  destroy_finish = do
    running ← gets λ p. p.running
    if running then modify (λ p. record p { joinable = false }) else pure tt
    modify λ p. record p { world = ft.close p.world }

  -- The whole of it where the join returns: the reader has ended, or there is no join.
  pub destroy : M (Port W) (Unit {0})
  unfolding destroy_request destroy_finish
  destroy = do destroy_request; destroy_finish

  pub close : M (Port W) (Unit {0})
  unfolding abort_pipes
  close = do
    open' ← gets λ p. p.is_open
    if open'
        then (do abort_pipes; modify λ p. record p { world = ft.close p.world; is_open = false })
        else pure tt

  unfoldable pub set_timeout : ℕ → ℤ → M (Port W) (Unit {0})
  set_timeout channel_id timeout =
      if channel_id == cmd_in || channel_id == cmd_out
      then (do
        _ ← call (ft.set_pipe_timeout cmd_in timeout)
        status ← call (ft.set_pipe_timeout cmd_out timeout)
        if status == ft_ok then modify (λ p. record p { cmd_timeout_ms = timeout }) else pure tt)
      else (do
        status ← call (ft.set_pipe_timeout channel_id timeout)
        if status == ft_ok then modify (λ p. record p { data_timeout_ms = timeout }) else pure tt)

  -- `source + 1` becomes a `uint8_t`.
  unfoldable pub enable_iq_data : ℕ → M (Port W) Bool
  enable_iq_data source = do
    enabled ← gets λ p. p.iq_data_enabled
    if enabled then pure tt else (do
      (byte_count, _) ← icom_iq_command ft (0x1a ∷ 0x0b ∷ (source + 1) % 256 ∷ []) []
      if ltb 0 byte_count then modify (λ p. record p { iq_data_enabled = true }) else pure tt)
    gets λ p. p.iq_data_enabled

  unfoldable pub disable_iq_data : M (Port W) (Unit {0})
  disable_iq_data = do
    (byte_count, _) ← icom_iq_command ft (0x1a ∷ 0x0b ∷ 0x00 ∷ []) []
    if ltb 0 byte_count then modify (λ p. record p { iq_data_enabled = false }) else pure tt

  pub set_stream_pipe : ℕ → ℕ → M (Port W) Bool
  set_stream_pipe channel_id size = do
    status ← call (ft.set_stream_pipe channel_id size)
    pure (status == ft_ok)

  pub clear_stream_pipe : ℕ → M (Port W) Bool
  clear_stream_pipe channel_id = do
    status ← call (ft.clear_stream_pipe channel_id)
    pure (status == ft_ok)

  unfoldable pub abort_pipe : ℕ → M (Port W) ℤ
  abort_pipe pipe = do
    status ← call (ft.abort_pipe pipe)
    pure (if status == ft_ok then to_int32 status else neg_status status)

  pub initialize_overlapped : M (Port W) ℤ
  initialize_overlapped = do
    status ← call ft.initialize_overlapped
    pure (if status == ft_ok then to_int32 status else neg_status status)

  pub release_overlapped : M (Port W) ℤ
  release_overlapped = do
    status ← call ft.release_overlapped
    pure (if status == ft_ok then to_int32 status else neg_status status)
