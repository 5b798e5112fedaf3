-- ===== src/Soapy/Streaming.antt =====
-- The stream of the device: src/IC7610SDR_Streaming.cpp.
pub mod Laws
pub mod Bounds
use ic7610iq.Prelude.{
  ℕ, ◌+◌, ◌-◌, ◌*◌, ◌/◌, ◌%◌, min, ℤ, pos, negsuc, int_eq, is_positive, Bool, true, false, ◌&&◌,
  ◌||◌, not, Option, none, some, List, [], ◌∷◌, ltb, leb, ◌==◌, if◌then◌else◌, length, take, String,
  str_eq, Outcome, M, ◌>>=◌, ◌>>◌, pure, throw, gets, modify, require, Error,
}
use ic7610iq.Common.{iq_in, iq_block_length, bytes_per_sample}
use ic7610iq.Driver.{Ftd3xx}
use ic7610iq.Port.{Port}
use ic7610iq.Port.Device.{enable_iq_data, disable_iq_data, abort_pipe}
use ic7610iq.Port.Data.{read_iq_data, iq_clear_read_buf}
use ic7610iq.Port.Async.{iq_async_stop}
use ic7610iq.Soapy.{Api, Sdr, on_port}

pub data Ic7610FormatTypes : Type 0 where
  ic7610_invalid ic7610_short ic7610_complex_short ic7610_complex_float : Ic7610FormatTypes
  ic7610_complex_double : Ic7610FormatTypes

-- What `readStream` stores in the caller's array: nothing, or `float`s or `double`s, each of them the
-- integer given here divided by 32768.
pub data Filled : Type 0 where
  untouched : Filled
  floats : List ℤ → Filled
  doubles : List ℤ → Filled

-- Two bytes as a `short`, the low byte first.
pub to_short : ℕ → ℕ → ℤ
to_short low high = let w = low + 256 * high in if ltb w 32768 then pos w else negsuc (65535 - w)

-- The real and imaginary parts of the samples in `bytes`.
pub shorts : List ℕ → List ℤ
shorts [] = []
shorts (low ∷ []) = []
shorts (low ∷ high ∷ bytes) = to_short low high ∷ shorts bytes

-- `SoapySDR::ArgInfo`, as far as it is set.
pub record ArgInfo : Type 0 where
  pub key : String
  pub value : String
  pub name : String
  pub description : String
  pub units : String

module _ {W D : Type 0} (ft : Ftd3xx W) (api : Api D) where
  abbrev rx_only : {A : Type 0} → ℤ → M (Sdr W D) A → M (Sdr W D) A
  rx_only direction m = if int_eq direction api.rx then m else throw Error.rx_only

  pub valid_format : String → Ic7610FormatTypes
  valid_format format =
      if str_eq format api.s16
      then ic7610_short
      else if str_eq format api.cs16
      then ic7610_complex_short
      else if str_eq format api.cf32
      then ic7610_complex_float
      else if str_eq format api.cf64
      then ic7610_complex_double
      else ic7610_invalid

  -- `(int)` of the enumerator.
  format_index : Ic7610FormatTypes → ℕ
  format_index ic7610_invalid = 0
  format_index ic7610_short = 1
  format_index ic7610_complex_short = 2
  format_index ic7610_complex_float = 3
  format_index ic7610_complex_double = 4

  pub get_stream_formats : ℤ → M (Sdr W D) (List String)
  get_stream_formats direction =
      rx_only direction (pure (api.s16 ∷ api.cs16 ∷ api.cf32 ∷ api.cf64 ∷ []))

  -- `std::to_string` of the rate, which is always 1920000, and of the frequency, is the library's.
  pub get_stream_args_info : (ℕ → String) → (D → String) → ℤ → M (Sdr W D) (List ArgInfo)
  get_stream_args_info show_rate show_frequency direction = rx_only direction (do
    frequency ← gets λ d. d.rx_frequency
    pure (
        (record {
          key = "sample_rate";
          value = show_rate 1920000;
          name = "sample rate frequncy";
          description = "The IC7610 has a fixed sample rate";
          units = "Hz";
        })
        ∷ (record {
          key = "frequency";
          value = show_frequency frequency;
          name = "Center Frequency";
          description = "Sample center frequency";
          units = "Hz";
        })
        ∷ []))

  -- The format and `fullScale`.
  pub get_native_stream_format : ℤ → M (Sdr W D) (String × ℕ)
  get_native_stream_format direction = rx_only direction (pure (api.cs16, 32768))

  pub get_stream_mtu : Sdr W D → ℕ
  get_stream_mtu d =
      let mtu = iq_block_length / bytes_per_sample in
      if str_eq d.rx_format api.s16 then mtu * 2 else mtu

  unfoldable pub setup_stream : ℤ → String → List ℕ → M (Sdr W D) (Unit {0})
  unfolding format_index
  setup_stream direction format channels = rx_only direction (elim channels [
    | [] ↦ choose
    | channel ∷ rest ↦
        if ltb 0 (length rest) || not (channel == 0) then throw Error.invalid_channel else choose
  ])
    where
      choose : M (Sdr W D) (Unit {0})
      choose = modify λ d. record d {
        rx_format = if ltb 0 (format_index (valid_format format)) then format else api.cs16;
      }

  -- The stream is never marked as opened, and the receiver is `_vfo`, which nothing sets.
  unfoldable pub activate_stream : ℤ → M (Sdr W D) ℤ
  activate_stream flags = if not (int_eq flags (pos 0)) then pure api.not_supported else (do
    opened ← gets λ d. d.rx_opened
    vfo ← gets λ d. d.vfo
    if not opened
        then (do
          enabled ← on_port (enable_iq_data ft vfo)
          if enabled then (do _ ← on_port (abort_pipe ft iq_in); pure (pos 0)) else pure (negsuc 0))
        else pure (negsuc 0))

  unfoldable pub deactivate_stream : M (Sdr W D) ℤ
  deactivate_stream = do
    on_port (iq_async_stop ft)
    on_port (disable_iq_data ft)
    modify λ d. record d { port = iq_clear_read_buf d.port }
    pure (pos 0)

  unfoldable pub close_stream : M (Sdr W D) (Unit {0})
  close_stream = do _ ← deactivate_stream; pure tt

  -- The samples of `bytes` as the format asks. `memcpy` of the two short formats goes from the
  -- caller's array, of `capacity` bytes, into the local one.
  unfoldable pub store_samples : String → ℕ → ℕ → List ℕ → M (Sdr W D) Filled
  store_samples format capacity samples bytes =
      if str_eq format api.s16
      then (do require (leb (samples * 4) capacity); pure untouched)
      else if str_eq format api.cs16
      then (do require (leb (samples * 4) capacity); pure untouched)
      else if str_eq format api.cf32
      then (do
        require (leb (samples * 8) capacity)
        pure (floats (shorts (take (samples * 4) bytes))))
      else if str_eq format api.cf64
      then (do
        require (leb (samples * 16) capacity)
        pure (doubles (shorts (take (samples * 4) bytes))))
      else pure untouched

  -- Of `numElems` elements into an array of `capacity` bytes.
  unfoldable pub read_stream : ℕ → ℕ → M (Sdr W D) (ℤ × Filled)
  unfolding store_samples
  read_stream num_elems capacity = do
    d ← gets λ d. d
    let wanted = min num_elems (get_stream_mtu d)
    let returned = if str_eq d.rx_format api.s16 then wanted / 2 else wanted
    (samples, bytes) ← on_port (read_iq_data ft returned false)
    elim samples [
      | negsuc n ↦ pure (negsuc n, untouched)
      | pos n ↦
          if ltb 0 n
          then (do filled ← store_samples d.rx_format capacity n bytes; pure (pos n, filled))
          else pure (pos n, untouched)
    ]
