-- ===== src/Soapy/Life.antt =====
-- The life of a device: its constructor, the calls that SoapySDR makes, and its destructor.
pub mod Kept
pub mod Closing
mod Tests
use ic7610iq.Prelude.{ℕ, ℤ, List, [], ◌∷◌, String, M, ◌>>=◌, ◌>>◌, pure, modify}
use ic7610iq.Driver.{Ftd3xx}
use ic7610iq.Soapy.{Api, Kwargs, Sdr, construct}
use ic7610iq.Soapy.Capabilities.{clear_buffers}
use ic7610iq.Soapy.Settings.{set_antenna_by_name, set_frequency_of}
use ic7610iq.Soapy.Streaming.{
  setup_stream, activate_stream, deactivate_stream, close_stream, read_stream,
}

-- A call that may change the device, with its arguments; an array is its size in bytes.
pub data Call (D : Type 0) : Type 0 where
  select_antenna : ℤ → String → Call D
  select_frequency : ℤ → String → D → Call D
  set_up : ℤ → String → List ℕ → Call D
  activate : ℤ → Call D
  deactivate close clear : Call D
  read : ℕ → ℕ → Call D

module _ {W D : Type 0} (ft : Ftd3xx W) (api : Api D) where
  pub call_device : Call D → M (Sdr W D) (Unit {0})
  call_device (select_antenna direction name) = set_antenna_by_name ft api direction name
  call_device (select_frequency direction name frequency) =
      set_frequency_of ft api direction name frequency
  call_device (set_up direction format channels) = setup_stream ft api direction format channels
  call_device (activate flags) = do _ ← activate_stream ft api flags; pure tt
  call_device deactivate = do _ ← deactivate_stream ft api; pure tt
  call_device close = close_stream ft api
  call_device clear = modify clear_buffers
  call_device (read num_elems capacity) = do _ ← read_stream ft api num_elems capacity; pure tt

  pub run_calls : List (Call D) → M (Sdr W D) (Unit {0})
  unfolding call_device
  run_calls [] = pure tt
  run_calls (c ∷ cs) = do call_device c; run_calls cs

  -- From the constructor on.
  pub device_life : Kwargs → List (Call D) → M (Sdr W D) (Unit {0})
  unfolding run_calls
  device_life args calls = do construct ft api args; run_calls calls
