-- ===== src/Driver.antt =====
-- The FTDI D3XX library, which the port calls and this repository only links: a parameter of the
-- model. `W` is whatever the library and the radio behind it remember. A call takes the world to a
-- new one and returns its `FT_STATUS` and what it writes through its pointers; a read returns the
-- bytes that it stored, so the count is their number.
use ic7610iq.Prelude.{ℕ, ℤ, Bool, List, String}

pub record Node : Type 0 where
  pub serial_number : String
  pub description : String

pub record Ftd3xx (W : Type 0) : Type 0 where
  -- status and number of devices
  pub create_device_info_list : W → (ℕ × ℕ) × W
  -- status and the nodes
  pub get_device_info_list : W → (ℕ × List Node) × W
  -- whether the handle is not null
  pub create : String → W → Bool × W
  pub close : W → W
  pub abort_pipe : ℕ → W → ℕ × W
  -- pipe and bytes; status and number of bytes written
  pub write_pipe : ℕ → List ℕ → W → (ℕ × ℕ) × W
  -- pipe and size of the buffer; status and bytes read
  pub read_pipe : ℕ → ℕ → W → (ℕ × List ℕ) × W
  -- pipe, size of the buffer and whether the read is overlapped
  pub read_pipe_ex : ℕ → ℕ → Bool → W → ℕ × W
  -- whether to wait; status and bytes read
  pub get_overlapped_result : Bool → W → (ℕ × List ℕ) × W
  pub set_pipe_timeout : ℕ → ℤ → W → ℕ × W
  pub set_stream_pipe : ℕ → ℕ → W → ℕ × W
  pub clear_stream_pipe : ℕ → W → ℕ × W
  pub initialize_overlapped : W → ℕ × W
  pub release_overlapped : W → ℕ × W
  -- status, vendor and product
  pub get_chip_configuration : W → (ℕ × ℕ × ℕ) × W
  -- status, vendor, product and number of configurations
  pub get_device_descriptor : W → (ℕ × ℕ × ℕ × ℕ) × W
