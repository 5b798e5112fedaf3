-- ===== src/Port.antt =====
-- The state of `class IcomIQPort` (include/IcomIQPort.hpp) and its constructor. Its methods, of
-- src/IcomIQPort.cpp, are the child modules. A method is a computation on the state: it `returns`,
-- `throws`, or is `undefined` where the source reads or writes outside an object, reads a variable
-- that was never set, or overflows an `int`. Logging and printing are left out.
pub mod Command
pub mod Device
pub mod Settings
pub mod Levels
pub mod Data
pub mod Async
pub mod Configuration
pub mod Unstarted
pub mod Scripted
mod Tests
use ic7610iq.Prelude.{ℕ, ℤ, pos, Bool, true, false, ◌||◌, ◌==◌, if◌then◌else◌, String, M, returns}
use ic7610iq.Common.{cmd_timeout, data_timeout, cmd_in, cmd_out}
use ic7610iq.Ring.{Ring}
use ic7610iq.Ring

pub record Port (W : Type 0) : Type 0 where
  pub is_initialized : Bool
  pub is_open : Bool
  pub is_stream : Bool
  pub cmd_timeout_ms : ℤ
  pub data_timeout_ms : ℤ
  pub iq_data_enabled : Bool
  pub ip_plus : Bool
  pub digi_sel : Bool
  -- `_running`, and whether `_read_thread` is joinable
  pub running : Bool
  pub joinable : Bool
  pub device_serial_num : String
  -- whether `ftHandle` is not null
  pub has_handle : Bool
  pub iq_buffer : Ring
  pub world : W

module _ {W : Type 0} where
  -- `IcomIQPort()`. It leaves `ftHandle` unset: the caller says what is there.
  abbrev pub new_port : Bool → W → Port W
  new_port handle w = record {
    is_initialized = false;
    is_open = false;
    is_stream = false;
    cmd_timeout_ms = pos cmd_timeout;
    data_timeout_ms = pos data_timeout;
    iq_data_enabled = false;
    ip_plus = false;
    digi_sel = false;
    running = false;
    joinable = false;
    device_serial_num = "";
    has_handle = handle;
    iq_buffer = Ring.create;
    world = w;
  }

  unfoldable pub get_timeout : ℕ → Port W → ℤ
  get_timeout channel_id p =
      if channel_id == cmd_in || channel_id == cmd_out then p.cmd_timeout_ms else p.data_timeout_ms

  -- A call of the library: it changes the world, and nothing else of the port.
  abbrev pub call : {A : Type 0} → (W → A × W) → M (Port W) A
  call f p = let (a, w) = f p.world in returns a (record p { world = w })
