-- ===== src/Port/Device/Unstarted.antt =====
-- Opening a port, its timeouts and the data switch, before its reader.
use ic7610iq.Prelude.{ℕ, ℤ, Bool, String, Keeps}
use ic7610iq.Driver.{Ftd3xx}
use ic7610iq.Port.Unstarted.{Unstarted, Keeps-change, unstarted_rules}
use ic7610iq.Port.Device.{init, get_device_serial_num, set_timeout, enable_iq_data}

module _ {W : Type 0} (ft : Ftd3xx W) where
  pub init-Unstarted : (serial : String) (stream : Bool) → Keeps Unstarted (init ft serial stream)
  unfolding init
  init-Unstarted serial stream = search (unstarted_rules, Keeps-change) depth 12

  pub get_device_serial_num-Unstarted : Keeps Unstarted (get_device_serial_num ft)
  unfolding get_device_serial_num
  get_device_serial_num-Unstarted = search unstarted_rules depth 12

  pub set_timeout-Unstarted :
      (channel : ℕ) (timeout : ℤ) → Keeps Unstarted (set_timeout ft channel timeout)
  unfolding set_timeout
  set_timeout-Unstarted channel timeout = search (unstarted_rules, Keeps-change) depth 12

  pub enable_iq_data-Unstarted : (source : ℕ) → Keeps Unstarted (enable_iq_data ft source)
  unfolding enable_iq_data
  enable_iq_data-Unstarted source = search (unstarted_rules, Keeps-change) depth 12
