-- ===== src/Tools/Unstarted.antt =====
-- The preparation of the radio leaves a port that no reader has.
use ic7610iq.Prelude.{ℤ, Option, none, some, String, Keeps, Keeps-bind}
use ic7610iq.Driver.{Ftd3xx}
use ic7610iq.Port.Unstarted.{Unstarted, unstarted_rules}
use ic7610iq.Port.Device.Unstarted.{
  init-Unstarted, get_device_serial_num-Unstarted, set_timeout-Unstarted,
}
use ic7610iq.Port.Levels.Unstarted.{get_rf_gain-Unstarted, set_frequency-Unstarted}
use ic7610iq.Tools.{Settings, set_up_radio, prepare_device, prepare}

module _ {W : Type 0} (ft : Ftd3xx W) where
  set_up_radio-Unstarted :
      (timeout : ℤ) (s : Settings) → Keeps Unstarted (set_up_radio ft timeout s)
  unfolding set_up_radio
  set_up_radio-Unstarted timeout s =
      search
        (
          unstarted_rules,
          set_frequency-Unstarted ft,
          get_rf_gain-Unstarted ft,
          set_timeout-Unstarted ft,
        )
        depth 12

  prepare_device-Unstarted :
      (s : Settings) (serial : Option String) → Keeps Unstarted (prepare_device ft s serial)
  unfolding prepare_device
  prepare_device-Unstarted s none = search unstarted_rules
  prepare_device-Unstarted s (some number) =
      search (unstarted_rules, init-Unstarted ft, set_up_radio-Unstarted) depth 12

  pub prepare-Unstarted : (s : Settings) → Keeps Unstarted (prepare ft s)
  unfolding prepare
  prepare-Unstarted s =
      Keeps-bind _ (prepare_device ft s) (get_device_serial_num-Unstarted ft)
        (prepare_device-Unstarted s)
