-- ===== src/Soapy/Life/Tests.antt =====
-- A device that is made, activated and deactivated.
use ic7610iq.Prelude.{ℕ, ℤ, ◌≡◌, refl, true, false, List, [], ◌∷◌, pos, returns}
use ic7610iq.Bcd.{read_bcd}
use ic7610iq.Frame.{put_byte, put_bytes, pad, civ_frame, iq_frame}
use ic7610iq.Port.Command.{send_iq_command, read_iq_reply, icom_iq_command}
use ic7610iq.Port.Device.{init, enable_iq_data, disable_iq_data, abort_pipe}
use ic7610iq.Port.Device.Closing.{aborted}
use ic7610iq.Port.Levels.{
  get_rf_gain, gain_value, get_frequency, frequency_value, get_attenuator_settings,
}
use ic7610iq.Port.Settings.{get_antenna, set_digi_sel_status, set_ip_status, set_status}
use ic7610iq.Port.Data.{iq_clear_read_buf}
use ic7610iq.Port.Async.{iq_async_stop, stop_request, stop_finish}
use ic7610iq.Port.Scripted.{scripted}
use ic7610iq.Stream.Scripted.{radio_reply}
use ic7610iq.Soapy.{
  Sdr, new_sdr, set_up_radio, read_radio, construct, destroy, on_port, at, count, vfo_of,
}
use ic7610iq.Soapy.Streaming.{activate_stream, deactivate_stream}
use ic7610iq.Soapy.Scripted.{whole_numbers}
use ic7610iq.Soapy.Idle.{Idle}
use ic7610iq.Soapy.Life.{Call, activate, deactivate, call_device, run_calls, device_life}
use ic7610iq.Soapy.Life.Closing.{device-closes_twice}

abbrev on_and_off : List (Call ℤ)
on_and_off = activate (pos 0) ∷ deactivate ∷ []

unfoldable used :
    (d : Sdr (List ℕ) ℤ) × (device_life scripted whole_numbers [] on_and_off
        (new_sdr scripted whole_numbers false 0 true (pos 0) (pos 0) radio_reply)
      ≡ returns tt d)
unfolding device_life run_calls call_device construct set_up_radio read_radio on_port at count
    vfo_of activate_stream deactivate_stream init enable_iq_data disable_iq_data abort_pipe
    get_rf_gain gain_value get_frequency frequency_value get_attenuator_settings get_antenna
    set_digi_sel_status set_ip_status set_status iq_clear_read_buf iq_async_stop stop_request
    stop_finish icom_iq_command send_iq_command read_iq_reply iq_frame civ_frame pad put_bytes
    put_byte read_bcd
used = (_, refl)

device-closes_twice_example :
    Idle used.0.port
    × (destroy scripted whole_numbers used.0
        ≡ returns tt (record used.0 {
          port = record used.0.port {
            world =
                scripted.close
                  (aborted scripted (scripted.close (aborted scripted used.0.port.world)));
            is_open = false;
          };
        }))
device-closes_twice_example =
    device-closes_twice scripted whole_numbers false true 0 (pos 0) (pos 0) radio_reply []
      on_and_off used.0 used.1
