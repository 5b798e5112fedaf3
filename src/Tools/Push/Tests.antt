-- ===== src/Tools/Push/Tests.antt =====
-- zmqPush with `-t CF32`, from its start to its loop.
use ic7610iq.Prelude.{◌≡◌, refl, true, false, none, some, List, [], ◌∷◌, returns, String}
use ic7610iq.Bcd.{read_bcd}
use ic7610iq.Frame.{put_byte, put_bytes, pad, civ_frame, iq_frame}
use ic7610iq.Port.{new_port}
use ic7610iq.Port.Command.{send_iq_command, read_iq_reply, icom_iq_command}
use ic7610iq.Port.Device.{init, get_device_serial_num, set_timeout, enable_iq_data}
use ic7610iq.Port.Levels.{get_rf_gain, gain_value}
use ic7610iq.Port.Async.{starting, start_enabled}
use ic7610iq.Port.Async.Turns.{start_thread_lem, set_running_lem}
use ic7610iq.Port.Scripted.{scripted}
use ic7610iq.Tools.{
  Letter, option_t, Settings, prepared, parse, push_option, with_data_type, prepare,
}
use ic7610iq.Tools.Net.{new_buf}
use ic7610iq.Tools.Scripted.{
  gain_reply, no_numbers, opened, enabled, thread_made, running, with_gain,
}
use ic7610iq.Tools.Programs.{push_prepare}
use ic7610iq.Tools.Push.{no_samples}
use ic7610iq.Tools.Push.Program.{
  set_up, pushing, PushTurns, no_turn, then_turn, spawn, announce, ran,
}
use ic7610iq.Tools.Push.Outcome.{PushOutcome, push-outcome}

abbrev floats : List (Letter × String)
floats = (option_t, "CF32") ∷ []

abbrev settings : Settings
settings = record with_gain { data_type = "CF32" }

prepares :
    push_prepare no_numbers scripted floats (new_port false gain_reply)
    ≡ returns (prepared settings) opened
unfolding push_prepare parse push_option with_data_type prepare init get_device_serial_num
    set_timeout get_rf_gain gain_value icom_iq_command send_iq_command read_iq_reply iq_frame
    civ_frame pad put_bytes put_byte read_bcd
prepares = refl

enables : start_enabled scripted 0x00 opened ≡ returns true enabled
unfolding start_enabled enable_iq_data icom_iq_command send_iq_command read_iq_reply iq_frame
    civ_frame pad put_bytes put_byte
enables = refl

at_loop :
    PushTurns scripted
      (λ bytes w. some w)
      "CF32"
      0x00
      (record { port = opened; reader = none })
      set_up
      (record { port = running; reader = some starting })
      (pushing new_buf no_samples)
at_loop =
    then_turn
      (then_turn no_turn
        (spawn enabled thread_made refl enables (start_thread_lem scripted enabled)))
      (announce running (set_running_lem scripted thread_made))

push-outcome_example : PushOutcome (λ bytes w. some w) "CF32" running (pushing new_buf no_samples)
push-outcome_example =
    push-outcome no_numbers scripted (λ bytes w. some w) floats gain_reply "CF32"
      (record { port = running; reader = some starting }) (pushing new_buf no_samples)
      (ran settings opened prepares refl at_loop)
