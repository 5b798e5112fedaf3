-- ===== src/Tools/Writer/Program/Tests.antt =====
-- SigMFFileWriter with `-t CF32`, from its start to its first read.
use ic7610iq.Prelude.{
  ℕ, ◌+◌, ◌/◌, ◌%◌, ◌^◌, ◌≡◌, refl, true, none, some, List, [], ◌∷◌, pos, returns, String,
}
use Prim.Native.String.{◌++◌}
use ic7610iq.Bcd.{read_bcd}
use ic7610iq.Frame.{put_byte, put_bytes, pad, civ_frame, iq_frame}
use ic7610iq.Port.{Port, new_port}
use ic7610iq.Port.Command.{send_iq_command, read_iq_reply, icom_iq_command}
use ic7610iq.Port.Device.{init, get_device_serial_num, set_timeout}
use ic7610iq.Port.Levels.{
  get_rf_gain, gain_value, get_frequency, frequency_value, get_preamp_status,
  get_attenuator_settings,
}
use ic7610iq.Port.Settings.{get_digi_sel_status, get_ip_status}
use ic7610iq.Port.Scripted.{scripted, the_radio}
use ic7610iq.Stream.{made, construct, format_of, is_invalid, interleaved_short, get_read_total}
use ic7610iq.Stream.Scripted.{radio_reply, prepared_stream, starts_prepared}
use ic7610iq.Stream.Totals.{pending, not_run}
use ic7610iq.Tools.{
  Letter, option_t, Numbers, Settings, default_settings, parse, parsed, writer_option, writer_type,
  with_data_type,
}
use ic7610iq.Tools.Writer.{
  Machine, Capture, Metadata, get_meta_data, output_path, writer_radio, get_capture, writer_setup,
  with_writer, with_serial, finish_setup,
}
use ic7610iq.Tools.Writer.Report.{run_seconds, finish_capture}
use ic7610iq.Tools.Writer.Program.{WriterRun, ran, writer_rate}
use ic7610iq.Tools.Writer.Program.Outcome.{writer-metadata}

abbrev machine : Machine
machine = record {
  date = "2025-01-31";
  date_time = "2025-01-31 12:00:00";
  username = "operator";
  file_name = λ path. path;
  file_opens = true;
}

abbrev numbers : Numbers
numbers = record { to_frequency = λ s. none; to_gain = λ s. none; to_int = λ s. none }

abbrev floats : List (Letter × String)
floats = (option_t, "CF32") ∷ []

abbrev settings : Settings
settings = record default_settings { data_type = "CF32" }

abbrev opened : Port (List ℕ)
opened = record (new_port true radio_reply) {
  device_serial_num = the_radio.serial_number;
  is_initialized = true;
  is_open = true;
  data_timeout_ms = pos 10000;
}

abbrev capture : Capture
capture = record {
  start_time = "2025-01-31 12:00:00";
  frequency = pos 7300000;
  rf_gain = pos 3007;
  antenna = "RX";
  preamp_status = pos 0x30;
  attenuator_settings = 0;
  digi_sel = "Off";
  ip_plus = "Off";
  duration = pos 1;
  total_samples = 0;
  execution_time = pos 0;
}

sets_up :
    writer_setup scripted machine settings (new_port true radio_reply)
    ≡ returns (made prepared_stream, some capture) opened
unfolding writer_setup writer_radio get_capture get_frequency frequency_value get_rf_gain gain_value
    get_preamp_status get_attenuator_settings get_digi_sel_status get_ip_status init construct
    format_of is_invalid get_device_serial_num set_timeout icom_iq_command send_iq_command
    read_iq_reply iq_frame civ_frame pad put_bytes put_byte read_bcd with_writer with_serial
    finish_setup
sets_up = refl

abbrev metadata : Metadata
metadata = record {
  date = "2025-01-31";
  data_type = "CF32 le";
  sample_rate = 1920000;
  hw = "Icom IC7610";
  vfo = "main";
  author = "operator";
  software = "SigMF_IC7610_Writter";
  version = "v0.2.1";
  data_file = "x.cf32";
  captures = record capture { execution_time = pos 60 } ∷ [];
}

reads : parse (writer_option numbers) floats default_settings ≡ parsed settings
unfolding parse writer_option writer_type
reads = refl

defaults : with_data_type settings ≡ settings
unfolding with_data_type
defaults = refl

a_minute : run_seconds (pos 1) ≡ some (pos 60)
unfolding run_seconds
a_minute = refl

at_end :
    finish_capture
      (pos 60)
      (get_read_total starts_prepared.0)
      capture
      (get_meta_data machine "CF32" writer_rate 0 "x.cf32")
    ≡ metadata
unfolding finish_capture get_read_total get_meta_data starts_prepared
at_end = refl

whole_run :
    WriterRun numbers scripted machine floats
      ("x.cf32" ∷ [])
      radio_reply
      settings
      "x.cf32"
      0
      starts_prepared.0
      metadata
unfolding output_path
whole_run =
    ran settings true prepared_stream starts_prepared.0 capture opened (pos 60) reads refl defaults
      sets_up starts_prepared.1 a_minute (not_run 0 refl) at_end

writer-metadata_example :
    (c : Capture) × (starts_prepared.0.out_type ≡ interleaved_short)
    × (metadata.data_type ≡ settings.data_type ++ " le")
    × (metadata.data_file ≡ machine.file_name "x.cf32")
    × (metadata.captures ≡ c ∷ [])
    × (run_seconds settings.interval ≡ some c.execution_time)
    × (c.total_samples
        ≡ (starts_prepared.0.total_write + pending starts_prepared.0.writes + 0) % 2 ^ 64 / 4)
writer-metadata_example =
    writer-metadata numbers scripted machine floats ("x.cf32" ∷ []) radio_reply settings "x.cf32" 0
      starts_prepared.0 metadata whole_run
