-- ===== src/Tools/Writer.antt =====
-- Tools/SigMFFileWriter.cpp: a stream to disk for some minutes, and the metadata of its file. The
-- clock, the user's name and the operations on paths are the system's; JSON is a library's.
pub mod Format
pub mod Report
pub mod Program
use Prim.Native.String.{◌++◌}
use ic7610iq.Prelude.{
  ℕ, ◌*◌, ◌/◌, ℤ, pos, negsuc, Bool, true, false, Option, none, some, List, [], ◌∷◌, ◌==◌,
  if◌then◌else◌, String, str_eq, ltb, is_positive, int_eq, to_uint32, M, ◌>>=◌, ◌>>◌, pure, gets,
}
use ic7610iq.Common.{iq_in}
use ic7610iq.Driver.{Ftd3xx}
use ic7610iq.Port.{Port}
use ic7610iq.Port.Device.{get_device_serial_num, set_timeout}
use ic7610iq.Port.Levels.{
  get_rf_gain, get_frequency, set_frequency, get_preamp_status, get_attenuator_settings,
}
use ic7610iq.Port.Settings.{get_digi_sel_status, get_ip_status}
use ic7610iq.Stream.{Stream, Made, made, exits, construct}
use ic7610iq.Tools.{Settings, int_min}

pub record Capture : Type 0 where
  pub start_time : String
  pub frequency : ℤ
  pub rf_gain : ℤ
  pub antenna : String
  pub preamp_status : ℤ
  pub attenuator_settings : ℕ
  pub digi_sel : String
  pub ip_plus : String
  pub duration : ℤ
  pub total_samples : ℕ
  -- a `float`, which is only ever set to a number of seconds
  pub execution_time : ℤ

pub record Metadata : Type 0 where
  pub date : String
  pub data_type : String
  pub sample_rate : ℕ
  pub hw : String
  pub vfo : String
  pub author : String
  pub software : String
  pub version : String
  pub data_file : String
  pub captures : List Capture

-- The machine that the program runs on.
pub record Machine : Type 0 where
  pub date : String
  pub date_time : String
  pub username : String
  -- the last part of a path
  pub file_name : String → String
  -- whether the file at the path opens
  pub file_opens : Bool

-- `VERSION_SIGMFFILEWRITTER` of include/version.h
abbrev pub version_sigmf_file_writter : String
version_sigmf_file_writter = "v0.2.1"

-- The operands: one path, or `usage`, which is `none`.
pub output_path : List String → Option String
output_path [] = none
output_path (path ∷ []) = some path
output_path (path ∷ other ∷ rest) = none

-- The source tests whether the function `isLittleEndian` is there, and does not call it.
pub get_meta_data : Machine → String → ℕ → ℕ → String → Metadata
get_meta_data machine data_type sample_rate vfo path = record {
  date = machine.date;
  data_type = data_type ++ " le";
  sample_rate = sample_rate;
  hw = "Icom IC7610";
  vfo = if vfo == 0 then "main" else "sub";
  author = machine.username;
  software = "SigMF_IC7610_Writter";
  version = version_sigmf_file_writter;
  data_file = machine.file_name path;
  captures = [];
}

module _ {W : Type 0} (ft : Ftd3xx W) where
  -- The frequency that is set or read, the gain, which is read in both branches, and the timeout.
  unfoldable pub writer_radio : Settings → M (Port W) Settings
  writer_radio s = do
    frequency ←
        (if is_positive s.frequency
          then (do _ ← set_frequency ft s.vfo (to_uint32 s.frequency); pure s.frequency)
          else get_frequency ft s.vfo)
    gain ← if int_eq s.gain int_min then get_rf_gain ft s.vfo else get_rf_gain ft s.vfo
    set_timeout ft iq_in (pos 10000)
    pure (record s { frequency = frequency; gain = gain })

  unfoldable pub get_capture : Machine → Settings → M (Port W) Capture
  get_capture machine s = do
    frequency ← get_frequency ft s.vfo
    rf_gain ← get_rf_gain ft s.vfo
    preamp_status ← get_preamp_status ft s.vfo
    attenuator_settings ← get_attenuator_settings ft s.vfo
    digi_sel ← get_digi_sel_status ft s.vfo
    ip_plus ← get_ip_status ft s.vfo
    pure (record {
      start_time = machine.date_time;
      frequency = frequency;
      rf_gain = rf_gain;
      antenna = "RX";
      preamp_status = preamp_status;
      attenuator_settings = attenuator_settings;
      digi_sel = if digi_sel then "On" else "Off";
      ip_plus = if ip_plus then "On" else "Off";
      duration = s.interval;
      total_samples = 0;
      execution_time = pos 0;
    })

  -- From the radio's settings to the capture, on the port of a stream.
  unfoldable pub finish_setup : Machine → Settings → Stream W → M (Port W) (Made W × Option Capture)
  unfolding writer_radio get_capture
  finish_setup machine settings s = do
    settings' ← writer_radio settings
    capture ← get_capture machine settings'
    port ← gets λ p. p
    pure (made (record s { port = port }), some capture)

  -- With a stream, or without one, for the constructor may exit.
  unfoldable pub with_writer : Machine → Settings → Made W → M (Port W) (Made W × Option Capture)
  unfolding finish_setup
  with_writer machine settings (exits code) = pure (exits code, none)
  with_writer machine settings (made s) = finish_setup machine settings s

  unfoldable pub with_serial :
      Machine → Settings → Option String → M (Port W) (Made W × Option Capture)
  unfolding with_writer
  with_serial machine settings none = pure (exits 1, none)
  with_serial machine settings (some number) = do
    writer ← construct ft machine.file_opens number "S16"
    with_writer machine settings writer

  -- From the device to the start of the reads. The stream is made without a type: it has the
  -- default one.
  unfoldable pub writer_setup : Machine → Settings → M (Port W) (Made W × Option Capture)
  unfolding with_serial
  writer_setup machine settings = do
    serial ← get_device_serial_num ft
    with_serial machine settings serial
