-- ===== src/Tools/Writer/Report.antt =====
-- The end of Tools/SigMFFileWriter.cpp: once the reads are over, the capture goes into the metadata,
-- and these into a file of JSON. The JSON library and the files are parameters.
pub mod Samples
use Prim.Native.String.{◌++◌ as text_append}
use mathlib.Core.List.{◌++◌}
use ic7610iq.Prelude.{
  ℕ, ◌+◌, ◌*◌, ◌/◌, ◌^◌, ℤ, pos, negsuc, Bool, Option, none, some, List, [], ◌∷◌, map, leb,
  if◌then◌else◌, String,
}
use ic7610iq.Tools.Writer.{Capture, Metadata}

-- What the program uses of nlohmann::json. A list of pairs of a text and a value is an object.
pub record Json : Type 1 where
  pub Value : Type 0
  pub text : String → Value
  pub integer : ℤ → Value
  pub natural : ℕ → Value
  -- the `float` next to a number
  pub real : ℤ → Value
  pub object : List (String × Value) → Value
  pub array : List Value → Value
  -- with an indentation
  pub dump : ℕ → Value → String

-- Files, of which one is open at a time, and the extension of a path.
pub record Files (W : Type 0) : Type 0 where
  pub replace_extension : String → String → String
  pub open_output : String → W → Bool × W
  pub write_output : String → W → W
  pub close_output : W → W

-- `interval * 60`, in an `int`: `none` where it overflows.
unfoldable pub run_seconds : ℤ → Option ℤ
run_seconds (pos n) = if leb (n * 60 + 1) (2 ^ 31) then some (pos (n * 60)) else none
run_seconds (negsuc n) = if leb (n * 60 + 60) (2 ^ 31) then some (negsuc (n * 60 + 59)) else none

-- The capture of a run of so many seconds, in which so many bytes were read.
unfoldable pub finish_capture : ℤ → ℕ → Capture → Metadata → Metadata
finish_capture seconds total_read capture metadata = record metadata {
  captures =
      metadata.captures
      ++ ((record capture { total_samples = total_read / 4; execution_time = seconds }) ∷ []);
}

pub get_meta_file_name : {W : Type 0} → Files W → String → String
get_meta_file_name files path = files.replace_extension path ".sigmf-meta"

module _ (json : Json) where
  pub capture_to_json : Capture → json.Value
  capture_to_json params = json.object (
      ("start_time", json.text params.start_time)
      ∷ ("frequency", json.integer params.frequency)
      ∷ ("rf_gain", json.integer params.rf_gain)
      ∷ ("antenna", json.text params.antenna)
      ∷ ("preamp", json.integer params.preamp_status)
      ∷ ("attenuator", json.natural params.attenuator_settings)
      ∷ ("DIGI_SEL", json.text params.digi_sel)
      ∷ ("IPPlus", json.text params.ip_plus)
      ∷ ("duration", json.integer params.duration)
      ∷ ("total_samples", json.natural params.total_samples)
      ∷ ("execution_time", json.real params.execution_time)
      ∷ [])

  pub metadata_to_json : Metadata → json.Value
  unfolding capture_to_json
  metadata_to_json ic7610 = json.object (
      ("date", json.text ic7610.date)
      ∷ ("datatype", json.text ic7610.data_type)
      ∷ ("sample_rate", json.natural ic7610.sample_rate)
      ∷ ("hw", json.text ic7610.hw)
      ∷ ("vfo", json.text ic7610.vfo)
      ∷ ("author", json.text ic7610.author)
      ∷ ("software", json.text ic7610.software)
      ∷ ("version", json.text ic7610.version)
      ∷ ("datafile", json.text ic7610.data_file)
      ∷ ("capatures", json.array (map capture_to_json ic7610.captures))
      ∷ [])

  -- The file of the metadata, where it can be opened.
  pub write_metadata : {W : Type 0} → Files W → String → Metadata → W → W
  unfolding get_meta_file_name metadata_to_json
  write_metadata files path metadata w =
      let value = metadata_to_json metadata in
      let (opened, w') = files.open_output (get_meta_file_name files path) w in
      if opened
      then files.close_output (files.write_output (text_append (json.dump 4 value) "\n") w')
      else w'
