-- ===== src/Tools/Writer/Program.antt =====
-- The whole of SigMFFileWriter (Tools/SigMFFileWriter.cpp): its options and its operand, its set-up, the
-- completions while the context runs, and the metadata at the end.
pub mod Outcome
mod Tests
use ic7610iq.Prelude.{ℕ, Bool, Option, some, List, String, ℤ, returns, ◌≡◌}
use ic7610iq.Driver.{Ftd3xx}
use ic7610iq.Port.{Port, new_port}
use ic7610iq.Stream.{Stream, made, start, get_read_total}
use ic7610iq.Stream.Totals.{Ran}
use ic7610iq.Tools.{
  Letter, Numbers, Settings, default_settings, parsed, parse, writer_option, with_data_type,
}
use ic7610iq.Tools.Writer.{Machine, Capture, Metadata, output_path, get_meta_data, writer_setup}
use ic7610iq.Tools.Writer.Report.{run_seconds, finish_capture}

-- The sample rate that goes into the metadata.
abbrev pub writer_rate : ℕ
writer_rate = 1920000

-- What `main` may come to on these options and operands, in the world `w`, by the time that the context
-- has run: its settings, the path of its file, the bytes of the writes that failed, the stream, and the
-- metadata. The stream is made on the heap, so nothing says whether its handle is null at first. A
-- write writes all its bytes or fails.
pub data WriterRun {W : Type 0} (numbers : Numbers) (ft : Ftd3xx W) (machine : Machine)
    (options : List (Letter × String)) (operands : List String) (w : W) (s : Settings)
    (path : String) (lost : ℕ) (u : Stream W) (metadata : Metadata) : Type 0 where
  ran :
      (given : Settings) (handle : Bool) (stream t : Stream W) (capture : Capture) (p : Port W)
      (seconds : ℤ)
      → parse (writer_option numbers) options default_settings ≡ parsed given
      → output_path operands ≡ some path
      → with_data_type given ≡ s
      → writer_setup ft machine s (new_port handle w) ≡ returns (made stream, some capture) p
      → start ft s.vfo stream ≡ returns tt t
      → run_seconds s.interval ≡ some seconds
      → Ran ft t lost u
      → finish_capture seconds
          (get_read_total u)
          capture
          (get_meta_data machine s.data_type writer_rate s.vfo path)
        ≡ metadata
      → WriterRun numbers ft machine options operands w s path lost u metadata
