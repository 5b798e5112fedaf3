-- ===== src/Tools/Writer/Program/Outcome.antt =====
-- What the metadata of a whole run of SigMFFileWriter says.
use Prim.Native.String.{◌++◌}
use ic7610iq.Prelude.{
  ℕ, ◌+◌, ◌/◌, ◌%◌, ◌^◌, [], ◌∷◌, List, String, some, Ends, subst, sym, ap, ◌≡◌, refl, ◌∙◌,
}
use ic7610iq.Driver.{Ftd3xx}
use ic7610iq.Port.{new_port}
use ic7610iq.Stream.{Stream, interleaved_short}
use ic7610iq.Stream.Totals.{pending, run-Counted}
use ic7610iq.Tools.{Letter, Numbers, Settings}
use ic7610iq.Tools.Writer.{Machine, Capture, Metadata, get_meta_data}
use ic7610iq.Tools.Writer.Format.{Fresh, writer_setup-Fresh}
use ic7610iq.Tools.Writer.Report.{run_seconds}
use ic7610iq.Tools.Writer.Report.Samples.{finish_capture-samples}
use ic7610iq.Tools.Writer.Program.{WriterRun, ran, writer_rate}

module _ {W : Type 0} (numbers : Numbers) (ft : Ftd3xx W) (machine : Machine) where
  -- Whatever the options and the operands, by the time that the context of SigMFFileWriter has run:
  -- the stream writes the native type, and the metadata names the type of the settings and the file,
  -- and has one capture, with the seconds of the run and the samples of all the bytes read, modulo 2 ^
  -- 64, those of the writes that failed or are under way included.
  pub writer-metadata :
      (options : List (Letter × String)) (operands : List String) (w : W) (s : Settings)
      (path : String) (lost : ℕ) (u : Stream W) (metadata : Metadata)
      → WriterRun numbers ft machine options operands w s path lost u metadata
      → (c : Capture) × (u.out_type ≡ interleaved_short)
        × (metadata.data_type ≡ s.data_type ++ " le")
        × (metadata.data_file ≡ machine.file_name path)
        × (metadata.captures ≡ c ∷ [])
        × (run_seconds s.interval ≡ some c.execution_time)
        × (c.total_samples ≡ (u.total_write + pending u.writes + lost) % 2 ^ 64 / 4)
  unfolding get_meta_data
  writer-metadata options operands w s path lost u metadata
        (ran given handle stream t capture p seconds e1 e2 e3 e4 e5 e6 r e7) =
      let (k, i, z, z') =
        subst (Ends (λ (m, c) q. Fresh m)) e4
          (writer_setup-Fresh ft machine s (new_port handle w)) in
      let same =
        finish_capture-samples ft stream t u s.vfo lost seconds capture
          (get_meta_data machine s.data_type writer_rate s.vfo path) k i z z' e5 r in
      let all = sym e7 ∙ same in
      (
        record capture {
          total_samples = (u.total_write + pending u.writes + lost) % 2 ^ 64 / 4;
          execution_time = seconds;
        },
        (run-Counted ft stream t u s.vfo lost k i z z' e5 r).0,
        ap (λ m. m.data_type) all,
        ap (λ m. m.data_file) all,
        ap (λ m. m.captures) all,
        e6,
        refl,
      )
