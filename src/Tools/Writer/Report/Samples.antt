-- ===== src/Tools/Writer/Report/Samples.antt =====
-- What the metadata says of the samples of a run: Tools/SigMFFileWriter.cpp on the stream of
-- include/IcomIQStream.hpp.
use ic7610iq.Prelude.{ℕ, ◌+◌, ◌/◌, ◌%◌, ◌^◌, ℤ, [], ◌∷◌, ◌++◌, returns, ◌≡◌, ap, ◌∙◌}
use ic7610iq.Driver.{Ftd3xx}
use ic7610iq.Stream.{Stream, interleaved_short, start, get_read_total}
use ic7610iq.Stream.Totals.{pending, Ran, total_read-splits, get_read_total_lem}
use ic7610iq.Tools.Writer.{Capture, Metadata}
use ic7610iq.Tools.Writer.Report.{finish_capture}

module _ {W : Type 0} (ft : Ftd3xx W) where
  -- After a run of a new stream of the native type, in which every write wrote all its bytes or
  -- failed, the metadata has one capture more, behind the others, and its number of samples is that
  -- of all the bytes read, modulo 2 ^ 64: those written to the file, those of the writes under way
  -- when the run ends, and those of the writes that failed. Nothing else changes but its time.
  pub finish_capture-samples :
      (s t u : Stream W) (vfo lost : ℕ) (seconds : ℤ) (capture : Capture) (metadata : Metadata)
      → s.out_type ≡ interleaved_short
      → s.writes ≡ []
      → s.total_read ≡ 0
      → s.total_write ≡ 0
      → start ft vfo s ≡ returns tt t
      → Ran ft t lost u
      → finish_capture seconds (get_read_total u) capture metadata ≡ record metadata {
        captures =
            metadata.captures
            ++ (record capture {
              total_samples = (u.total_write + pending u.writes + lost) % 2 ^ 64 / 4;
              execution_time = seconds;
            }
                ∷ []);
      }
  unfolding finish_capture
  finish_capture-samples s t u vfo lost seconds capture metadata k w r z e ran =
      ap
        (λ n. record metadata {
          captures =
              metadata.captures
              ++ (record capture { total_samples = n / 4; execution_time = seconds } ∷ []);
        })
        (get_read_total_lem u ∙ total_read-splits ft s t u vfo lost k w r z e ran)
