-- ===== src/Tools/Writer/Format.antt =====
-- The type that the user asks for never reaches the stream.
use ic7610iq.Prelude.{
  [], Bool, ◌∙◌, Ends-weaken, Option, none, some, ◌≡◌, String, Outcome, returns, throws, undefined,
  Ends, Ends-bind, Ends-any,
}
use ic7610iq.Driver.{Ftd3xx}
use ic7610iq.Port.{Port}
use ic7610iq.Port.Device.{get_device_serial_num}
use ic7610iq.Stream.{
  Stream, Made, made, exits, interleaved_short, StreamFormat, construct, format_of,
}
use ic7610iq.Stream.Opening.{Constructs, construct-Constructs, format_of-S16}
use ic7610iq.Tools.{Settings}
use ic7610iq.Tools.Writer.{
  Machine, writer_radio, get_capture, finish_setup, with_writer, with_serial, writer_setup,
}

-- A stream of the native type, if there is one.
abbrev pub Native : {W : Type 0} → Made W → Type 0
Native (exits code) = Unit
Native (made s) = s.out_type ≡ interleaved_short

-- One that has read and written nothing, besides.
abbrev pub Fresh : {W : Type 0} → Made W → Type 0
Fresh (exits code) = Unit
Fresh (made s) =
    (s.out_type ≡ interleaved_short) × (s.writes ≡ []) × (s.total_read ≡ 0) × (s.total_write ≡ 0)

Fresh-Native : {W : Type 0} (m : Made W) → Fresh m → Native m
Fresh-Native (exits code) f = tt
Fresh-Native (made s) f = f.0

new :
    {W : Type 0} (ft : Ftd3xx W) (w : W) (opens : Bool) (format : StreamFormat)
    (o : Outcome (Port W) (Made W))
    → format ≡ interleaved_short
    → Constructs ft w opens format o
    → Ends (λ m p. Fresh m) o
new ft w opens format (returns (made s) p) e (on, fresh, same, f) =
    (f ∙ e, fresh.idle, fresh.unread, fresh.unwritten)
new ft w opens format (returns (exits code) p) e c = tt
new ft w opens format (throws x p) e c = tt
new ft w opens format undefined e c = tt

module _ {W : Type 0} (ft : Ftd3xx W) (machine : Machine) where
  finish_setup-Fresh :
      (settings : Settings) (s : Stream W) (p : Port W)
      → Fresh (made s)
      → Ends (λ (m, capture) q. Fresh m) (finish_setup ft machine settings s p)
  unfolding finish_setup
  finish_setup-Fresh settings s p e =
      Ends-bind (λ a q. Unit {0}) (λ (m, capture) q. Fresh m) (writer_radio ft settings) _ p
        (Ends-any _)
        (λ settings' q _.
          Ends-bind (λ a r. Unit {0}) (λ (m, capture) r. Fresh m) (get_capture ft machine settings')
            _ q (Ends-any _) (λ capture r _. e))

  with_writer-Fresh :
      (settings : Settings) (m : Made W) (p : Port W)
      → Fresh m
      → Ends (λ (m, capture) q. Fresh m) (with_writer ft machine settings m p)
  unfolding with_writer
  with_writer-Fresh settings (exits code) p n = tt
  with_writer-Fresh settings (made s) p n = finish_setup-Fresh settings s p n

  with_serial-Fresh :
      (settings : Settings) (serial : Option String) (p : Port W)
      → Ends (λ (m, capture) q. Fresh m) (with_serial ft machine settings serial p)
  unfolding with_serial
  with_serial-Fresh settings none p = tt
  with_serial-Fresh settings (some number) p =
      Ends-bind (λ m q. Fresh m) (λ (m, capture) q. Fresh m)
        (construct ft machine.file_opens number "S16") (with_writer ft machine settings) p
        (new ft p.world machine.file_opens (format_of "S16").0
          (construct ft machine.file_opens number "S16" p) format_of-S16
          (construct-Constructs ft machine.file_opens number "S16" p))
        (λ m q n. with_writer-Fresh settings m q n)

  -- The stream that the set-up returns, if it does, is of the native type and has counted nothing.
  pub writer_setup-Fresh :
      (settings : Settings) (p : Port W)
      → Ends (λ (m, capture) q. Fresh m) (writer_setup ft machine settings p)
  unfolding writer_setup
  writer_setup-Fresh settings p =
      Ends-bind (λ s r. Unit {0}) (λ (m, capture) q. Fresh m) (get_device_serial_num ft)
        (with_serial ft machine settings) p (Ends-any _)
        (λ serial r _. with_serial-Fresh settings serial r)

  -- Whatever type `-t` asks for, a stream that the set-up of SigMFFileWriter returns has the native
  -- type.
  pub writer_setup-Native :
      (settings : Settings) (p : Port W)
      → Ends (λ (m, capture) q. Native m) (writer_setup ft machine settings p)
  writer_setup-Native settings p =
      Ends-weaken (λ (m, capture) q. Fresh m) (λ (m, capture) q. Native m) _
        (writer_setup-Fresh settings p) (λ (m, capture) q f. Fresh-Native m f)
