-- ===== src/Stream/Opening.antt =====
-- What the constructor of the stream leaves.
use ic7610iq.Prelude.{
  ◌*◌, ◌<◌, ◌⊎◌, Bool, Error, ◌≡◌, inl, inr, refl, true, false, String, Bool-cases, [], length,
  Outcome, returns, throws, undefined, ◌>>=◌,
}
use ic7610iq.Driver.{Ftd3xx}
use ic7610iq.Port.{Port}
use ic7610iq.Port.Device.Opening.{listed, init-opens}
use ic7610iq.Pool.Held.{Held, new_pool-Held}
use ic7610iq.Stream.{
  Stream, Made, made, exits, StreamFormat, invalid_format, interleaved_short, complex_float,
  complex_double, num_stream_buffers, stream_buffer_size, format_of, is_invalid, new_stream,
  construct,
}

-- A stream on an open port, with a full pool of 16 buffers, no write under way, nothing counted yet,
-- and a valid format.
pub record IsFresh {W : Type 0} (s : Stream W) : Type 0 where
  pub opened : s.port.is_open ≡ true
  pub full : Held s.pool []
  pub all : length s.pool.buffer_list ≡ num_stream_buffers
  pub idle : s.writes ≡ []
  pub unread : s.total_read ≡ 0
  pub unwritten : s.total_write ≡ 0
  pub valid : is_invalid s.out_type ≡ false

-- What the constructor may come to on a port in the world `w`: a fresh stream with this format, exit
-- code 4 when there is no such format, an exception of the file or of `init`, or it is undefined when
-- the library lists more than 16 devices.
abbrev pub Constructs :
    {W : Type 0} → Ftd3xx W → W → Bool → StreamFormat → Outcome (Port W) (Made W) → Type 0
Constructs ft w opens format (returns (made s) p) =
    (opens ≡ true) × IsFresh s × (s.port ≡ p) × (s.out_type ≡ format)
Constructs ft w opens format (returns (exits code) p) =
    (opens ≡ true) × (code ≡ 4) × (format ≡ invalid_format)
Constructs ft w opens format (throws e p) =
    ((opens ≡ false) × (e ≡ Error.file_not_opened)) ⊎ ((opens ≡ true) × (is_invalid format ≡ false))
Constructs ft w opens format undefined =
    (opens ≡ true) × (is_invalid format ≡ false) × (16 < length (listed ft w))

is_invalid-eq : (format : StreamFormat) → is_invalid format ≡ true → format ≡ invalid_format
unfolding is_invalid
is_invalid-eq invalid_format e = refl
is_invalid-eq interleaved_short e = absurd cc
is_invalid-eq complex_float e = absurd cc
is_invalid-eq complex_double e = absurd cc

pub format_of-S16 : (format_of "S16").0 ≡ interleaved_short
unfolding format_of
format_of-S16 = refl

module _ {W : Type 0} (ft : Ftd3xx W) where
  constructed :
      (serial out_type : String) (p : Port W)
      → Constructs ft p.world true (format_of out_type).0 (construct ft true serial out_type p)
  unfolding construct new_stream
  constructed serial out_type p = elim (Bool-cases (is_invalid (format_of out_type).0)) [
    | inl t ↦ rw t (refl, refl, is_invalid-eq _ t)
    | inr f ↦ elim (init-opens ft serial false p) [
      | inl (w, e) ↦ rw f (
          rw (e, ◌>>=◌)
            (
              refl,
              record {
                opened = refl;
                full = (new_pool-Held num_stream_buffers (stream_buffer_size * 4)).0;
                all = (new_pool-Held num_stream_buffers (stream_buffer_size * 4)).1;
                idle = refl;
                unread = refl;
                unwritten = refl;
                valid = f;
              },
              refl,
              refl,
            ))
      | inr (inl (x, handle, w, e)) ↦ rw f (rw (e, ◌>>=◌) (inr (refl, f)))
      | inr (inr (many, e)) ↦ rw f (rw (e, ◌>>=◌) (refl, f, many))
    ]
  ]

  -- When its file does not open the constructor throws that exception, before anything else. When it
  -- does, it makes a stream of the format that its argument names, on an open port, with its 16
  -- buffers all on the stack and no write under way; or it exits with code 4, on an unknown format and
  -- on no other; or `init` throws; or the library lists more than 16 devices, and it is undefined. It
  -- never exits with code 2.
  pub construct-Constructs :
      (opens : Bool) (serial out_type : String) (p : Port W)
      → Constructs ft p.world opens (format_of out_type).0 (construct ft opens serial out_type p)
  unfolding construct
  construct-Constructs false serial out_type p = inl (refl, refl)
  construct-Constructs true serial out_type p = constructed serial out_type p
