-- ===== src/Port/Scripted.antt =====
-- A library for tests: every call works, and every read gives the bytes that it remembers.
use ic7610iq.Prelude.{
  ℕ, ◌≤◌, refl, true, List, [], ◌∷◌, leb, leb→le, le→leb, Bool-cases, inl, inr, if◌then◌else◌,
  length, arith,
}
use ic7610iq.Common.{ft_ok}
use ic7610iq.Frame.Laws.{iq_frame_lem}
use ic7610iq.Driver.{Node, Ftd3xx}
use ic7610iq.Port.{Port, new_port}
use ic7610iq.Port.Command.Exchange.{Answers, Bounded}

abbrev pub the_radio : Node
the_radio = record { serial_number = "IC-7610 000001"; description = "IC-7610" }

abbrev pub scripted : Ftd3xx (List ℕ)
scripted = record {
  create_device_info_list = λ w. ((ft_ok, 1), w);
  get_device_info_list = λ w. ((ft_ok, the_radio ∷ []), w);
  create = λ serial w. (true, w);
  close = λ w. w;
  abort_pipe = λ pipe w. (ft_ok, w);
  write_pipe = λ pipe bytes w. ((ft_ok, length bytes), w);
  read_pipe = λ pipe size w. ((ft_ok, if leb (length w) size then w else []), w);
  read_pipe_ex = λ pipe size overlapped w. (ft_ok, w);
  get_overlapped_result = λ wait w. ((ft_ok, w), w);
  set_pipe_timeout = λ pipe timeout w. (ft_ok, w);
  set_stream_pipe = λ pipe size w. (ft_ok, w);
  clear_stream_pipe = λ pipe w. (ft_ok, w);
  initialize_overlapped = λ w. (ft_ok, w);
  release_overlapped = λ w. (ft_ok, w);
  get_chip_configuration = λ w. ((ft_ok, 0x0403, 0x601f), w);
  get_device_descriptor = λ w. ((ft_ok, 0x0403, 0x601f, 1), w);
}

pub scripted-Bounded : Bounded scripted
scripted-Bounded pipe size w = elim (Bool-cases (leb (length w) size)) [
  | inl t ↦ rw t (leb→le _ _ t)
  | inr f ↦ rw f (omega arith)
]

pub scripted-Answers :
    (cmd reply : List ℕ)
    → length cmd ≤ 27
    → length reply ≤ 256
    → Answers scripted cmd reply reply reply
scripted-Answers cmd reply short fits = elim (iq_frame_lem cmd) [
  | inl (_, e, _, _) ↦ record {
    frame = _;
    sent_world = reply;
    framed = e;
    sent = refl;
    received = rw (le→leb _ _ fits) refl;
    fits = fits;
  }
  | inr (long, _) ↦ absurd (omega arith)
]

-- An open port, before which the radio has these bytes to say.
abbrev pub ready : List ℕ → Port (List ℕ)
ready reply = record (new_port true reply) { is_open = true }
