-- ===== src/Stream/Scripted.antt =====
-- A stream on the scripted library, and its first read.
use ic7610iq.Prelude.{ℕ, ◌*◌, ◌≡◌, refl, true, false, none, List, [], ◌∷◌, ◌++◌, pos, returns}
use ic7610iq.Common.{civ_eom, reply_header}
use ic7610iq.Frame.{put_byte, put_bytes, pad, civ_frame, iq_frame}
use ic7610iq.Port.Command.{send_iq_command, read_iq_reply, icom_iq_command}
use ic7610iq.Port.Device.{enable_iq_data}
use ic7610iq.Port.Scripted.{scripted, ready, the_radio}
use ic7610iq.Pool.{create, new_buffer, new_buffers, reset, acquire}
use ic7610iq.Stream.{
  Stream, StreamFormat, interleaved_short, to_disk, num_stream_buffers, stream_buffer_size,
  main_vfo, put_pool, put_port, on_port, on_pool, enable_data, begin_read, initiate_read, start,
  process, process_and_write_cs16, hand_over, handle_read_complete, read_complete,
}

-- Two samples for every read.
abbrev pub eight_bytes : List ℕ
eight_bytes = 1 ∷ 2 ∷ 3 ∷ 4 ∷ 5 ∷ 6 ∷ 7 ∷ 8 ∷ []

abbrev pub fresh : StreamFormat → Stream (List ℕ)
fresh format = record {
  port = record (ready eight_bytes) { iq_data_enabled = true };
  total_read = 0;
  total_write = 0;
  mode = to_disk;
  out_type = format;
  num_buffers_required = 1;
  pool = create num_stream_buffers (stream_buffer_size * 4);
  overlapped_buffer = none;
  is_waiting = false;
  vfo = main_vfo;
  writes = [];
}

unfoldable pub started :
    (t : Stream (List ℕ)) × (start scripted 0 (fresh interleaved_short) ≡ returns tt t)
unfolding start initiate_read enable_data on_pool put_pool begin_read acquire reset create
    new_buffers new_buffer
started = (_, refl)

-- Its first read.
unfoldable pub read_once :
    (t : Stream (List ℕ)) × (read_complete scripted false started.0 ≡ returns tt t)
    × (started.0.is_waiting ≡ true)
unfolding started read_complete handle_read_complete hand_over process process_and_write_cs16 start
    initiate_read enable_data on_pool put_pool begin_read acquire reset create new_buffers
    new_buffer
read_once = (_, refl, refl)

-- What a radio at 7.3 MHz says, whatever it is asked.
abbrev pub radio_reply : List ℕ
radio_reply = reply_header ++ (0x25 ∷ 0x00 ∷ 0x00 ∷ 0x00 ∷ 0x30 ∷ 0x07 ∷ 0x00 ∷ civ_eom ∷ [])

-- The stream of a program that has set the radio up.
abbrev pub prepared_stream : Stream (List ℕ)
prepared_stream = record (fresh interleaved_short) {
  port = record (ready radio_reply) {
    device_serial_num = the_radio.serial_number;
    is_initialized = true;
    data_timeout_ms = pos 10000;
  };
}

unfoldable pub starts_prepared :
    (t : Stream (List ℕ)) × (start scripted 0 prepared_stream ≡ returns tt t)
unfolding start initiate_read enable_data on_pool on_port put_port put_pool begin_read acquire reset
    create new_buffers new_buffer enable_iq_data icom_iq_command send_iq_command read_iq_reply
    iq_frame civ_frame pad put_bytes put_byte
starts_prepared = (_, refl)
