-- ===== src/Civ/Tests.antt =====
-- A serial port on which a reply waits, byte by byte.
use ic7610iq.Prelude.{ℕ, ◌≡◌, refl, ℤ, pos, true, some, List, [], ◌∷◌, length, returns, arith}
use ic7610iq.Common.{civ_eom}
use ic7610iq.Civ.{SerialPort, new_civ_port, read_civ_reply}
use ic7610iq.Civ.Reading.{nothing, byte, read_civ_reply-Delivers}

-- The next byte of what waits, or a time out.
next : List ℕ → (ℤ × ℕ) × List ℕ
next [] = ((pos 0, 0), [])
next (b ∷ bs) = ((pos 1, b), bs)

abbrev waiting_bytes : SerialPort (List ℕ)
waiting_bytes = record {
  list_ports = λ w. ((true, record { name = "COM3"; usb = some (0x10c4, 0xea60) } ∷ []), w);
  free_port_list = λ w. w;
  get_port_by_name = λ name w. (true, w);
  open_read_write = λ w. (true, w);
  close = λ w. w;
  free_port = λ w. w;
  set_baudrate = λ baudrate w. w;
  set_bits = λ bits w. w;
  set_parity_none = λ w. w;
  set_stopbits = λ bits w. w;
  set_flowcontrol_none = λ w. w;
  blocking_write = λ bytes timeout w. (pos (length bytes), w);
  blocking_read = λ timeout w. next w;
}

abbrev two_messages : List ℕ
two_messages = 0xfe ∷ 0xfb ∷ civ_eom ∷ 0xfe ∷ []

read_civ_reply-Delivers_example :
    read_civ_reply waiting_bytes [] (new_civ_port two_messages)
    ≡ returns (pos 3, 0xfe ∷ 0xfb ∷ civ_eom ∷ []) (new_civ_port (0xfe ∷ []))
unfolding next
read_civ_reply-Delivers_example =
    read_civ_reply-Delivers waiting_bytes (0xfe ∷ 0xfb ∷ []) (new_civ_port two_messages) (0xfe ∷ [])
      (omega arith) (λ e. omega (arith, e), (λ e. omega (arith, e), tt))
      (byte refl (byte refl (byte refl nothing)))
