-- ===== src/Tools/Scripted.antt =====
-- A radio with a gain of 255, and a network on which every call works.
use ic7610iq.Prelude.{ℕ, true, none, some, List, [], ◌∷◌, ◌++◌, pos}
use ic7610iq.Common.{civ_eom, reply_header}
use ic7610iq.Port.{Port, new_port}
use ic7610iq.Port.Scripted.{the_radio}
use ic7610iq.Tools.{Numbers, Settings, default_settings}
use ic7610iq.Tools.Net.{Net}

-- What this radio always says.
abbrev pub gain_reply : List ℕ
gain_reply = reply_header ++ (0x29 ∷ 0x01 ∷ 0x14 ∷ 0x02 ∷ 0x02 ∷ 0x55 ∷ civ_eom ∷ 0xff ∷ [])

abbrev pub no_numbers : Numbers
no_numbers = record { to_frequency = λ s. none; to_gain = λ s. none; to_int = λ s. none }

abbrev pub wires : Net (List ℕ)
wires = record {
  get_addresses = λ host port w. (some (1 ∷ []), w);
  open_socket = λ addr w. (some 3, w);
  connect_socket = λ sfd addr w. (true, w);
  close_socket = λ sfd w. w;
  send = λ socket bytes w. (true, w);
}

-- The port, once a program has prepared the radio.
abbrev pub opened : Port (List ℕ)
opened = record (new_port true gain_reply) {
  device_serial_num = the_radio.serial_number;
  is_initialized = true;
  is_open = true;
}

-- With the data on, and then with the thread, and then with `_running`.
abbrev pub enabled : Port (List ℕ)
enabled = record opened { iq_data_enabled = true }

abbrev pub thread_made : Port (List ℕ)
thread_made = record enabled { joinable = true }

abbrev pub running : Port (List ℕ)
running = record thread_made { running = true }

-- The settings that no option has changed, with the gain of the radio.
abbrev pub with_gain : Settings
with_gain = record default_settings { gain = pos 255 }
