-- ===== src/Common.antt =====
-- include/common.h: the CI-V protocol bytes, the pipes of the FT60x, and the buffer sizes; and the
-- status codes of include/ftd3xx.h that the port compares with.
use ic7610iq.Prelude.{ℕ, List, [], ◌∷◌}

abbrev pub civ_preamble : ℕ
civ_preamble = 0xfe

abbrev pub civ_eom : ℕ
civ_eom = 0xfd

abbrev pub civ_ack : ℕ
civ_ack = 0xfb

abbrev pub radio_addr : ℕ
radio_addr = 0x98

abbrev pub pc_addr : ℕ
pc_addr = 0xe0

abbrev pub iq_in : ℕ
iq_in = 0x84

abbrev pub cmd_in : ℕ
cmd_in = 0x82

abbrev pub cmd_out : ℕ
cmd_out = 0x02

abbrev pub bytes_per_sample : ℕ
bytes_per_sample = 4

abbrev pub iq_block_length : ℕ
iq_block_length = 4096

abbrev pub cmd_index : ℕ
cmd_index = 4

abbrev pub cmd_timeout : ℕ
cmd_timeout = 5000

abbrev pub data_timeout : ℕ
data_timeout = 5000

abbrev pub civ_ack_nak_offset : ℕ
civ_ack_nak_offset = 4

abbrev pub iq_ack_nak_msg_len : ℕ
iq_ack_nak_msg_len = 8

abbrev pub default_baudrate : ℕ
default_baudrate = 115200

abbrev pub civ_read_buffer_size : ℕ
civ_read_buffer_size = 128

abbrev pub ft_ok : ℕ
ft_ok = 0

abbrev pub ft_timeout : ℕ
ft_timeout = 19

abbrev pub ft_io_pending : ℕ
ft_io_pending = 24

-- The first four bytes of every command, PC to radio, and of every reply, radio to PC.
abbrev pub command_header : List ℕ
command_header = civ_preamble ∷ civ_preamble ∷ radio_addr ∷ pc_addr ∷ []

abbrev pub reply_header : List ℕ
reply_header = civ_preamble ∷ civ_preamble ∷ pc_addr ∷ radio_addr ∷ []
