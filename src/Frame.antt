-- ===== src/Frame.antt =====
-- CI-V messages: the output buffers of `IcomIQPort::sendIQCommand` (src/IcomIQPort.cpp) and
-- `IcomCIVPort::sendCIVCmd` (src/IcomCIVPort.cpp), both `uint8_t buf[32]` with a running `buf_size`.
-- The buffer is the list of its first `buf_size` bytes; `none` is a write past its end.
pub mod Laws
mod Tests
use ic7610iq.Prelude.{
  ℕ, zero, suc, ◌%◌, Option, none, some, List, [], ◌∷◌, ◌++◌, ltb, ◌==◌, if◌then◌else◌, length,
}
use ic7610iq.Common.{command_header, civ_eom}

-- `buf[buf_size++] = byte`.
unfoldable pub put_byte : List ℕ → ℕ → Option (List ℕ)
put_byte buf byte = if ltb (length buf) 32 then some (buf ++ (byte ∷ [])) else none

unfoldable pub put_bytes : List ℕ → List ℕ → Option (List ℕ)
put_bytes buf [] = some buf
put_bytes buf (byte ∷ cmd) = elim (put_byte buf byte) [
  | none ↦ none
  | some buf' ↦ put_bytes buf' cmd
]

-- `for (i = buf_size; i % 4 > 0; i++)`, with fuel; three rounds are the most that it makes.
unfoldable pub pad : ℕ → List ℕ → Option (List ℕ)
pad zero buf = some buf
pad (suc fuel) buf =
    let padded : Option (List ℕ) = elim (put_byte buf 0xff) [
      | none ↦ none
      | some buf' ↦ pad fuel buf'
    ] in
    if length buf % 4 == 0 then some buf else padded

-- The bytes of `sendCIVCmd`: header, command, end of message.
unfoldable pub civ_frame : List ℕ → Option (List ℕ)
civ_frame cmd = elim (put_bytes command_header cmd) [
  | none ↦ none
  | some buf ↦ put_byte buf civ_eom
]

-- The bytes of `sendIQCommand`: the same, filled with 0xff to a multiple of four.
unfoldable pub iq_frame : List ℕ → Option (List ℕ)
iq_frame cmd = elim (civ_frame cmd) [ none ↦ none | some buf ↦ pad 4 buf ]
