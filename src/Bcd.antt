-- ===== src/Bcd.antt =====
-- The binary coded decimals of a CI-V message: `read_bcd`, `bcd_digit` and `bcd_digits` of
-- include/IcomIQPort.hpp (include/IcomCIVPort.hpp has the same three).
pub mod Laws
mod Tests
use Prim.Native.Nat.{bit_and, bit_or}
use ic7610iq.Prelude.{ℕ, ◌+◌, ◌*◌, ◌/◌, ◌%◌}

-- For a byte `n`; `>> 4` is `/ 16`.
unfoldable pub read_bcd : ℕ → ℕ
read_bcd n = 10 * (bit_and n 0xf0 / 16) + bit_and n 0x0f

-- For a `uint32_t` `n`.
pub bcd_digit : ℕ → ℕ → ℕ
bcd_digit n value = n / value % 10

pub bcd_digits : ℕ → ℕ → ℕ
bcd_digits n value = bit_or (0x10 * bcd_digit n (10 * value)) (bcd_digit n value)
