-- ===== src/Bcd/Tests.antt =====
-- Runs of the decimals of 14250000 Hz.
use ic7610iq.Prelude.{◌≡◌, refl}
use ic7610iq.Bcd.{bcd_digit, bcd_digits}

packed : bcd_digits 14250000 10000 ≡ 0x25
unfolding bcd_digits bcd_digit
packed = refl
