-- ===== src/Soapy/Scripted.antt =====
-- The constants of SoapySDR, with whole numbers for `double`.
use ic7610iq.Prelude.{ℤ, pos, negsuc, none, some}
use ic7610iq.Soapy.{Api}

abbrev pub whole_numbers : Api ℤ
whole_numbers = record {
  rx = pos 1;
  not_supported = negsuc 4;
  s16 = "S16";
  cs16 = "CS16";
  cf32 = "CF32";
  cf64 = "CF64";
  of_int = λ n. n;
  to_uint32 = λ f. elim f [ pos n ↦ some n | negsuc n ↦ none ];
}
