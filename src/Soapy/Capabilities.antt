-- ===== src/Soapy/Capabilities.antt =====
-- What include/SoapyIC7610SDR.hpp answers itself: the corrections and the gain mode that the device
-- does not have, and the clearing of its samples.
use ic7610iq.Prelude.{ℕ, ℤ, Bool, false}
use ic7610iq.Port.Data.{iq_clear_read_buf}
use ic7610iq.Soapy.{Sdr}

-- Whatever the direction and the channel.
pub has_dc_offset_mode : ℤ → ℕ → Bool
has_dc_offset_mode direction channel = false

pub has_dc_offset : ℤ → ℕ → Bool
has_dc_offset direction channel = false

pub has_iq_balance_mode : ℤ → ℕ → Bool
has_iq_balance_mode direction channel = false

pub has_frequency_correction : ℤ → ℕ → Bool
has_frequency_correction direction channel = false

pub has_gain_mode : ℤ → ℕ → Bool
has_gain_mode direction channel = false

unfoldable pub clear_buffers : {W D : Type 0} → Sdr W D → Sdr W D
clear_buffers d = record d { port = iq_clear_read_buf d.port }
