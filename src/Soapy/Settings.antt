-- ===== src/Soapy/Settings.antt =====
-- Channels, antenna, gain, frequency and sample rate of the device: src/IC7610SDR_Settings.cpp.
pub mod Tuning
use ic7610iq.Prelude.{
  ℕ, ◌+◌, ◌-◌, ℤ, pos, negsuc, int_eq, is_positive, is_zero, Bool, true, false, not, Option, none,
  some, List, [], ◌∷◌, ltb, ◌==◌, if◌then◌else◌, String, str_eq, Outcome, M, ◌>>=◌, ◌>>◌, pure,
  throw, gets, modify, access, Error,
}
use ic7610iq.Driver.{Ftd3xx}
use ic7610iq.Port.{Port}
use ic7610iq.Port.Settings.{set_antenna}
use ic7610iq.Port.Levels.{set_frequency}
use ic7610iq.Soapy.{Api, Kwargs, Sdr, at, on_port}

-- `SoapySDR::Range`: minimum, maximum, and the step if the source gives one.
pub record Range : Type 0 where
  pub minimum : ℕ
  pub maximum : ℕ
  pub step : Option ℕ

abbrev rx_pamp1_max_db : ℕ
rx_pamp1_max_db = 12

abbrev rx_amp_max_db : ℕ
rx_amp_max_db = 0

abbrev fixed_sample_rate : ℕ
fixed_sample_rate = 1920000

-- `antArgs`, after `std::stoi`.
abbrev antenna_args : List (String × ℕ)
antenna_args =
    ("ANT1_ON", 0)
    ∷ ("ANT2_ON", 1)
    ∷ ("RX_ON", 4)
    ∷ ("ANT1_OFF", 2)
    ∷ ("ANT2_OFF", 3)
    ∷ ("RX_OFF", 5)
    ∷ ("ANT1", 0)
    ∷ ("ANT2", 1)
    ∷ ("RX", 4)
    ∷ []

find_antenna : List (String × ℕ) → String → Option ℕ
find_antenna [] name = none
find_antenna ((key, value) ∷ args) name =
    let rest = find_antenna args name in if str_eq key name then some value else rest

pub antenna_number : String → Option ℕ
unfolding find_antenna
antenna_number name = find_antenna antenna_args name

pub driver_key : String
driver_key = "SoapyIC7610SDR"

pub hardware_key : String
hardware_key = "IC-7610"

module _ {W D : Type 0} (ft : Ftd3xx W) (api : Api D) where
  -- Every method but a few begins with this test.
  abbrev rx_only : {A : Type 0} → ℤ → M (Sdr W D) A → M (Sdr W D) A
  rx_only direction m = if int_eq direction api.rx then m else throw Error.rx_only

  pub get_hardware_info : Sdr W D → Kwargs
  get_hardware_info d =
      ("origin", "add to github SoapyIC7610SDR")
      ∷ ("serial", d.serial)
      ∷ ("vfo", if d.rx_vfo == 1 then "SUB" else "MAIN")
      ∷ ("digi_sel", if d.digi_sel then "on" else "off")
      ∷ ("ipplus", if d.ipplus then "on" else "off")
      ∷ []

  pub get_num_channels : ℤ → ℕ
  get_num_channels dir = if int_eq dir api.rx then 1 else 0

  pub get_full_duplex : ℤ → ℕ → Bool
  get_full_duplex direction channel = false

  pub list_antennas : ℤ → M (Sdr W D) (List String)
  list_antennas direction =
      rx_only direction
        (pure ("ANT1_OFF" ∷ "ANT1_ON" ∷ "ANT2_OFF" ∷ "ANT2_ON" ∷ "RX_ON" ∷ "RX_OFF" ∷ "RX" ∷ []))

  pub get_antenna : ℤ → M (Sdr W D) String
  get_antenna direction = rx_only direction (gets λ d. d.rx_antenna)

  -- Up to 1 the number is an antenna to switch on, up to 3 one to switch off.
  unfoldable pub set_antenna_number : ℕ → String → M (Sdr W D) (Unit {0})
  set_antenna_number value name =
      if ltb 3 value then modify (λ d. record d { rx_antenna = name }) else (do
        vfo ← gets λ d. d.rx_vfo
        result ← on_port (
            set_antenna ft vfo (pos (if ltb 1 value then value - 2 else value)) (not (ltb 1 value)))
        if is_zero result then modify (λ d. record d { rx_antenna = name }) else pure tt)

  unfoldable pub set_antenna_by_name : ℤ → String → M (Sdr W D) (Unit {0})
  set_antenna_by_name direction name =
      rx_only direction
        (elim (antenna_number name) [ none ↦ pure tt | some value ↦ set_antenna_number value name ])

  pub list_gains : ℤ → M (Sdr W D) (List String)
  list_gains direction = rx_only direction (pure ("PAMP1" ∷ "PAMP2" ∷ "AMP" ∷ []))

  pub set_gain_mode : ℤ → Bool → M (Sdr W D) (Unit {0})
  set_gain_mode direction automatic = rx_only direction (pure tt)

  pub get_gain_mode : ℤ → M (Sdr W D) Bool
  get_gain_mode direction = rx_only direction (pure false)

  pub set_gain : ℤ → D → M (Sdr W D) (Unit {0})
  set_gain direction value = rx_only direction (pure tt)

  -- Of a named element, which is not looked at.
  pub set_gain_of : ℤ → String → D → M (Sdr W D) (Unit {0})
  set_gain_of direction name value = rx_only direction (pure tt)

  pub get_gain : ℤ → String → M (Sdr W D) D
  get_gain direction name = rx_only direction (pure (api.of_int (pos 0)))

  pub get_gain_range : ℤ → String → M (Sdr W D) Range
  get_gain_range direction name = rx_only direction (
      pure (
        if str_eq name "AMP"
        then (record { minimum = 0; maximum = rx_amp_max_db; step = some rx_amp_max_db })
        else if str_eq name "PAMP1"
        then (record { minimum = 0; maximum = rx_pamp1_max_db; step = some rx_pamp1_max_db })
        else if str_eq name "PAMP2"
        then (record { minimum = 0; maximum = rx_pamp1_max_db; step = some rx_pamp1_max_db })
        else (record { minimum = 0; maximum = 0; step = none })))

  -- `uint32_t f = frequency` and what follows.
  unfoldable pub tune : D → M (Sdr W D) (Unit {0})
  tune frequency = do
    f ← access (api.to_uint32 frequency)
    open' ← gets λ d. d.port.is_open
    vfo ← gets λ d. d.rx_vfo
    if open'
        then (do
          result ← on_port (set_frequency ft vfo f)
          if is_positive result
              then modify (λ d. record d { rx_frequency = frequency })
              else pure tt)
        else pure tt

  unfoldable pub set_frequency_of : ℤ → String → D → M (Sdr W D) (Unit {0})
  unfolding tune
  set_frequency_of direction name frequency =
      rx_only direction (if str_eq name "RF" then tune frequency else pure tt)

  pub get_frequency : ℤ → M (Sdr W D) D
  get_frequency direction = rx_only direction (gets λ d. d.rx_frequency)

  -- Of a named element.
  pub get_frequency_of : ℤ → String → M (Sdr W D) D
  get_frequency_of direction name = rx_only direction (
      if str_eq name "RF"
      then gets (λ d. d.rx_frequency)
      else if str_eq name "CORR"
      then pure (api.of_int (pos 1))
      else pure (api.of_int (pos 0)))

  pub get_frequency_args_info : ℤ → M (Sdr W D) (List (String × String))
  get_frequency_args_info direction = rx_only direction (pure [])

  pub list_frequencies : ℤ → M (Sdr W D) (List String)
  list_frequencies direction = rx_only direction (pure ("RF" ∷ []))

  pub get_frequency_range : ℤ → String → M (Sdr W D) (List Range)
  get_frequency_range direction name = rx_only direction (
      pure (
        if str_eq name "RF"
        then (record { minimum = 0; maximum = 60000000; step = none }) ∷ []
        else if str_eq name "TX"
        then (record { minimum = 135700; maximum = 137800; step = none })
          ∷ (record { minimum = 1800000; maximum = 29700000; step = none })
          ∷ (record { minimum = 50000000; maximum = 54000000; step = none })
          ∷ []
        else []))

  pub set_sample_rate : ℤ → D → M (Sdr W D) (Unit {0})
  set_sample_rate direction rate = rx_only direction (pure tt)

  pub get_sample_rate : ℤ → M (Sdr W D) ℕ
  get_sample_rate direction = rx_only direction (pure fixed_sample_rate)

  pub list_sample_rates : ℤ → M (Sdr W D) (List ℕ)
  list_sample_rates direction = rx_only direction (pure (fixed_sample_rate ∷ []))
