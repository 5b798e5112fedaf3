-- ===== src/Soapy.antt =====
-- `class SoapyIC7610SDR` (include/SoapyIC7610SDR.hpp): the device that SoapySDR sees, its state and
-- its life. The constants and conversions of SoapySDR and of `double` are a parameter. Logging and
-- printing are left out.
pub mod Calls
pub mod Settings
pub mod Streaming
pub mod Capabilities
pub mod Registration
pub mod Closing
pub mod Idle
pub mod Life
pub mod Scripted
mod Tests
use ic7610iq.Prelude.{
  ℕ, ℤ, pos, negsuc, int_eq, Bool, true, false, ◌&&◌, ◌||◌, not, Option, none, some, List, [], ◌∷◌,
  ◌==◌, if◌then◌else◌, String, str_eq, Outcome, returns, throws, undefined, M, ◌>>=◌, ◌>>◌, pure,
  throw, gets, modify, Error,
}
use ic7610iq.Driver.{Ftd3xx}
use ic7610iq.Port.{Port, new_port}
use ic7610iq.Port.Command.{icom_iq_command}
use ic7610iq.Port.Device
use ic7610iq.Port.Settings.{get_antenna, set_digi_sel_status, set_ip_status}
use ic7610iq.Port.Levels.{get_rf_gain, get_attenuator_settings, get_frequency}

-- What the sources take from SoapySDR's headers and from `double`, of which `D` is the type.
pub record Api (D : Type 0) : Type 0 where
  pub rx : ℤ
  pub not_supported : ℤ
  pub s16 : String
  pub cs16 : String
  pub cf32 : String
  pub cf64 : String
  -- conversion from an `int`, and to a `uint32_t`, which has no result outside its range
  pub of_int : ℤ → D
  pub to_uint32 : D → Option ℕ

-- `SoapySDR::Kwargs`
abbrev pub Kwargs : Type 0
Kwargs = List (String × String)

-- `args.at(key)`, if `args.count(key)` is not 0.
pub at : Kwargs → String → Option String
at [] key = none
at ((k, value) ∷ args) key = let rest = at args key in if str_eq k key then some value else rest

pub count : Kwargs → String → Bool
count args key = elim (at args key) [ none ↦ false | some value ↦ true ]

-- The members `_rx_stream.*` begin with `rx_`; `vfo` is the device's own `_vfo`.
pub record Sdr (W D : Type 0) : Type 0 where
  pub serial : String
  pub port : Port W
  pub iq_port : Bool
  pub ipplus : Bool
  pub digi_sel : Bool
  pub vfo : ℕ
  pub rx_format : String
  pub rx_opened : Bool
  pub rx_rf_gain : ℤ
  pub rx_attenuation : ℤ
  pub rx_frequency : D
  pub rx_vfo : ℕ
  pub rx_antenna : String

-- The value of the `vfo` argument.
pub vfo_of : Kwargs → ℕ
vfo_of args = elim (at args "vfo") [
  | none ↦ 0x00
  | some name ↦ if str_eq name "MAIN" then 0x00 else if str_eq name "SUB" then 0x01 else 0x00
]

module _ {W D : Type 0} where
  -- A method of the port, as one of the device.
  pub on_port : {A : Type 0} → M (Port W) A → M (Sdr W D) A
  on_port m d = elim (m d.port) [
    | returns a p ↦ returns a (record d { port = p })
    | throws e p ↦ throws e (record d { port = p })
    | undefined ↦ undefined
  ]

module _ {W D : Type 0} (ft : Ftd3xx W) (api : Api D) where
  -- The device before the constructor's body, in which `_iq_port`, `_vfo`, the port's handle and some
  -- members of the stream are never set: the caller says what is there.
  abbrev pub new_sdr : Bool → ℕ → Bool → ℤ → D → W → Sdr W D
  new_sdr iq_port vfo handle attenuation frequency w = record {
    serial = "";
    port = new_port handle w;
    iq_port = iq_port;
    ipplus = false;
    digi_sel = false;
    vfo = vfo;
    rx_format = api.cs16;
    rx_opened = false;
    rx_rf_gain = pos 0;
    rx_attenuation = attenuation;
    rx_frequency = frequency;
    rx_vfo = 0x00;
    rx_antenna = "";
  }

  -- The two switches that the constructor sends to an open port, after a command whose reply it drops.
  unfoldable pub set_up_radio : M (Sdr W D) (Unit {0})
  set_up_radio = do
    open' ← gets λ d. d.port.is_open
    d ← gets λ d. d
    if open'
        then (do
          _ ← on_port (icom_iq_command ft (0x1a ∷ 0x0b ∷ []) [])
          on_port (set_digi_sel_status ft d.rx_vfo d.digi_sel)
          on_port (set_ip_status ft d.rx_vfo d.ipplus))
        else pure tt

  -- The radio's settings, read into the stream.
  unfoldable pub read_radio : M (Sdr W D) (Unit {0})
  read_radio = do
    vfo ← gets λ d. d.rx_vfo
    gain ← on_port (get_rf_gain ft vfo)
    modify λ d. record d { rx_rf_gain = gain }
    attenuation ← on_port (get_attenuator_settings ft vfo)
    modify λ d. record d { rx_attenuation = pos attenuation }
    antenna ← on_port (get_antenna ft vfo)
    modify λ d. record d { rx_antenna = antenna }
    frequency ← on_port (get_frequency ft vfo)
    modify λ d. record d { rx_frequency = api.of_int frequency }

  -- The body of `SoapyIC7610SDR(args)`.
  unfoldable pub construct : Kwargs → M (Sdr W D) (Unit {0})
  unfolding set_up_radio read_radio
  construct args = do
    modify λ d. record d {
      ipplus = count args "ipplus";
      digi_sel = count args "digi_sel";
      rx_vfo = vfo_of args;
    }
    iq_port ← gets λ d. d.iq_port
    if iq_port && not (count args "serial") then throw Error.no_iq_device else (do
      elim (at args "serial") [
        | none ↦ pure tt
        | some name ↦ modify λ d. record d { serial = name }
      ]
      serial ← gets λ d. d.serial
      on_port (Device.init ft serial false)
      set_up_radio
      read_radio)

  -- `~SoapyIC7610SDR()`, up to the destructors of its members.
  pub destruct : M (Sdr W D) (Unit {0})
  destruct = on_port (Device.close ft)

  -- The whole of it, with the destructor of `iqPort`, where that returns.
  pub destroy : M (Sdr W D) (Unit {0})
  unfolding destruct
  destroy = do destruct; on_port (Device.destroy ft)
