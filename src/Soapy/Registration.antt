-- ===== src/Soapy/Registration.antt =====
-- src/IC7610SDR_Registration.cpp: the devices that SoapySDR is told of.
pub mod Filter
mod Tests
use Prim.Native.String.{◌++◌}
use ic7610iq.Prelude.{
  ℕ, ◌+◌, zero, suc, Bool, true, false, ◌&&◌, not, Option, none, some, List, [], ◌∷◌, leb, ◌==◌,
  if◌then◌else◌, length, String, str_eq, M, ◌>>=◌, ◌>>◌, pure, gets, modify, require, ◌≡◌, refl, ap,
  inl, inr, Bool-cases, All, Outcome, returns, arith,
}
use ic7610iq.Common.{ft_ok}
use ic7610iq.Driver.{Node, Ftd3xx}
use ic7610iq.Soapy.{Kwargs, at, count, Api, Sdr, construct}

-- What SoapySDR learns of a device.
pub device_info : Node → Kwargs
device_info node =
    ("label", node.description ++ (" :: " ++ node.serial_number))
    ∷ ("product", node.description)
    ∷ ("serial", node.serial_number)
    ∷ ("manufacturer", "Icom")
    ∷ ("vfo", "MAIN")
    ∷ []

-- The filter: a device with another serial number than the one that is asked for.
pub other_serial : Kwargs → Node → Bool
other_serial args node = elim (at args "serial") [
  | none ↦ false
  | some serial ↦ not (str_eq serial node.serial_number)
]

-- The loop over the nodes.
pub matching : Kwargs → List Node → List Kwargs
unfolding device_info other_serial
matching args [] = []
matching args (node ∷ nodes) =
    let results = matching args nodes in
    if other_serial args node then results else device_info node ∷ results

module _ {W : Type 0} (ft : Ftd3xx W) where
  -- `find_IC7610SDR`. The library writes its nodes to an array of 16.
  pub find_ic7610_sdr : Kwargs → M W (List Kwargs)
  find_ic7610_sdr args = do
    (res, count) ← λ w. let (a, w') = ft.create_device_info_list w in returns a w'
    if not (res == ft_ok) then pure [] else (do
      (res', nodes) ← λ w. let (a, w') = ft.get_device_info_list w in returns a w'
      if not (res' == ft_ok)
          then pure []
          else (do require (leb (length nodes) 16); pure (matching args nodes)))

-- `make_IC7610SDR`, on the fields of a new device.
pub make_ic7610_sdr : {W D : Type 0} → Ftd3xx W → Api D → Kwargs → M (Sdr W D) (Unit {0})
make_ic7610_sdr ft api args = construct ft api args
