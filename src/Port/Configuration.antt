-- ===== src/Port/Configuration.antt =====
-- `iqGetChipConfiguration` and `iqGetDevicveDescriptor` of src/IcomIQPort.cpp: what the bridge says of
-- itself, as text. `decimal` is the `%d` of `sprintf`.
use Prim.Native.String.{◌++◌}
use ic7610iq.Prelude.{ℕ, String, ◌==◌, if◌then◌else◌, M, ◌>>=◌, pure, undefined}
use ic7610iq.Common.{ft_ok}
use ic7610iq.Driver.{Ftd3xx}
use ic7610iq.Port.{Port, call}

module _ {W : Type 0} (ft : Ftd3xx W) (decimal : ℕ → String) where
  -- On success, all that follows the first line is written from the end of the 256 bytes on.
  pub iq_get_chip_configuration : M (Port W) String
  iq_get_chip_configuration = do
    (status, vendor, product) ← call ft.get_chip_configuration
    if status == ft_ok
        then (λ p. undefined)
        else pure ("Call to iqGetChipConfiguration() failed. FT_STATUS: " ++ decimal status)

  -- The status is not in the text of a failure, whose format does not name it.
  pub iq_get_device_descriptor : M (Port W) String
  iq_get_device_descriptor = do
    (status, vendor, product, configurations) ← call ft.get_device_descriptor
    if status == ft_ok
        then pure (
            "\tVendor Id = "
            ++ (decimal vendor
                ++ (", Producxt ID = "
                    ++ (decimal product
                        ++ (",  Number of Configurations Id: " ++ decimal configurations)))))
        else pure "Call to iqGetChipConfiguration() failed. FT_STATUS: "
