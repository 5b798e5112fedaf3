-- ===== src/Tools/Find.antt =====
-- Tools/findDevice.cpp: the serial number of the first device.
use ic7610iq.Prelude.{
  not, Option, none, some, ◌==◌, ltb, leb, get_elem?, length, if◌then◌else◌, String, M, ◌>>=◌, ◌>>◌,
  pure, access, require, returns,
}
use ic7610iq.Common.{ft_ok}
use ic7610iq.Driver.{Ftd3xx}

module _ {W : Type 0} (ft : Ftd3xx W) where
  -- `none` is `exit(1)`. The library writes its nodes to an array of 16.
  pub get_device_list : M W (Option String)
  get_device_list = do
    (res, count) ← λ w. let (a, w') = ft.create_device_info_list w in returns a w'
    if not (res == ft_ok) then pure none else (do
      (res', nodes) ← λ w. let (a, w') = ft.get_device_info_list w in returns a w'
      if not (res' == ft_ok) then pure none else (do
        require (leb (length nodes) 16)
        if ltb 0 (length nodes)
            then (do first ← access (get_elem? nodes 0); pure (some first.serial_number))
            else pure (some "No Device Found\n")))
