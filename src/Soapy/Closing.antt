-- ===== src/Soapy/Closing.antt =====
-- The end of a device: `~SoapyIC7610SDR()` (src/IC7610SDR_Settings.cpp) and the destructor of its port.
use ic7610iq.Prelude.{true, false, returns, ◌>>=◌, ◌≡◌, refl}
use ic7610iq.Driver.{Ftd3xx}
use ic7610iq.Port.Device.Closing.{aborted, close-eq, destroy-eq}
use ic7610iq.Soapy.{Api, Sdr, on_port, destruct, destroy}

module _ {W D : Type 0} (ft : Ftd3xx W) (api : Api D) where
  -- The end of an open device with no reader closes the handle of its port, aborts the transfers of
  -- the handle that is closed, and closes it again.
  pub destroy-closes :
      (d : Sdr W D)
      → d.port.is_open ≡ true
      → d.port.running ≡ false
      → destroy ft api d
        ≡ returns tt (record d {
          port = record d.port {
            world = ft.close (aborted ft (ft.close (aborted ft d.port.world)));
            is_open = false;
          };
        })
  unfolding destroy destruct on_port
  destroy-closes d o off =
      rw (close-eq ft d.port o, ◌>>=◌)
        (rw
          (
            destroy-eq ft
                (record d.port { world = ft.close (aborted ft d.port.world); is_open = false }) off,
            on_port,
          )
          refl)
