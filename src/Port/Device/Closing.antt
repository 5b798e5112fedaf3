-- ===== src/Port/Device/Closing.antt =====
-- What closing a port, and then destroying it, does to the library's handle.
use ic7610iq.Prelude.{true, false, returns, ◌≡◌, refl}
use ic7610iq.Common.{iq_in, cmd_in, cmd_out}
use ic7610iq.Driver.{Ftd3xx}
use ic7610iq.Port.{Port}
use ic7610iq.Port.Device.{close, abort_pipes, destroy, destroy_request, destroy_finish}

module _ {W : Type 0} (ft : Ftd3xx W) where
  -- The transfers on the three pipes are aborted.
  abbrev pub aborted : W → W
  aborted w = (ft.abort_pipe iq_in (ft.abort_pipe cmd_in (ft.abort_pipe cmd_out w).1).1).1

  pub close-eq :
      (p : Port W)
      → p.is_open ≡ true
      → close ft p ≡ returns tt (record p { world = ft.close (aborted p.world); is_open = false })
  unfolding close abort_pipes
  close-eq p o = rw o refl

  -- The destructor aborts and closes whether or not the port is open.
  pub destroy-eq :
      (p : Port W)
      → p.running ≡ false
      → destroy ft p ≡ returns tt (record p { world = ft.close (aborted p.world) })
  unfolding destroy destroy_request destroy_finish abort_pipes
  destroy-eq p off = rw off refl
