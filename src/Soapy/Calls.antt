-- ===== src/Soapy/Calls.antt =====
-- What a call of the port comes to as a call of the device.
use ic7610iq.Prelude.{◌≡◌, refl, returns, M}
use ic7610iq.Port.{Port}
use ic7610iq.Soapy.{Sdr, on_port}

-- `on_port` of a call that returns.
pub on_port-returns :
    {W D A : Type 0} (m : M (Port W) A) (d : Sdr W D) (a : A) (p : Port W)
    → m d.port ≡ returns a p
    → on_port m d ≡ returns a (record d { port = p })
unfolding on_port
on_port-returns m d a p e = rw (e, on_port) refl
