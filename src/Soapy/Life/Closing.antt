-- ===== src/Soapy/Life/Closing.antt =====
-- The end of a device that has been made and used.
use ic7610iq.Prelude.{
  ℕ, ℤ, Bool, false, Option, none, some, List, String, M, ◌>>◌, pure, modify, sym, returns, ◌≡◌,
  ◌&&◌, not, refl, subst, Ends, Ends-bind, Ends-if, Keeps-bind,
}
use ic7610iq.Driver.{Ftd3xx}
use ic7610iq.Port.Device.{init}
use ic7610iq.Port.Device.Closing.{aborted}
use ic7610iq.Soapy.{
  Api, Kwargs, Sdr, at, count, vfo_of, on_port, new_sdr, set_up_radio, read_radio, construct,
  destroy,
}
use ic7610iq.Soapy.Closing.{destroy-closes}
use ic7610iq.Soapy.Idle.{Idle, init-Idle}
use ic7610iq.Soapy.Life.{Call, run_calls, device_life}
use ic7610iq.Soapy.Life.Kept.{
  IdleDevice, on_port-Ends, set_up_radio-Idle, read_radio-Idle, run_calls-Idle,
}

module _ {W D : Type 0} (ft : Ftd3xx W) (api : Api D) where
  -- The constructor, if it returns, leaves an open device with no reader.
  opened :
      (serial : String) (d : Sdr W D)
      → d.port.joinable ≡ false
      → d.port.running ≡ false
      → Ends
          (λ a d. IdleDevice ft api d)
          ((do on_port (init ft serial false); set_up_radio ft api; read_radio ft api) d)
  opened serial d t r =
      Ends-bind (λ a d. IdleDevice ft api d) (λ a d. IdleDevice ft api d)
        (on_port (init ft serial false)) _ d
        (on_port-Ends ft api (init ft serial false) d (init-Idle ft serial false d.port t r))
        (λ a e h.
          (Keeps-bind (set_up_radio ft api) (λ _. read_radio ft api) (set_up_radio-Idle ft api)
              (λ _. read_radio-Idle ft api)).at
            e h)

  -- The serial number of the arguments, if they have one.
  abbrev name_device : Option String → M (Sdr W D) (Unit {0})
  name_device o = elim o [ none ↦ pure tt | some name ↦ modify λ d. record d { serial = name } ]

  named : (o : Option String) (d : Sdr W D) → Ends (λ a e. e.port ≡ d.port) (name_device o d)
  named none d = refl
  named (some name) d = refl

  construct-Idle :
      (args : Kwargs) (d : Sdr W D)
      → d.port.joinable ≡ false
      → d.port.running ≡ false
      → Ends (λ a d. IdleDevice ft api d) (construct ft api args d)
  unfolding construct
  construct-Idle args d t r =
      let e : Sdr W D = record d {
        ipplus = count args "ipplus";
        digi_sel = count args "digi_sel";
        rx_vfo = vfo_of args;
      } in
      Ends-if (λ a d. IdleDevice ft api d) (d.iq_port && not (count args "serial")) _ _ e (λ _. tt)
        (λ _.
          Ends-bind (λ a x. x.port ≡ d.port) (λ a d. IdleDevice ft api d)
            (name_device (at args "serial")) _ e (named (at args "serial") e)
            (λ a x same.
              opened x.serial x (subst (λ p. p.joinable ≡ false) (sym same) t)
                (subst (λ p. p.running ≡ false) (sym same) r)))

  -- When the constructor of a device returns, and then any calls that may change the device, in any
  -- order and with any arguments, then its port is open with no reader to join, and its destruction
  -- returns, having closed the handle of the port, aborted the transfers of the closed
  -- handle, and closed it again.
  pub device-closes_twice :
      (iq_port handle : Bool) (vfo : ℕ) (attenuation : ℤ) (frequency : D) (w : W) (args : Kwargs)
      (calls : List (Call D)) (d : Sdr W D)
      → device_life ft api args calls (new_sdr ft api iq_port vfo handle attenuation frequency w)
        ≡ returns tt d
      → Idle d.port
        × (destroy ft api d
            ≡ returns tt (record d {
              port = record d.port {
                world = ft.close (aborted ft (ft.close (aborted ft d.port.world)));
                is_open = false;
              };
            }))
  unfolding device_life
  device-closes_twice iq_port handle vfo attenuation frequency w args calls d e =
      let start : Sdr W D = new_sdr ft api iq_port vfo handle attenuation frequency w in
      let idle : Idle d.port = subst (Ends (λ a d. IdleDevice ft api d)) e (
        Ends-bind (λ a d. IdleDevice ft api d) (λ a d. IdleDevice ft api d) (construct ft api args)
          (λ _. run_calls ft api calls) start (construct-Idle args start refl refl)
          (λ a x h. (run_calls-Idle ft api calls).at x h)) in
      (idle, destroy-closes ft api d idle.opened idle.flag)
