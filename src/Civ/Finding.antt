-- ===== src/Civ/Finding.antt =====
-- Finding and opening the serial port, on every branch.
use ic7610iq.Prelude.{
  ℤ, ◌≡◌, ◌⊎◌, refl, inl, inr, true, false, String, str_eq, if◌then◌else◌, Bool-cases, returns,
  throws, undefined, ◌>>=◌, Error,
}
use ic7610iq.Civ.{SerialPort, CivPort, find_icom_ctrl_port, find_icom_civ_port, find_target, init}

module _ {W : Type 0} (sp : SerialPort W) where
  ctrl_port-fails :
      (p : CivPort W) → (sp.list_ports p.world).0.0 ≡ false → find_icom_ctrl_port sp p ≡ undefined
  unfolding find_icom_ctrl_port
  ctrl_port-fails p f = rw f refl

  ctrl_port-finds :
      (p : CivPort W)
      → (sp.list_ports p.world).0.0 ≡ true
      → find_icom_ctrl_port sp p
        ≡ returns
            (find_target ((sp.list_ports p.world).0.1))
            (record p { world = sp.free_port_list (sp.list_ports p.world).1 })
  unfolding find_icom_ctrl_port
  ctrl_port-finds p t = rw t refl

  -- `findIcomCIVPort` returns no name, whatever ports there are: it throws that there is no
  -- device, or its behaviour is undefined.
  pub find_icom_civ_port-fails :
      (p : CivPort W)
      → ((w' : W) × (find_icom_civ_port sp p
            ≡ throws Error.no_serial_device (record p { world = w' })))
        ⊎ (find_icom_civ_port sp p ≡ undefined)
  unfolding find_icom_civ_port
  find_icom_civ_port-fails p =
      let first = sp.list_ports p.world in
      let second = sp.list_ports first.1 in
      elim (Bool-cases first.0.0) [
        | inr f ↦ inr (rw f refl)
        | inl t ↦ elim (Bool-cases second.0.0) [
          | inr f ↦ inr (
              rw t
                (rw (ctrl_port-fails (record p { world = first.1 }) f, if◌then◌else◌, ◌>>=◌) refl))
          | inl u ↦ inl (
            sp.free_port_list second.1,
            rw t (rw (ctrl_port-finds (record p { world = first.1 }) u, if◌then◌else◌, ◌>>=◌) refl),
          )
        ]
      ]

  -- `init` with a name that is not empty opens the port with the baud rate given, or throws and
  -- leaves the port's open and initialized flags as they were.
  pub civ_init-opens :
      (port_name : String) (baudrate : ℤ) (p : CivPort W)
      → str_eq port_name "" ≡ false
      → ((w' : W) × (init sp port_name baudrate p
            ≡ returns tt (record {
              baudrate = baudrate;
              is_initialized = true;
              is_open = true;
              world = w';
            })))
        ⊎ ((e : Error) × (w' : W) × (init sp port_name baudrate p
              ≡ throws e (record p { baudrate = baudrate; world = w' })))
  unfolding init
  civ_init-opens port_name baudrate p n =
      let found = sp.get_port_by_name port_name p.world in
      let opened = sp.open_read_write found.1 in
      elim (Bool-cases found.0) [
        | inr f ↦ inr (Error.no_civ_port, found.1, rw (n, f) refl)
        | inl t ↦ elim (Bool-cases opened.0) [
          | inr f ↦ inr (Error.open_civ_failed, sp.free_port opened.1, rw (n, t, f) refl)
          | inl u ↦ inl (
            sp.set_flowcontrol_none (
                sp.set_stopbits 1
                  (sp.set_parity_none (sp.set_bits 8 (sp.set_baudrate baudrate opened.1)))),
            rw (n, t, u) refl,
          )
        ]
      ]
