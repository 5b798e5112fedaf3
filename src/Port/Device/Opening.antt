-- ===== src/Port/Device/Opening.antt =====
-- What opening, closing and the data switch do to the port, on every branch.
use ic7610iq.Prelude.{
  ℕ, ◌%◌, ◌+◌, ◌≡◌, ◌⊎◌, inl, inr, refl, Bool, true, false, Bool-cases, [], ◌∷◌, ltb, leb,
  not_leb→lt, ◌<◌, List, undefined, ◌==◌, length, String, returns, throws, ◌>>=◌, Error, arith,
}
use ic7610iq.Common.{ft_ok}
use ic7610iq.Driver.{Ftd3xx, Node}
use ic7610iq.Port.{Port}
use ic7610iq.Port.Command.Exchange.{Bounded, icom_iq_command-returns}
use ic7610iq.Port.Device.{init, close, abort_pipes, enable_iq_data, disable_iq_data}

module _ {W : Type 0} (ft : Ftd3xx W) where
  -- The devices that the library lists.
  abbrev pub listed : W → List Node
  listed w = ((ft.get_device_info_list (ft.create_device_info_list w).1).0).1

  -- `init` either opens the port, with a handle, or throws and leaves the port's open and initialized
  -- flags as they were; both ways it has stored the serial number and the stream flag. Or the library
  -- lists more than 16 devices, and it is undefined.
  pub init-opens :
      (serial : String) (stream : Bool) (p : Port W)
      → ((w' : W) × (init ft serial stream p
            ≡ returns tt (record p {
              device_serial_num = serial;
              is_stream = stream;
              has_handle = true;
              is_initialized = true;
              is_open = true;
              world = w';
            })))
        ⊎ ((e : Error) × (handle : Bool) × (w' : W) × (init ft serial stream p
              ≡ throws e (record p {
                device_serial_num = serial;
                is_stream = stream;
                has_handle = handle;
                world = w';
              })))
        ⊎ ((16 < length (listed p.world)) × (init ft serial stream p ≡ undefined))
  unfolding init
  init-opens serial stream p =
      let list = ft.create_device_info_list p.world in
      let nodes = ft.get_device_info_list list.1 in
      let device = ft.create serial nodes.1 in
      elim (Bool-cases (list.0.0 == ft_ok)) [
        | inr f ↦ inr (inl (Error.no_devices, p.has_handle, list.1, rw (f) refl))
        | inl t ↦ elim (Bool-cases (nodes.0.0 == ft_ok)) [
          | inr f ↦ inr (inl (Error.device_list_failed, p.has_handle, nodes.1, rw (t, f) refl))
          | inl u ↦ elim (Bool-cases (leb (length (listed p.world)) 16)) [
            | inr f ↦ inr (inr (not_leb→lt _ _ f, rw (t, u, f) refl))
            | inl few ↦ elim (Bool-cases device.0) [
              | inr f ↦ inr (inl (Error.open_failed, false, device.1, rw (t, u, few, f) refl))
              | inl v ↦ inl (device.1, rw (t, u, few, v) refl)
            ]
          ]
        ]
      ]

  -- A second `close` calls nothing and changes nothing.
  pub close-close : (p : Port W) → (close ft >>= λ _. close ft) p ≡ close ft p
  unfolding close abort_pipes
  close-close p = elim (Bool-cases p.is_open) [ inl t ↦ rw t refl | inr f ↦ rw f refl ]

  -- When reads are bounded `enableIQData` returns, and what it returns is the data flag that it
  -- leaves; if that was set before, it calls nothing. Nothing else of the port changes but the world.
  pub enable_iq_data-flag :
      Bounded ft
      → (source : ℕ) (p : Port W)
      → (b : Bool) × (w' : W) × (enable_iq_data ft source p
          ≡ returns b (record p { world = w'; iq_data_enabled = b }))
        × ((p.iq_data_enabled ≡ false) ⊎ ((b ≡ true) × (w' ≡ p.world)))
  unfolding enable_iq_data
  enable_iq_data-flag bounded source p =
      let (reply, w, e) =
        icom_iq_command-returns ft bounded (0x1a ∷ 0x0b ∷ (source + 1) % 256 ∷ [])
          (record p { iq_data_enabled = false }) (omega arith) in
      elim (Bool-cases p.iq_data_enabled) [
        | inl t ↦ (true, p.world, rw t refl, inr (refl, refl))
        | inr f ↦ elim (Bool-cases (ltb 0 (length reply))) [
          | inl y ↦ (true, w, rw f (rw (e, ◌>>=◌) (rw y refl)), inl f)
          | inr n ↦ (false, w, rw f (rw (e, ◌>>=◌) (rw n refl)), inl f)
        ]
      ]

  -- When reads are bounded `disableIQData` returns, and changes nothing of the port but the world and
  -- the data flag.
  pub disable_iq_data-returns :
      Bounded ft
      → (p : Port W)
      → (b : Bool) × (w' : W) × (disable_iq_data ft p
          ≡ returns tt (record p { world = w'; iq_data_enabled = b }))
  unfolding disable_iq_data
  disable_iq_data-returns bounded p =
      let (reply, w, e) =
        icom_iq_command-returns ft bounded (0x1a ∷ 0x0b ∷ 0x00 ∷ []) p (omega arith) in
      elim (Bool-cases (ltb 0 (length reply))) [
        | inl y ↦ (false, w, rw (e, ◌>>=◌) (rw y refl))
        | inr n ↦ (p.iq_data_enabled, w, rw (e, ◌>>=◌) (rw n refl))
      ]
