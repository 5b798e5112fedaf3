-- ===== src/Soapy/Life/Kept.antt =====
-- Every call of the device leaves its port open and without a reader.
use ic7610iq.Prelude.{
  ℕ, ℤ, pos, negsuc, false, Option, none, some, List, [], ◌∷◌, String, M, ◌>>=◌, pure, modify,
  int_eq, if◌then◌else◌, sym, throw, Error, returns, throws, undefined, Outcome, ◌≡◌, subst, Ends,
  Keeps, Keeps-bind, Keeps-gets, keeps_rules, ltb,
}
use ic7610iq.Driver.{Ftd3xx}
use ic7610iq.Port.{Port}
use ic7610iq.Port.Data.{iq_clear_read_buf}
use ic7610iq.Soapy.{Api, Sdr, on_port, set_up_radio, read_radio}
use ic7610iq.Soapy.Capabilities.{clear_buffers}
use ic7610iq.Soapy.Settings.{
  set_antenna_by_name, set_antenna_number, antenna_number, set_frequency_of, tune,
}
use ic7610iq.Soapy.Streaming.{
  Filled, untouched, setup_stream, activate_stream, deactivate_stream, close_stream, read_stream,
  store_samples,
}
use ic7610iq.Soapy.Idle.{
  Idle, enable_iq_data-Idle, disable_iq_data-Idle, abort_pipe-Idle, get_rf_gain-Idle,
  get_attenuator_settings-Idle, get_frequency-Idle, set_frequency-Idle, get_antenna-Idle,
  set_antenna-Idle, set_digi_sel_status-Idle, set_ip_status-Idle, read_iq_data-Idle,
  iq_async_stop-Idle, icom_iq_command-Idle,
}
use ic7610iq.Soapy.Life.{
  Call, select_antenna, select_frequency, set_up, activate, deactivate, close, clear, read,
  call_device, run_calls,
}

module _ {W D : Type 0} (ft : Ftd3xx W) (api : Api D) where
  abbrev pub IdleDevice : Sdr W D → Type 0
  IdleDevice d = Idle d.port

  pub on_port-Ends :
      {A : Type 0} (m : M (Port W) A) (d : Sdr W D)
      → Ends (λ a p. Idle p) (m d.port)
      → Ends (λ a d. IdleDevice d) (on_port m d)
  unfolding on_port
  on_port-Ends {A = A} m d i = carried (m d.port) i
    where
      carried :
          (o : Outcome (Port W) A)
          → Ends (λ a p. Idle p) o
          → Ends
              (λ a d. Idle d.port)
              (elim o [
                | returns a p ↦ returns a (record d { port = p })
                | throws e p ↦ throws e (record d { port = p })
                | undefined ↦ undefined
              ])
      carried (returns a p) i = i
      carried (throws e p) i = tt
      carried undefined i = tt

  on_port-Idle : {A : Type 0} (m : M (Port W) A) → Keeps Idle m → Keeps IdleDevice (on_port m)
  on_port-Idle m k = record { at = λ d h. on_port-Ends m d (k.at d.port h) }

  -- A change of the device that leaves its port alone.
  change-Idle :
      (f : Sdr W D → Sdr W D) → ((d : Sdr W D) → (f d).port ≡ d.port) → Keeps IdleDevice (modify f)
  change-Idle f same = record { at = λ d h. subst Idle (sym (same d)) h }

  clear-Idle :
      Keeps IdleDevice (modify (λ (d : Sdr W D). record d { port = iq_clear_read_buf d.port }))
  unfolding iq_clear_read_buf
  clear-Idle = record { at = λ d h. record { opened = h.opened; thread = h.thread; flag = h.flag } }

  ruleset device_rules = (keeps_rules, on_port-Idle, change-Idle)

  set_antenna_number-Idle :
      (value : ℕ) (name : String) → Keeps IdleDevice (set_antenna_number ft api value name)
  unfolding set_antenna_number
  set_antenna_number-Idle value name = search (device_rules, set_antenna-Idle) depth 14

  set_antenna_by_name-Idle :
      (direction : ℤ) (name : String) → Keeps IdleDevice (set_antenna_by_name ft api direction name)
  unfolding set_antenna_by_name
  set_antenna_by_name-Idle direction name = numbered (antenna_number name)
    where
      numbered :
          (n : Option ℕ)
          → Keeps IdleDevice (
              if int_eq direction api.rx
              then (elim n [ none ↦ pure tt | some value ↦ set_antenna_number ft api value name ])
              else throw Error.rx_only)
      numbered none = search device_rules
      numbered (some value) = search (device_rules, set_antenna_number-Idle)

  set_frequency_of-Idle :
      (direction : ℤ) (name : String) (frequency : D)
      → Keeps IdleDevice (set_frequency_of ft api direction name frequency)
  unfolding set_frequency_of tune
  set_frequency_of-Idle direction name frequency =
      search (device_rules, set_frequency-Idle) depth 16

  activate_stream-Idle : (flags : ℤ) → Keeps IdleDevice (activate_stream ft api flags)
  unfolding activate_stream
  activate_stream-Idle flags = search (device_rules, enable_iq_data-Idle, abort_pipe-Idle) depth 16

  deactivate_stream-Idle : Keeps IdleDevice (deactivate_stream ft api)
  unfolding deactivate_stream
  deactivate_stream-Idle =
      search (device_rules, iq_async_stop-Idle, disable_iq_data-Idle, clear-Idle) depth 16

  close_stream-Idle : Keeps IdleDevice (close_stream ft api)
  unfolding close_stream
  close_stream-Idle = search (device_rules, deactivate_stream-Idle) depth 16

  store_samples-Idle :
      (format : String) (capacity samples : ℕ) (bytes : List ℕ)
      → Keeps IdleDevice (store_samples ft api format capacity samples bytes)
  unfolding store_samples
  store_samples-Idle format capacity samples bytes = search device_rules depth 16

  read_stream-Idle :
      (num_elems capacity : ℕ) → Keeps IdleDevice (read_stream ft api num_elems capacity)
  unfolding read_stream
  read_stream-Idle num_elems capacity = Keeps-bind _ _ (Keeps-gets (λ d. d)) (λ d.
      Keeps-bind _ _ (on_port-Idle _ (read_iq_data-Idle ft _ false))
        (λ (samples, bytes). taken d samples bytes))
    where
      taken :
          (d : Sdr W D) (samples : ℤ) (bytes : List ℕ)
          → Keeps {A = ℤ × Filled} IdleDevice (elim samples [
            | negsuc n ↦ pure (negsuc n, untouched)
            | pos n ↦
                if ltb 0 n
                then (do
                  filled ← store_samples ft api d.rx_format capacity n bytes
                  pure (pos n, filled))
                else pure (pos n, untouched)
          ])
      taken d (negsuc n) bytes = search device_rules
      taken d (pos n) bytes = search (device_rules, store_samples-Idle) depth 12

  setup_stream-Idle :
      (direction : ℤ) (format : String) (channels : List ℕ)
      → Keeps IdleDevice (setup_stream ft api direction format channels)
  unfolding setup_stream
  setup_stream-Idle direction format [] = search device_rules depth 12
  setup_stream-Idle direction format (channel ∷ rest) = search device_rules depth 12

  call_device-Idle : (c : Call D) → Keeps IdleDevice (call_device ft api c)
  unfolding call_device clear_buffers
  call_device-Idle (select_antenna direction name) = set_antenna_by_name-Idle direction name
  call_device-Idle (select_frequency direction name frequency) =
      set_frequency_of-Idle direction name frequency
  call_device-Idle (set_up direction format channels) = setup_stream-Idle direction format channels
  call_device-Idle (activate flags) = search (device_rules, activate_stream-Idle)
  call_device-Idle deactivate = search (device_rules, deactivate_stream-Idle)
  call_device-Idle close = close_stream-Idle
  call_device-Idle clear = clear-Idle
  call_device-Idle (read num_elems capacity) = search (device_rules, read_stream-Idle)

  pub run_calls-Idle : (cs : List (Call D)) → Keeps IdleDevice (run_calls ft api cs)
  unfolding run_calls
  run_calls-Idle [] = search device_rules
  run_calls-Idle (c ∷ cs) =
      Keeps-bind (call_device ft api c) (λ _. run_calls ft api cs) (call_device-Idle c)
        (λ _. run_calls-Idle cs)

  pub set_up_radio-Idle : Keeps IdleDevice (set_up_radio ft api)
  unfolding set_up_radio
  set_up_radio-Idle =
      search (device_rules, icom_iq_command-Idle, set_digi_sel_status-Idle, set_ip_status-Idle)
        depth 16

  pub read_radio-Idle : Keeps IdleDevice (read_radio ft api)
  unfolding read_radio
  read_radio-Idle =
      search
        (
          device_rules, get_rf_gain-Idle, get_attenuator_settings-Idle, get_antenna-Idle,
          get_frequency-Idle,
        )
        depth 20
