-- ===== src/Soapy/Idle.antt =====
-- Calls of the port that the device makes, on an open port that has no reader: they leave it so.
use ic7610iq.Prelude.{
  ℕ, ℤ, pos, negsuc, Bool, true, false, String, List, modify, ◌≡◌, inl, inr, refl, sym, ◌∙◌, subst,
  Ends, Ends-weaken, Keeps, keeps_rules,
}
use ic7610iq.Driver.{Ftd3xx}
use ic7610iq.Port.{Port, call}
use ic7610iq.Port.Command.{icom_iq_command}
use ic7610iq.Port.Command.Frame.{icom_iq_command-OnlyWorld}
use ic7610iq.Port.Device.{init, enable_iq_data, disable_iq_data, abort_pipe}
use ic7610iq.Port.Device.Opening.{init-opens}
use ic7610iq.Port.Levels.{
  get_rf_gain, get_attenuator_settings, get_frequency, set_frequency, frequency_value,
}
use ic7610iq.Port.Settings.{
  get_antenna, set_antenna, set_status, set_digi_sel_status, set_ip_status,
}
use ic7610iq.Port.Data.{read_iq_data, negated}
use ic7610iq.Port.Async.{iq_async_stop, stop_request, stop_finish}

-- Open, with no reader.
pub record Idle {W : Type 0} (p : Port W) : Type 0 where
  pub opened : p.is_open ≡ true
  pub thread : p.joinable ≡ false
  pub flag : p.running ≡ false

module _ {W : Type 0} where
  Idle-world : (p : Port W) (w : W) → Idle p → Idle (record p { world = w })
  Idle-world p w h = record { opened = h.opened; thread = h.thread; flag = h.flag }

  Idle-call : {A : Type 0} (f : W → A × W) → Keeps Idle (call f)
  Idle-call f = record { at = λ p h. Idle-world p (f p.world).1 h }

  -- A change that leaves those three alone.
  Idle-change :
      (f : Port W → Port W)
      → ((p : Port W)
          → ((f p).is_open ≡ p.is_open)
            × ((f p).joinable ≡ p.joinable)
            × ((f p).running ≡ p.running))
      → Keeps Idle (modify f)
  Idle-change f same = record {
    at = λ p h.
        let (o, t, r) = same p in
        record { opened = o ∙ h.opened; thread = t ∙ h.thread; flag = r ∙ h.flag };
  }

  pub icom_iq_command-Idle :
      (ft : Ftd3xx W) (cmd reply : List ℕ) → Keeps Idle (icom_iq_command ft cmd reply)
  icom_iq_command-Idle ft cmd reply = record {
    at = λ p h.
        Ends-weaken (λ a q. (w : W) × (q ≡ record p { world = w })) (λ a q. Idle q) _
          (icom_iq_command-OnlyWorld ft cmd reply p)
          (λ a q (w, e). subst Idle (sym e) (Idle-world p w h));
  }

ruleset idle_rules = (keeps_rules, Idle-call, Idle-change, icom_iq_command-Idle)

module _ {W : Type 0} where
  frequency_value-Idle :
      (reply : List ℕ) (index : ℕ) → Keeps (Idle {W = W}) (frequency_value reply index)
  unfolding frequency_value
  frequency_value-Idle reply index = search idle_rules depth 12

  negated-Idle : (status : ℕ) → Keeps (Idle {W = W}) (negated status)
  unfolding negated
  negated-Idle status = search idle_rules depth 12

module _ {W : Type 0} (ft : Ftd3xx W) where
  pub enable_iq_data-Idle : (source : ℕ) → Keeps Idle (enable_iq_data ft source)
  unfolding enable_iq_data
  enable_iq_data-Idle source = search idle_rules depth 12

  pub disable_iq_data-Idle : Keeps Idle (disable_iq_data ft)
  unfolding disable_iq_data
  disable_iq_data-Idle = search idle_rules depth 12

  pub abort_pipe-Idle : (pipe : ℕ) → Keeps Idle (abort_pipe ft pipe)
  unfolding abort_pipe
  abort_pipe-Idle pipe = search idle_rules depth 12

  pub get_rf_gain-Idle : (vfo : ℕ) → Keeps Idle (get_rf_gain ft vfo)
  unfolding get_rf_gain
  get_rf_gain-Idle vfo = search idle_rules depth 14

  pub get_attenuator_settings-Idle : (vfo : ℕ) → Keeps Idle (get_attenuator_settings ft vfo)
  unfolding get_attenuator_settings
  get_attenuator_settings-Idle vfo = search idle_rules depth 14

  pub get_frequency-Idle : (vfo : ℕ) → Keeps Idle (get_frequency ft vfo)
  unfolding get_frequency
  get_frequency-Idle vfo = search (idle_rules, frequency_value-Idle) depth 14

  pub set_frequency-Idle : (vfo f : ℕ) → Keeps Idle (set_frequency ft vfo f)
  unfolding set_frequency
  set_frequency-Idle vfo f = search (idle_rules, frequency_value-Idle) depth 14

  pub get_antenna-Idle : (vfo : ℕ) → Keeps Idle (get_antenna ft vfo)
  unfolding get_antenna
  get_antenna-Idle vfo = search idle_rules depth 14

  pub set_antenna-Idle :
      (vfo : ℕ) (antenna : ℤ) (status : Bool) → Keeps Idle (set_antenna ft vfo antenna status)
  unfolding set_antenna
  set_antenna-Idle vfo (negsuc n) status = search idle_rules depth 4
  set_antenna-Idle vfo (pos n) status = search idle_rules depth 16

  pub set_digi_sel_status-Idle :
      (vfo : ℕ) (status : Bool) → Keeps Idle (set_digi_sel_status ft vfo status)
  unfolding set_digi_sel_status set_status
  set_digi_sel_status-Idle vfo status = search idle_rules depth 14

  pub set_ip_status-Idle : (vfo : ℕ) (status : Bool) → Keeps Idle (set_ip_status ft vfo status)
  unfolding set_ip_status set_status
  set_ip_status-Idle vfo status = search idle_rules depth 14

  pub read_iq_data-Idle :
      (size : ℕ) (overlapped : Bool) → Keeps Idle (read_iq_data ft size overlapped)
  unfolding read_iq_data
  read_iq_data-Idle size overlapped = search (idle_rules, negated-Idle) depth 14

  running_off-Idle : Keeps Idle (modify (λ (p : Port W). record p { running = false }))
  running_off-Idle = record {
    at = λ p h. record { opened = h.opened; thread = h.thread; flag = refl };
  }

  joinable_off-Idle : Keeps Idle (modify (λ (p : Port W). record p { joinable = false }))
  joinable_off-Idle = record {
    at = λ p h. record { opened = h.opened; thread = refl; flag = h.flag };
  }

  pub iq_async_stop-Idle : Keeps Idle (iq_async_stop ft)
  unfolding iq_async_stop stop_request stop_finish
  iq_async_stop-Idle =
      search (idle_rules, running_off-Idle, joinable_off-Idle, disable_iq_data-Idle) depth 14

  -- `init`, if it returns, leaves an open port.
  pub init-Idle :
      (serial : String) (stream : Bool) (p : Port W)
      → p.joinable ≡ false
      → p.running ≡ false
      → Ends (λ a q. Idle q) (init ft serial stream p)
  init-Idle serial stream p t r = elim (init-opens ft serial stream p) [
    | inl (w, e) ↦
        subst (Ends (λ a q. Idle q)) (sym e) (record { opened = refl; thread = t; flag = r })
    | inr (inl (x, handle, w, e)) ↦ subst (Ends (λ a q. Idle q)) (sym e) tt
    | inr (inr (many, e)) ↦ subst (Ends (λ a q. Idle q)) (sym e) tt
  ]
