-- ===== src/Tools/Radio.antt =====
-- What the programs' preparation does with the gain.
use ic7610iq.Prelude.{
  ℕ, ltb, Option, none, some, List, [], ◌∷◌, String, pos, gets, Ends, Ends-bind, Ends-any, Ends-if,
  ℤ, Bool, true, false, ◌≡◌, refl, sym, ◌∙◌, ap, if◌then◌else◌, M, ◌>>=◌, ◌>>◌, pure, int_eq,
  is_positive, to_uint32,
}
use ic7610iq.Common.{iq_in}
use ic7610iq.Driver.{Ftd3xx}
use ic7610iq.Port.{Port}
use ic7610iq.Port.Device.{init, get_device_serial_num, set_timeout}
use ic7610iq.Port.Levels.{get_rf_gain, set_frequency}
use ic7610iq.Port.Command.{icom_iq_command}
use ic7610iq.Tools.{
  Settings, Prepared, exits, prepared, set_up_radio, prepare_device, prepare, int_min,
}

same_branches : {S A : Type 0} (b : Bool) (m : M S A) → (if b then m else m) ≡ m
same_branches true m = refl
same_branches false m = refl

module _ {W : Type 0} (ft : Ftd3xx W) where
  -- `set_up_radio` without its test on the gain.
  plain : ℤ → Settings → M (Port W) Settings
  plain timeout s = do
    if is_positive s.frequency
        then (do _ ← set_frequency ft s.vfo (to_uint32 s.frequency); pure tt)
        else pure tt
    gain ← get_rf_gain ft s.vfo
    set_timeout ft iq_in timeout
    pure (record s { gain = gain })

  set_up_radio-plain : (timeout : ℤ) (s : Settings) → set_up_radio ft timeout s ≡ plain timeout s
  unfolding set_up_radio plain
  set_up_radio-plain timeout s =
      ap
        (λ (m : M (Port W) ℤ). (do
          if is_positive s.frequency
              then (do _ ← set_frequency ft s.vfo (to_uint32 s.frequency); pure tt)
              else pure tt
          gain ← m
          set_timeout ft iq_in timeout
          pure (record s { gain = gain })))
        (same_branches (int_eq s.gain int_min) (get_rf_gain ft s.vfo))

  -- A gain given by option has no effect on the preparation of the radio: neither the outcome nor
  -- the state of the port depends on it.
  pub set_up_radio-gain :
      (timeout g : ℤ) (s : Settings)
      → set_up_radio ft timeout (record s { gain = g }) ≡ set_up_radio ft timeout s
  unfolding plain
  set_up_radio-gain timeout g s =
      set_up_radio-plain timeout (record s { gain = g }) ∙ sym (set_up_radio-plain timeout s)

-- Settings that differ in the gain at most, if there are any.
abbrev pub KeepsSettings : Settings → Prepared → Type 0
KeepsSettings s (exits code) = Unit
KeepsSettings s (prepared s') = (g : ℤ) × (s' ≡ record s { gain = g })

module _ {W : Type 0} (ft : Ftd3xx W) where
  set_up_radio-KeepsSettings :
      (timeout : ℤ) (s : Settings) (p : Port W)
      → Ends (λ s' q. KeepsSettings s (prepared s')) (set_up_radio ft timeout s p)
  unfolding set_up_radio
  set_up_radio-KeepsSettings timeout s p =
      let first : M (Port W) Unit =
        (if is_positive s.frequency
          then (do _ ← set_frequency ft s.vfo (to_uint32 s.frequency); pure tt)
          else pure tt) in
      let second : M (Port W) ℤ =
        (if int_eq s.gain int_min then get_rf_gain ft s.vfo else get_rf_gain ft s.vfo) in
      Ends-bind (λ a q. Unit {0}) (λ s' q. KeepsSettings s (prepared s')) first _ p (Ends-any _)
        (λ a q _.
          Ends-bind (λ g q. Unit {0}) (λ s' q. KeepsSettings s (prepared s')) second _ q
            (Ends-any _)
            (λ g r _.
              Ends-bind (λ a q. Unit {0}) (λ s' q. KeepsSettings s (prepared s'))
                (set_timeout ft iq_in timeout) (λ _. pure (record s { gain = g })) r (Ends-any _)
                (λ a u _. (g, refl))))

  prepare_device-KeepsSettings :
      (s : Settings) (serial : Option String) (p : Port W)
      → Ends (λ r q. KeepsSettings s r) (prepare_device ft s serial p)
  unfolding prepare_device
  prepare_device-KeepsSettings s none p = tt
  prepare_device-KeepsSettings s (some number) p =
      let send : M (Port W) (ℕ × List ℕ) = icom_iq_command ft (0x1a ∷ 0x0b ∷ []) [] in
      let radio : M (Port W) Prepared = (do
        s' ← set_up_radio ft (pos 5000) s
        pure (prepared s')) in
      let rest : M (Port W) Prepared = (do
        (received, _) ← send
        if ltb 0 received then radio else pure (exits 1)) in
      Ends-bind (λ a q. Unit {0}) (λ r q. KeepsSettings s r) (init ft number false)
        (λ _. do open' ← gets λ p. p.is_open; if open' then rest else pure (exits 2)) p (Ends-any _)
        (λ a q _.
          Ends-if (λ r q. KeepsSettings s r) q.is_open rest (pure (exits 2)) q
            (λ _.
              Ends-bind (λ a q. Unit {0}) (λ r q. KeepsSettings s r) send
                (λ (received, _). if ltb 0 received then radio else pure (exits 1)) q (Ends-any _)
                (λ (received, _) r _.
                  Ends-if (λ r q. KeepsSettings s r) (ltb 0 received) radio (pure (exits 1)) r
                    (λ _.
                      Ends-bind (λ s' q. KeepsSettings s (prepared s')) (λ r q. KeepsSettings s r)
                        (set_up_radio ft (pos 5000) s) (λ s'. pure (prepared s')) r
                        (set_up_radio-KeepsSettings (pos 5000) s r) (λ s' u k. k))
                    (λ _. tt)))
            (λ _. tt))

  pub prepare-KeepsSettings :
      (s : Settings) (p : Port W) → Ends (λ r q. KeepsSettings s r) (prepare ft s p)
  unfolding prepare
  prepare-KeepsSettings s p =
      Ends-bind (λ a q. Unit {0}) (λ r q. KeepsSettings s r) (get_device_serial_num ft)
        (prepare_device ft s) p (Ends-any _) (λ serial q _. prepare_device-KeepsSettings s serial q)
