-- ===== src/Port/Levels/Unstarted.antt =====
-- The gain and the frequency of a port before its reader.
use ic7610iq.Prelude.{ℕ, List, Keeps}
use ic7610iq.Driver.{Ftd3xx}
use ic7610iq.Port.Unstarted.{Unstarted, unstarted_rules}
use ic7610iq.Port.Levels.{get_rf_gain, set_frequency, frequency_value}

module _ {W : Type 0} where
  frequency_value-Unstarted :
      (reply : List ℕ) (index : ℕ) → Keeps (Unstarted {W = W}) (frequency_value reply index)
  unfolding frequency_value
  frequency_value-Unstarted reply index = search unstarted_rules depth 12

module _ {W : Type 0} (ft : Ftd3xx W) where
  pub get_rf_gain-Unstarted : (vfo : ℕ) → Keeps Unstarted (get_rf_gain ft vfo)
  unfolding get_rf_gain
  get_rf_gain-Unstarted vfo = search unstarted_rules depth 9

  pub set_frequency-Unstarted : (vfo f : ℕ) → Keeps Unstarted (set_frequency ft vfo f)
  unfolding set_frequency
  set_frequency-Unstarted vfo f = search (unstarted_rules, frequency_value-Unstarted) depth 9
