-- ===== src/Port/Unstarted.antt =====
-- A port before its reader: what the commands of src/IcomIQPort.cpp keep of it.
use ic7610iq.Prelude.{
  ℕ, false, List, ◌≡◌, sym, ◌∙◌, subst, modify, Outcome, Ends, Ends-weaken, Keeps, keeps_rules,
}
use ic7610iq.Driver.{Ftd3xx}
use ic7610iq.Ring.Inv.{IsValid}
use ic7610iq.Port.{Port, call}
use ic7610iq.Port.Command.{icom_iq_command}
use ic7610iq.Port.Command.Frame.{icom_iq_command-OnlyWorld}

-- A valid ring, and no reader.
pub record Unstarted {W : Type 0} (p : Port W) : Type 0 where
  pub ring : IsValid p.iq_buffer
  pub thread : p.joinable ≡ false
  pub flag : p.running ≡ false

pub Unstarted-world :
    {W : Type 0} (p : Port W) (w : W) → Unstarted p → Unstarted (record p { world = w })
Unstarted-world p w h = record { ring = h.ring; thread = h.thread; flag = h.flag }

pub Keeps-call : {W A : Type 0} (f : W → A × W) → Keeps Unstarted (call f)
Keeps-call f = record { at = λ p h. Unstarted-world p (f p.world).1 h }

-- A change of the port that leaves its ring, its thread and `_running` alone.
pub Keeps-change :
    {W : Type 0} (f : Port W → Port W)
    → ((p : Port W)
        → ((f p).iq_buffer ≡ p.iq_buffer)
          × ((f p).joinable ≡ p.joinable)
          × ((f p).running ≡ p.running))
    → Keeps Unstarted (modify f)
Keeps-change f same = record {
  at = λ p h.
      let (r, t, o) = same p in
      record { ring = subst IsValid (sym r) h.ring; thread = t ∙ h.thread; flag = o ∙ h.flag };
}

pub icom_iq_command-Unstarted :
    {W : Type 0} (ft : Ftd3xx W) (cmd reply : List ℕ)
    → Keeps Unstarted (icom_iq_command ft cmd reply)
icom_iq_command-Unstarted {W} ft cmd reply = record {
  at = λ p h.
      Ends-weaken (λ a q. (w : W) × (q ≡ record p { world = w })) (λ a q. Unstarted q) _
        (icom_iq_command-OnlyWorld ft cmd reply p)
        (λ a q (w, e). subst Unstarted (sym e) (Unstarted-world p w h));
}

pub ruleset unstarted_rules = (keeps_rules, Keeps-call, icom_iq_command-Unstarted)
