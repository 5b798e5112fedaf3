-- ===== src/Tools/Push/Typed.antt =====
-- The data type that zmqPush settles on.
use ic7610iq.Prelude.{
  ◌≡◌, ◌⊎◌, inl, inr, refl, List, String, subst, returns, throws, undefined, Outcome, Ends, arith,
}
use ic7610iq.Driver.{Ftd3xx}
use ic7610iq.Port.{Port}
use ic7610iq.Tools.{
  Letter, Numbers, Settings, default_settings, push_option, parse, with_data_type, Prepared, exits,
  prepared, prepare,
}
use ic7610iq.Tools.Options.{Known, KnownType, parse-Known}
use ic7610iq.Tools.Radio.{KeepsSettings, prepare-KeepsSettings}
use ic7610iq.Tools.Programs.{push_prepare}
use ic7610iq.Tools.Programs.Ready.{with_settings-Ends}

-- One of the three types.
abbrev pub TypeName : String → Type 0
TypeName t = (t ≡ "CS16") ⊎ ((t ≡ "CF32") ⊎ (t ≡ "CF64"))

abbrev Typed : Prepared → Type 0
Typed (exits code) = Unit
Typed (prepared s) = TypeName s.data_type

with_data_type-TypeName :
    (s : Settings) → KnownType s.data_type → TypeName (with_data_type s).data_type
unfolding with_data_type
with_data_type-TypeName s (inl e) = rw e (inl refl)
with_data_type-TypeName s (inr (inl e)) = rw e (inl refl)
with_data_type-TypeName s (inr (inr (inl e))) = rw e (inr (inl refl))
with_data_type-TypeName s (inr (inr (inr e))) = rw e (inr (inr refl))

module _ {W : Type 0} where
  kept :
      (s : Settings) (o : Outcome (Port W) Prepared)
      → TypeName s.data_type
      → Ends (λ r q. KeepsSettings s r) o
      → Ends (λ r q. Typed r) o
  kept s (returns (exits code) q) t k = tt
  kept s (returns (prepared s') q) t (g, e) = rw e t
  kept s (throws x q) t k = tt
  kept s undefined t k = tt

module _ {W : Type 0} (numbers : Numbers) (ft : Ftd3xx W) where
  pub push_prepare-TypeName :
      (options : List (Letter × String)) (s : Settings) (p q : Port W)
      → push_prepare numbers ft options p ≡ returns (prepared s) q
      → TypeName s.data_type
  unfolding push_prepare
  push_prepare-TypeName options s p q e = subst (Ends (λ r q. Typed r)) e (
      with_settings-Ends Typed Known (parse (push_option numbers) options default_settings) _ p tt
        (parse-Known numbers options default_settings (omega arith, inl refl))
        (λ s (v, t).
          kept (with_data_type s) (prepare ft (with_data_type s) p) (with_data_type-TypeName s t)
            (prepare-KeepsSettings ft (with_data_type s) p)))
