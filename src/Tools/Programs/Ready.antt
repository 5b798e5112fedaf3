-- ===== src/Tools/Programs/Ready.antt =====
-- What TCPServer relies on when it goes to its sockets.
use ic7610iq.Prelude.{
  ◌≤◌, false, Option, List, ◌≡◌, refl, String, is_zero, M, returns, throws, undefined, Outcome,
  Ends, arith,
}
use ic7610iq.Driver.{Ftd3xx}
use ic7610iq.Port.{Port}
use ic7610iq.Tools.{
  Letter, Numbers, Settings, default_settings, Parsed, usage, parsed, bad_number, server_option,
  parse, with_data_type, server_port, Prepared, exits, prepared, prepare, sub_vfo,
}
use ic7610iq.Tools.Options.{
  Gives, Untyped, Listening, parse-Untyped, server_port-Listening, with_data_type-eq,
}
use ic7610iq.Tools.Radio.{KeepsSettings, prepare-KeepsSettings}
use ic7610iq.Tools.Programs.{with_settings, server_setup}

-- A receiver of the radio, a port to listen on, and the type of the samples.
abbrev pub Ready : Prepared → Type 0
Ready (exits code) = Unit
Ready (prepared s) = (s.vfo ≤ sub_vfo) × (is_zero s.port ≡ false) × (s.data_type ≡ "CS16")

module _ {W : Type 0} where
  pub with_settings-Ends :
      (Q : Prepared → Type 0) (P : Settings → Type 0) (r : Parsed)
      (k : Settings → M (Port W) Prepared) (p : Port W)
      → Q (exits 1)
      → Gives P r
      → ((s : Settings) → P s → Ends (λ r q. Q r) (k s p))
      → Ends (λ r q. Q r) (with_settings r k p)
  unfolding with_settings
  with_settings-Ends Q P usage k p q g h = q
  with_settings-Ends Q P (parsed s) k p q g h = h s g
  with_settings-Ends Q P bad_number k p q g h = tt

  kept :
      (s : Settings) (o : Outcome (Port W) Prepared)
      → Ready (prepared s)
      → Ends (λ r q. KeepsSettings s r) o
      → Ends (λ r q. Ready r) o
  kept s (returns (exits code) q) ready k = tt
  kept s (returns (prepared s') q) ready (g, e) = rw e ready
  kept s (throws x q) ready k = tt
  kept s undefined ready k = tt

module _ {W : Type 0} (numbers : Numbers) (ft : Ftd3xx W) where
  -- If the set-up of TCPServer returns settings, whatever its options and operands, they name the
  -- main or the sub receiver, a port other than 0, and the type CS16.
  pub server_setup-Ready :
      (options : List (Letter × String)) (optarg : Option String) (operands : List String)
      (p : Port W)
      → Ends (λ r q. Ready r) (server_setup numbers ft options optarg operands p)
  unfolding server_setup
  server_setup-Ready options optarg operands p =
      with_settings-Ends Ready Untyped (parse (server_option numbers) options default_settings) _ p
        tt (parse-Untyped numbers options default_settings (omega arith, refl))
        (λ s u.
          with_settings-Ends Ready Listening (server_port numbers optarg operands s)
            (λ s'. prepare ft (with_data_type s')) p tt
            (server_port-Listening numbers optarg operands s u)
            (λ s' ((v, t), l).
              kept (with_data_type s') (prepare ft (with_data_type s') p)
                (rw (with_data_type-eq s' t) (v, l, refl))
                (prepare-KeepsSettings ft (with_data_type s') p)))
