-- ===== src/Tools/Programs/Fresh.antt =====
-- The programs from their start on: the port of a program is new when its set-up begins, and has no
-- reader when it ends.
use ic7610iq.Prelude.{
  ℕ, Bool, Option, none, some, List, [], ◌∷◌, String, M, refl, returns, ◌≡◌, Ends, Keeps, subst,
  Keeps-pure, Keeps-bind,
}
use ic7610iq.Driver.{Ftd3xx}
use ic7610iq.Ring.Inv.{create-IsValid}
use ic7610iq.Port.{Port, new_port}
use ic7610iq.Port.Unstarted.{Unstarted, Keeps-call}
use ic7610iq.Tools.{
  Letter, Numbers, Settings, default_settings, Parsed, usage, parsed, bad_number, server_option,
  push_option, parse, with_data_type, server_port, Prepared, exits, prepared,
}
use ic7610iq.Tools.Unstarted.{prepare-Unstarted}
use ic7610iq.Tools.Net.{Net, tcp_connect}
use ic7610iq.Tools.Programs.{
  with_settings, server_setup, push_prepare, Connected, quits, connected, connect_client,
  client_operands, with_client_settings, client_prepare,
}

module _ {W : Type 0} where
  new_port-Unstarted : (handle : Bool) (w : W) → Unstarted (new_port handle w)
  new_port-Unstarted handle w = record { ring = create-IsValid; thread = refl; flag = refl }

  with_settings-Unstarted :
      (r : Parsed) (k : Settings → M (Port W) Prepared)
      → ((s : Settings) → Keeps Unstarted (k s))
      → Keeps Unstarted (with_settings r k)
  unfolding with_settings
  with_settings-Unstarted usage k h = Keeps-pure (exits 1)
  with_settings-Unstarted (parsed s) k h = h s
  with_settings-Unstarted bad_number k h = record { at = λ p u. tt }

module _ {W : Type 0} (numbers : Numbers) (ft : Ftd3xx W) where
  -- If TCPServer gets to its sockets, its port has a valid ring and no reader.
  pub server_setup-Unstarted :
      (options : List (Letter × String)) (optarg : Option String) (operands : List String)
      (handle : Bool) (w : W) (r : Prepared) (p : Port W)
      → server_setup numbers ft options optarg operands (new_port handle w) ≡ returns r p
      → Unstarted p
  unfolding server_setup
  server_setup-Unstarted options optarg operands handle w r p e =
      subst (Ends (λ r q. Unstarted q)) e (
        (with_settings-Unstarted (parse (server_option numbers) options default_settings) _ (λ s.
            with_settings-Unstarted (server_port numbers optarg operands s) _
              (λ s'. prepare-Unstarted ft (with_data_type s')))).at
          (new_port handle w) (new_port-Unstarted handle w))

  -- The same of zmqPush.
  pub push_prepare-Unstarted :
      (options : List (Letter × String)) (handle : Bool) (w : W) (r : Prepared) (p : Port W)
      → push_prepare numbers ft options (new_port handle w) ≡ returns r p
      → Unstarted p
  unfolding push_prepare
  push_prepare-Unstarted options handle w r p e = subst (Ends (λ r q. Unstarted q)) e (
      (with_settings-Unstarted (parse (push_option numbers) options default_settings) _
          (λ s. prepare-Unstarted ft (with_data_type s))).at
        (new_port handle w) (new_port-Unstarted handle w))

module _ {W : Type 0} (numbers : Numbers) (ft : Ftd3xx W) (net : Net W) where
  connect_client-Unstarted :
      (find : List ℕ → W → Option ℕ × W) (host port : String) (r : Prepared)
      → Keeps Unstarted (connect_client numbers ft net find host port r)
  unfolding connect_client
  connect_client-Unstarted find host port (exits code) = Keeps-pure (quits code)
  connect_client-Unstarted find host port (prepared s) =
      Keeps-bind _ _ (Keeps-call (tcp_connect net find host port))
        (λ socket. Keeps-pure (elim socket [ none ↦ quits 1 | some sfd ↦ connected sfd s ]))

  client_operands-Unstarted :
      (find : List ℕ → W → Option ℕ × W) (operands : List String) (s : Settings)
      → Keeps Unstarted (client_operands numbers ft net find operands s)
  unfolding client_operands
  client_operands-Unstarted find [] s = record { at = λ p u. tt }
  client_operands-Unstarted find (host ∷ []) s = record { at = λ p u. tt }
  client_operands-Unstarted find (host ∷ port ∷ []) s =
      Keeps-bind _ (connect_client numbers ft net find host port)
        (prepare-Unstarted ft (with_data_type s)) (connect_client-Unstarted find host port)
  client_operands-Unstarted find (host ∷ port ∷ other ∷ rest) s = Keeps-pure (quits 1)

  with_client_settings-Unstarted :
      (find : List ℕ → W → Option ℕ × W) (operands : List String) (r : Parsed)
      → Keeps Unstarted (with_client_settings numbers ft net find operands r)
  unfolding with_client_settings
  with_client_settings-Unstarted find operands usage = Keeps-pure (quits 1)
  with_client_settings-Unstarted find operands (parsed s) =
      client_operands-Unstarted find operands s
  with_client_settings-Unstarted find operands bad_number = record { at = λ p u. tt }

  -- The same of TCPClient, up to its connection.
  pub client_prepare-Unstarted :
      (find : List ℕ → W → Option ℕ × W) (options : List (Letter × String)) (operands : List String)
      (handle : Bool) (w : W) (r : Connected) (p : Port W)
      → client_prepare numbers ft net find options operands (new_port handle w) ≡ returns r p
      → Unstarted p
  unfolding client_prepare
  client_prepare-Unstarted find options operands handle w r p e =
      subst (Ends (λ r q. Unstarted q)) e (
        (with_client_settings-Unstarted find operands
            (parse (server_option numbers) options default_settings)).at
          (new_port handle w) (new_port-Unstarted handle w))
