-- ===== src/Tools/Programs.antt =====
-- The programs up to their loops: options, operands, the radio, and the reader.
pub mod Ready
pub mod Fresh
use ic7610iq.Prelude.{
  ℕ, ℤ, Bool, true, false, Option, none, some, List, [], ◌∷◌, if◌then◌else◌, String, M, ◌>>=◌, ◌>>◌,
  pure, returns, undefined,
}
use ic7610iq.Driver.{Ftd3xx}
use ic7610iq.Port.{Port, call}
use ic7610iq.Port.Async.{iq_async_start}
use ic7610iq.Tools.{
  Letter, Numbers, Settings, default_settings, Parsed, usage, parsed, bad_number, server_option,
  push_option, parse, with_data_type, server_port, Prepared, exits, prepared, prepare,
}
use ic7610iq.Tools.Net.{Net, tcp_connect}

module _ {W : Type 0} where
  -- Only with settings does a program go on; `usage` exits with code 1.
  pub with_settings : Parsed → (Settings → M (Port W) Prepared) → M (Port W) Prepared
  with_settings usage k = pure (exits 1)
  with_settings (parsed s) k = k s
  with_settings bad_number k = λ p. undefined

module _ {W : Type 0} (numbers : Numbers) (ft : Ftd3xx W) where
  -- TCPServer, to where it listens. `optarg` is what `getopt` leaves.
  unfoldable pub server_setup :
      List (Letter × String) → Option String → List String → M (Port W) Prepared
  unfolding with_settings
  server_setup options optarg operands =
      with_settings (parse (server_option numbers) options default_settings) (λ s.
        with_settings (server_port numbers optarg operands s)
          (λ s'. prepare ft (with_data_type s')))

  -- zmqPush, to its sockets.
  unfoldable pub push_prepare : List (Letter × String) → M (Port W) Prepared
  unfolding with_settings
  push_prepare options =
      with_settings (parse (push_option numbers) options default_settings)
        (λ s. prepare ft (with_data_type s))

  -- Whether the reader starts is not looked at.
  push_start : Prepared → M (Port W) Prepared
  push_start (exits code) = pure (exits code)
  push_start (prepared s) = do _ ← iq_async_start ft s.vfo; pure (prepared s)

  -- To its loop, when no other thread comes between.
  pub push_setup : List (Letter × String) → M (Port W) Prepared
  unfolding push_prepare push_start
  push_setup options = do r ← push_prepare options; push_start r

-- What TCPClient comes to at its loop: a socket and its settings, or `exit`.
pub data Connected : Type 0 where
  quits : ℕ → Connected
  connected : ℕ → Settings → Connected

module _ {W : Type 0} (numbers : Numbers) (ft : Ftd3xx W) (net : Net W) where
  -- From the prepared radio to a connection; an invalid socket exits.
  unfoldable pub connect_client :
      (List ℕ → W → Option ℕ × W) → String → String → Prepared → M (Port W) Connected
  connect_client search host port (exits code) = pure (quits code)
  connect_client search host port (prepared s) = do
    socket ← call (tcp_connect net search host port)
    pure (elim socket [ none ↦ quits 1 | some sfd ↦ connected sfd s ])

  -- With fewer than two operands a null pointer, or what is past the end of `argv`, is printed.
  unfoldable pub client_operands :
      (List ℕ → W → Option ℕ × W) → List String → Settings → M (Port W) Connected
  unfolding connect_client
  client_operands search [] s = λ p. undefined
  client_operands search (host ∷ []) s = λ p. undefined
  client_operands search (host ∷ port ∷ []) s = do
    r ← prepare ft (with_data_type s)
    connect_client search host port r
  client_operands search (host ∷ port ∷ other ∷ rest) s = pure (quits 1)

  unfoldable pub with_client_settings :
      (List ℕ → W → Option ℕ × W) → List String → Parsed → M (Port W) Connected
  unfolding client_operands
  with_client_settings search operands usage = pure (quits 1)
  with_client_settings search operands (parsed s) = client_operands search operands s
  with_client_settings search operands bad_number = λ p. undefined

  -- TCPClient, to its connection.
  unfoldable pub client_prepare :
      (List ℕ → W → Option ℕ × W) → List (Letter × String) → List String → M (Port W) Connected
  unfolding with_client_settings
  client_prepare search options operands =
      with_client_settings search operands (parse (server_option numbers) options default_settings)

  -- Whether the reader starts is not looked at.
  client_start : Connected → M (Port W) Connected
  client_start (quits code) = pure (quits code)
  client_start (connected sfd s) = do _ ← iq_async_start ft s.vfo; pure (connected sfd s)

  -- To its loop, when no other thread comes between.
  pub client_setup :
      (List ℕ → W → Option ℕ × W) → List (Letter × String) → List String → M (Port W) Connected
  unfolding client_prepare client_start
  client_setup search options operands = do
    r ← client_prepare search options operands
    client_start r
