-- ===== src/Tools/Net.antt =====
-- Samples over a socket: `handleClient` of Tools/IC7610TCPServer.cpp, and `tcp_connect` and the loop
-- of Tools/IC7610TCPClient.cpp. The sockets are the system's.
pub mod Laws
pub mod Rounds
use ic7610iq.Prelude.{
  ℕ, ◌*◌, ℤ, pos, negsuc, Bool, true, false, Option, none, some, List, [], ◌∷◌, String, leb, ltb,
  if◌then◌else◌, length, take, replicate, M, ◌>>=◌, ◌>>◌, pure, gets, modify,
}
use ic7610iq.Common.{bytes_per_sample}
use ic7610iq.Driver.{Ftd3xx}
use ic7610iq.Ring.{Step, blocks, faults, runs}
use ic7610iq.Port.{Port}
use ic7610iq.Port.Data.{iq_read_buf, iq_clear_read_buf}
use ic7610iq.Port.Async.{iq_async_start, iq_async_stop}

-- The sockets, a parameter: an address is a node of the list of `getaddrinfo`.
pub record Net (W : Type 0) : Type 0 where
  -- host and port; the addresses, or `none` if it fails
  pub get_addresses : String → String → W → Option (List ℕ) × W
  -- a socket for an address, or `none` for an invalid one
  pub open_socket : ℕ → W → Option ℕ × W
  -- socket and address; whether it connects
  pub connect_socket : ℕ → ℕ → W → Bool × W
  pub close_socket : ℕ → W → W
  -- socket and bytes; whether it is not a socket error
  pub send : ℕ → List ℕ → W → Bool × W

abbrev pub num_samples : ℕ
num_samples = 1024

-- `buf`: 1024 samples, all zero.
abbrev pub new_buf : List ℕ
new_buf = replicate (num_samples * bytes_per_sample) 0

module _ {W : Type 0} (net : Net W) where
  -- One address: what to do without a socket, and where to go on when it does not connect.
  unfoldable pub attempt : ℕ → (W → Option ℕ × W) → (W → Option ℕ × W) → W → Option ℕ × W
  attempt addr no_socket next w =
      let (fd, w') = net.open_socket addr w in
      elim fd [
        | none ↦ no_socket w'
        | some sfd ↦
            let (success, w'') = net.connect_socket sfd addr w' in
            if success then (some sfd, w'') else next (net.close_socket sfd w'')
      ]

  -- The addresses in turn, on Windows: a socket that cannot be had ends the search.
  pub connect_windows : List ℕ → W → Option ℕ × W
  unfolding attempt
  connect_windows [] w = (none, w)
  connect_windows (addr ∷ rest) w = attempt addr (λ w. (none, w)) (connect_windows rest) w

  -- Elsewhere: the next address is tried.
  unfoldable pub connect_posix : List ℕ → W → Option ℕ × W
  unfolding attempt
  connect_posix [] w = (none, w)
  connect_posix (addr ∷ rest) w = attempt addr (connect_posix rest) (connect_posix rest) w

  -- `tcp_connect`; `none` is an invalid socket on Windows, and `exit` elsewhere.
  unfoldable pub tcp_connect : (List ℕ → W → Option ℕ × W) → String → String → W → Option ℕ × W
  tcp_connect search host port w =
      let (addresses, w') = net.get_addresses host port w in
      elim addresses [ none ↦ (none, w') | some list ↦ search list w' ]

  -- The rest of a round of TCPClient once `iqReadBuf` has returned `samples`: whether the loop goes on.
  send_samples : ℕ → List ℕ → ℤ → Port W → Step (Bool × List ℕ × Port W)
  send_samples socket buf (negsuc n) p = runs (false, buf, p)
  send_samples socket buf (pos n) p =
      if ltb 0 n
      then if leb (n * bytes_per_sample) (length buf)
        then (let (success, w) = net.send socket (take (n * bytes_per_sample) buf) p.world in
            runs (success, buf, record p { world = w }))
        else faults
      else runs (false, buf, p)

  -- The test and the body of the loop of TCPClient: it waits with the read. `handleClient` does the same,
  -- and also counts its samples and its rounds, in two `int`s that it only prints.
  pub send_round : ℕ → List ℕ → Port W → Step (Bool × List ℕ × Port W)
  unfolding send_samples
  send_round socket buf p = elim (iq_read_buf buf num_samples p) [
    | blocks ↦ blocks
    | faults ↦ faults
    | runs (out, samples, q) ↦ send_samples socket out samples q
  ]

  -- The ring is cleared and the socket closed.
  unfoldable pub serve_close : ℕ → M (Port W) (Unit {0})
  serve_close socket = do
    modify iq_clear_read_buf
    modify λ p. record p { world = net.close_socket socket p.world }

module _ {W : Type 0} (ft : Ftd3xx W) (net : Net W) where
  -- Before the loop, and after it.
  pub serve_start : ℕ → M (Port W) (List ℕ)
  serve_start vfo = do _ ← iq_async_start ft vfo; pure new_buf

  pub serve_end : ℕ → M (Port W) (Unit {0})
  unfolding serve_close
  serve_end socket = do iq_async_stop ft; serve_close net socket
