-- ===== src/Tools/Server/Stuck.antt =====
-- A client that goes while the ring is full: `handleClient` of Tools/IC7610TCPServer.cpp does not
-- end, and neither does TCPClient, whose loop and end are the same.
use ic7610iq.Prelude.{
  ℕ, ◌/◌, ◌<◌, true, some, List, [], ◌∷◌, length, returns, ◌≡◌, ◌⊎◌, inl, inr, refl, sym, ◌∙◌, ap,
  subst, append-eq-one, Ends,
}
use ic7610iq.Common.{bytes_per_sample}
use ic7610iq.Driver.{Ftd3xx}
use ic7610iq.Ring.{available_space}
use ic7610iq.Port.{Port}
use ic7610iq.Port.Async.{Worker, waiting, worker_step}
use ic7610iq.Port.Async.Turns.{stop_request-KeepsRing, worker_step-waits, stop_request-KeepsThread}
use ic7610iq.Port.Async.System.{System}
use ic7610iq.Tools.Net.{Net}
use ic7610iq.Tools.Server.{
  Client, leaving, joining, Server, ClientTurn, request, join, no_join, ThreadTurn, client_turn,
  worker_turn, ThreadTurns, no_turn, then_turn,
}

-- Where the one client stands: behind its loop or in its join.
abbrev pub AtEnd : ℕ → List (ℕ × Client) → Type 0
AtEnd socket clients = (clients ≡ (socket, leaving) ∷ []) ⊎ (clients ≡ (socket, joining) ∷ [])

abbrev Behind : ℕ → ℕ × Client → Type 0
Behind socket x = (x ≡ (socket, leaving)) ⊎ (x ≡ (socket, joining))

-- The reader waits, in a thread that is to be joined, with more samples than the ring has space for.
record Waits {W : Type 0} (bytes : List ℕ) (s : System W) : Type 0 where
  pub held : s.reader ≡ some (waiting bytes)
  pub thread : s.port.joinable ≡ true
  pub full : available_space s.port.iq_buffer < length bytes / bytes_per_sample

module _ {W : Type 0} (ft : Ftd3xx W) (net : Net W) (vfo : ℕ) where
  leaving_turn :
      {t : System W} {c' : Client} (socket : ℕ) (bytes : List ℕ) (s : System W)
      → Waits bytes s
      → ClientTurn ft net vfo socket s leaving t c'
      → (c' ≡ joining) × Waits bytes t
  leaving_turn socket bytes s w (request p e) =
      let ring : p.iq_buffer ≡ s.port.iq_buffer =
        subst (Ends (λ a q. q.iq_buffer ≡ s.port.iq_buffer)) e (stop_request-KeepsRing ft s.port) in
      let joinable : p.joinable ≡ s.port.joinable =
        subst (Ends (λ a q. q.joinable ≡ s.port.joinable)) e (stop_request-KeepsThread ft s.port) in
      (
        refl,
        record {
          held = w.held;
          thread = joinable ∙ w.thread;
          full = subst (λ r. available_space r < length bytes / bytes_per_sample) (sym ring) w.full;
        },
      )

  joining_turn :
      {t : System W} {c' : Client} (socket : ℕ) (bytes : List ℕ) (s : System W)
      → Waits bytes s
      → ¬ ClientTurn ft net vfo socket s joining t c'
  joining_turn socket bytes s w (join p r e) = absurd (cc w.held)
  joining_turn socket bytes s w (no_join p j e) = absurd (cc w.thread)

  worker_turn-Waits :
      (bytes : List ℕ) (s : System W) (w w' : Worker) (p : Port W)
      → Waits bytes s
      → s.reader ≡ some w
      → worker_step ft w s.port ≡ returns w' p
      → Waits bytes (record { port = p; reader = some w' })
  worker_turn-Waits bytes s w w' p k r e =
      let same : w ≡ waiting bytes = cc k.held in
      let e' : returns (waiting bytes) s.port ≡ returns w' p =
        sym (worker_step-waits ft bytes s.port k.full)
        ∙ subst (λ v. worker_step ft v s.port ≡ returns w' p) same e in
      let port : s.port ≡ p = cc in
      let worker : waiting bytes ≡ w' = cc in
      record {
        held = ap some (sym worker);
        thread = subst (λ q. q.joinable ≡ true) port k.thread;
        full =
            subst (λ q. available_space q.iq_buffer < length bytes / bytes_per_sample) port k.full;
      }

  ClientTurn-AtEnd :
      {t : System W} {c c' : Client} (socket i : ℕ) (bytes : List ℕ) (s : System W)
      → Waits bytes s
      → Behind socket (i, c)
      → ClientTurn ft net vfo i s c t c'
      → AtEnd socket ((i, c') ∷ []) × Waits bytes t
  ClientTurn-AtEnd {t} {c} {c'} socket i bytes s w (inl k) turn =
      let e : c ≡ leaving = ap (λ x. x.1) k in
      let (e', w') =
        leaving_turn i bytes s w (subst (λ d. ClientTurn ft net vfo i s d t c') e turn) in
      (inr (cc (ap (λ x. x.0) k)), w')
  ClientTurn-AtEnd {t} {c} {c'} socket i bytes s w (inr k) turn =
      let e : c ≡ joining = ap (λ x. x.1) k in
      absurd (joining_turn i bytes s w (subst (λ d. ClientTurn ft net vfo i s d t c') e turn))

  ThreadTurn-AtEnd :
      {t : Server W} (socket : ℕ) (bytes : List ℕ) (s : Server W)
      → AtEnd socket s.clients
      → Waits bytes s.system
      → ThreadTurn ft net vfo s t
      → AtEnd socket t.clients × Waits bytes t.system
  ThreadTurn-AtEnd socket bytes s (inl a) w (client_turn before after i c c' t e turn) =
      let (b, x, l) = append-eq-one before after (i, c) (socket, leaving) (sym e ∙ a) in
      rw (b, l) (ClientTurn-AtEnd socket i bytes s.system w (inl x) turn)
  ThreadTurn-AtEnd socket bytes s (inr a) w (client_turn before after i c c' t e turn) =
      let (b, x, l) = append-eq-one before after (i, c) (socket, joining) (sym e ∙ a) in
      rw (b, l) (ClientTurn-AtEnd socket i bytes s.system w (inr x) turn)
  ThreadTurn-AtEnd socket bytes s a w (worker_turn v v' p r e) =
      (a, worker_turn-Waits bytes s.system v v' p w r e)

  ThreadTurns-AtEnd :
      (s t : Server W) (socket : ℕ) (bytes : List ℕ)
      → AtEnd socket s.clients
      → Waits bytes s.system
      → ThreadTurns ft net vfo s t
      → AtEnd socket t.clients × Waits bytes t.system
  ThreadTurns-AtEnd s _ socket bytes a w no_turn = (a, w)
  ThreadTurns-AtEnd s t socket bytes a w (then_turn {t = u} turns turn) =
      let (a', w') = ThreadTurns-AtEnd s u socket bytes a w turns in
      ThreadTurn-AtEnd socket bytes u a' w' turn

  -- When the only client is behind its loop, as when a send has failed, and the reader, in a thread
  -- that is to be joined, waits with more samples than the ring has space for, then as long as
  -- nobody connects `handleClient` never ends: whatever turns its thread and the reader's take, it
  -- is still behind its loop or in the join, and the reader still waits.
  pub handle_client-waits :
      (s t : Server W) (socket : ℕ) (bytes : List ℕ)
      → s.clients ≡ (socket, leaving) ∷ []
      → s.system.reader ≡ some (waiting bytes)
      → s.system.port.joinable ≡ true
      → available_space s.system.port.iq_buffer < length bytes / bytes_per_sample
      → ThreadTurns ft net vfo s t
      → AtEnd socket t.clients × (t.system.reader ≡ some (waiting bytes))
  handle_client-waits s t socket bytes c r j f turns =
      let (a, w) =
        ThreadTurns-AtEnd s t socket bytes (inl c) (record { held = r; thread = j; full = f })
          turns in
      (a, w.held)
