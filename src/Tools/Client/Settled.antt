-- ===== src/Tools/Client/Settled.antt =====
-- The reader of TCPClient from the start of the program to its end.
use ic7610iq.Prelude.{
  ℕ, Bool, true, false, Option, none, some, List, String, returns, ◌≡◌, ◌⊎◌, inl, inr, refl, subst,
  Ends,
}
use ic7610iq.Driver.{Ftd3xx}
use ic7610iq.Ring.{available_data}
use ic7610iq.Port.{Port}
use ic7610iq.Port.Unstarted.{Unstarted}
use ic7610iq.Port.Data.{iq_clear_read_buf}
use ic7610iq.Port.Data.Reads.{iq_clear_read_buf-empties}
use ic7610iq.Port.Async.{Worker, starting, worker_step, stop_request, stop_finish}
use ic7610iq.Port.Async.Turns.{set_running_lem, start_thread_lem}
use ic7610iq.Port.Async.Flags.{
  Flags, Flags-same, start_enabled-Flags, stop_request-Flags, stop_finish-Flags, worker_step-Flags,
  ReaderFlags, as_told, told_itself, ReaderFlags-thread, ReaderFlags-off,
}
use ic7610iq.Port.Async.System.{System}
use ic7610iq.Tools.{Letter, Numbers}
use ic7610iq.Tools.Net.{Net, serve_close}
use ic7610iq.Tools.Net.Rounds.{send_round-SameThread}
use ic7610iq.Tools.Programs.Fresh.{client_prepare-Unstarted}
use ic7610iq.Tools.Server.{
  Client, arrived, spawned, serving, leaving, joining, stopped, left, ClientTurn, spawn, announce,
  refuse, round, last_round, request, join, no_join, close,
}
use ic7610iq.Tools.Client.{main_turn, worker_turn, MainTurns, no_turn, then_turn, MainRun, ran}

-- No reader, and a port with no thread to join that does not say that it runs.
abbrev pub NoReader : {W : Type 0} → System W → Type 0
NoReader s = (s.reader ≡ none) × Flags false false s.port

-- A reader, in a thread that is to be joined; the port says that it runs as `running` does, unless the
-- reader has turned that off by itself and is before its own join.
abbrev pub HasReader : {W : Type 0} → Bool → System W → Type 0
HasReader running s = (w : Worker) × (s.reader ≡ some w) × ReaderFlags running w s.port

-- What holds of the port and of the reader, wherever `main` stands.
abbrev pub Settled : {W : Type 0} → System W → Client → Type 0
Settled s arrived = NoReader s
Settled s spawned = HasReader false s
Settled s (serving buf) = NoReader s ⊎ HasReader true s
Settled s leaving = NoReader s ⊎ HasReader true s
Settled s joining = NoReader s ⊎ HasReader false s
Settled s stopped = NoReader s
Settled s left = NoReader s × (available_data s.port.iq_buffer ≡ 0)

module _ {W : Type 0} where
  at_port :
      {j r : Bool} (p q : Port W)
      → (q.joinable ≡ p.joinable) × (q.running ≡ p.running)
      → Flags j r p
      → Flags j r q
  at_port p q (t, o) h = Flags-same p q t o h

  -- A change of the port that keeps both flags keeps the reader.
  with_port :
      (s : System W) (q : Port W)
      → (q.joinable ≡ s.port.joinable) × (q.running ≡ s.port.running)
      → NoReader s ⊎ HasReader true s
      → NoReader (record s { port = q }) ⊎ HasReader true (record s { port = q })
  with_port s q same (inl (r, h)) = inl (r, at_port s.port q same h)
  with_port s q same (inr (w, r, as_told h)) = inr (w, r, as_told (at_port s.port q same h))
  with_port s q same (inr (w, r, told_itself e h)) =
      inr (w, r, told_itself e (at_port s.port q same h))

module _ {W : Type 0} (ft : Ftd3xx W) where
  requested :
      (s : System W) (p : Port W)
      → stop_request ft s.port ≡ returns tt p
      → NoReader s ⊎ HasReader true s
      → NoReader (record s { port = p }) ⊎ HasReader false (record s { port = p })
  requested s p e (inl (r, h)) =
      inl (r, subst (Ends (λ a q. Flags false false q)) e (stop_request-Flags ft s.port h))
  requested s p e (inr (w, r, h)) = inr (w, r, as_told (told_off h))
    where
      told_off : ReaderFlags true w s.port → Flags true false p
      told_off (as_told k) =
          subst (Ends (λ a q. Flags true false q)) e (stop_request-Flags ft s.port k)
      told_off (told_itself _ k) =
          subst (Ends (λ a q. Flags true false q)) e (stop_request-Flags ft s.port k)

  finished_stop :
      {j : Bool} (p q : Port W)
      → stop_finish ft p ≡ returns tt q
      → Flags j false p
      → Flags false false q
  finished_stop p q e h = subst (Ends (λ a q. Flags false false q)) e (stop_finish-Flags ft p h)

  joined :
      (s : System W) (p : Port W)
      → stop_finish ft s.port ≡ returns tt p
      → NoReader s ⊎ HasReader false s
      → Flags false false p
  joined s p e (inl (r, h)) = finished_stop s.port p e h
  joined s p e (inr (w, r, h)) = finished_stop s.port p e (ReaderFlags-off h)

  unjoined :
      (s : System W) (p : Port W)
      → s.port.joinable ≡ false
      → stop_finish ft s.port ≡ returns tt p
      → NoReader s ⊎ HasReader false s
      → NoReader (record s { port = p })
  unjoined s p f e (inl (r, h)) = (r, finished_stop s.port p e h)
  unjoined s p f e (inr (w, r, h)) = absurd (cc (ReaderFlags-thread h))

  stepped :
      {r : Bool} (s : System W) (w w' : Worker) (p : Port W)
      → s.reader ≡ some w
      → worker_step ft w s.port ≡ returns w' p
      → HasReader r s
      → HasReader r (record { port = p; reader = some w' })
  stepped {r = r} s w w' p there e (v, k, h) =
      let h' : ReaderFlags r w s.port = subst (λ w. ReaderFlags r w s.port) (cc (k, there)) h in
      (w', refl, subst (Ends (ReaderFlags r)) e (worker_step-Flags ft w s.port h'))

  -- A reader that takes a turn is there.
  either_stepped :
      {r : Bool} (s : System W) (w w' : Worker) (p : Port W)
      → s.reader ≡ some w
      → worker_step ft w s.port ≡ returns w' p
      → NoReader s ⊎ HasReader r s
      → NoReader (record { port = p; reader = some w' })
        ⊎ HasReader r (record { port = p; reader = some w' })
  either_stepped s w w' p k e (inl (none_there, h)) = absurd (cc (k, none_there))
  either_stepped s w w' p k e (inr there) = inr (stepped s w w' p k e there)

  worker_turn-Settled :
      (s : System W) (c : Client) (w w' : Worker) (p : Port W)
      → s.reader ≡ some w
      → worker_step ft w s.port ≡ returns w' p
      → Settled s c
      → Settled (record { port = p; reader = some w' }) c
  worker_turn-Settled s arrived w w' p k e (r, h) = absurd (cc (k, r))
  worker_turn-Settled s spawned w w' p k e h = stepped s w w' p k e h
  worker_turn-Settled s (serving buf) w w' p k e h = either_stepped s w w' p k e h
  worker_turn-Settled s leaving w w' p k e h = either_stepped s w w' p k e h
  worker_turn-Settled s joining w w' p k e h = either_stepped s w w' p k e h
  worker_turn-Settled s stopped w w' p k e (r, h) = absurd (cc (k, r))
  worker_turn-Settled s left w w' p k e ((r, h), empty) = absurd (cc (k, r))

module _ {W : Type 0} (ft : Ftd3xx W) (net : Net W) (vfo socket : ℕ) where
  ClientTurn-Settled :
      {s t : System W} {c d : Client}
      → ClientTurn ft net vfo socket s c t d
      → Settled s c
      → Settled t d
  unfolding serve_close iq_clear_read_buf
  ClientTurn-Settled {s = s} (spawn p q r e e') (k, h) =
      let h' : Flags false false p =
        subst (Ends (λ a q. Flags false false q)) e ((start_enabled-Flags ft vfo).at s.port h) in
      let same : record p { joinable = true } ≡ q = cc (start_thread_lem ft p, e') in
      (
        starting,
        refl,
        as_told (subst (Flags true false) same (record { thread = refl; flag = h'.flag })),
      )
  ClientTurn-Settled {s = s} (announce p e) (w, r, h) =
      let same : record s.port { running = true } ≡ p = cc (set_running_lem ft s.port, e) in
      inr (
        w,
        r,
        as_told
            (subst (Flags true true) same (record { thread = ReaderFlags-thread h; flag = refl })),
      )
  ClientTurn-Settled {s = s} (refuse p e) (r, h) =
      inl
        (r, subst (Ends (λ a q. Flags false false q)) e ((start_enabled-Flags ft vfo).at s.port h))
  ClientTurn-Settled {s = s} (round buf out p e) h =
      with_port s p (send_round-SameThread net socket true buf out s.port p e) h
  ClientTurn-Settled {s = s} (last_round buf out p e) h =
      with_port s p (send_round-SameThread net socket false buf out s.port p e) h
  ClientTurn-Settled {s = s} (request p e) h = requested ft s p e h
  ClientTurn-Settled {s = s} (join p r e) h = (refl, joined ft s p e h)
  ClientTurn-Settled {s = s} (no_join p f e) h = unjoined ft s p f e h
  ClientTurn-Settled {s = s} (close p e) (r, h) =
      let q : Port W = iq_clear_read_buf s.port in
      let same : record q { world = net.close_socket socket q.world } ≡ p = cc e in
      subst (λ p. Settled (record s { port = p }) left) same
        ((r, record { thread = h.thread; flag = h.flag }), iq_clear_read_buf-empties s.port)

  MainTurns-Settled :
      (s : System W) (c : Client) (t : System W) (d : Client)
      → Settled s c
      → MainTurns ft net vfo socket s c t d
      → Settled t d
  MainTurns-Settled s c _ _ h no_turn = h
  MainTurns-Settled s c t d h (then_turn {t = u} {d = e} turns (main_turn _ _ _ turn)) =
      ClientTurn-Settled turn (MainTurns-Settled s c u e h turns)
  MainTurns-Settled s c t d h (then_turn {t = u} {d = e} turns (worker_turn _ w w' p r k)) =
      worker_turn-Settled ft u e w w' p r k (MainTurns-Settled s c u e h turns)

module _ {W : Type 0} (numbers : Numbers) (ft : Ftd3xx W) (net : Net W) where
  -- In every state that TCPClient may come to from its start, whatever its options and operands,
  -- whatever the library and the network answer and in whatever order its turns and the reader's come:
  -- before it starts the reader and once it has stopped it there is no reader, no thread to join, and
  -- the port does not say that it runs; inside `iqAsyncStart`, with the thread made, there is a reader,
  -- in a thread that is to be joined; in its loop and up to its request to stop there is none of them, or
  -- there is a reader in a thread that is to be joined, and the port says that it runs unless a failed
  -- read has made the reader turn that off, which is then before its own join; in the join of `main` the
  -- port does not say that it runs; and at its end the ring is empty.
  pub main-Settled :
      (find : List ℕ → W → Option ℕ × W) (options : List (Letter × String)) (operands : List String)
      (w : W) (t : System W) (c : Client)
      → MainRun numbers ft net find options operands w t c
      → Settled t c
  main-Settled find options operands w t c (ran s socket p e turns) =
      let u : Unstarted p =
        client_prepare-Unstarted numbers ft net find options operands false w _ p e in
      MainTurns-Settled ft net s.vfo socket (record { port = p; reader = none }) arrived t c
        (refl, record { thread = u.thread; flag = u.flag }) turns
