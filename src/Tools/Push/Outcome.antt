-- ===== src/Tools/Push/Outcome.antt =====
-- What zmqPush (Tools/IC7610zmqPush.cpp) comes to in every order of its turns and the reader's.
use ic7610iq.Prelude.{
  ℕ, Option, some, sym, ◌*◌, false, none, List, String, length, length-replicate, pos, ◌≡◌, inl,
  inr, refl, subst, arith,
}
use ic7610iq.Common.{bytes_per_sample}
use ic7610iq.Driver.{Ftd3xx}
use ic7610iq.Ring.{runs}
use ic7610iq.Ring.Inv.{IsValid}
use ic7610iq.Port.{Port, new_port}
use ic7610iq.Port.Unstarted.{Unstarted}
use ic7610iq.Port.Async.System.{
  System, Turns, no_turn, then_turn, spawn_turn, running_turn, refused_turn, read_turn, world_turn,
  reader_turn, Turns-SoundSystem, Turns-append,
}
use ic7610iq.Tools.{Letter, Numbers, prepared}
use ic7610iq.Tools.Net.{num_samples}
use ic7610iq.Tools.Programs.Fresh.{push_prepare-Unstarted}
use ic7610iq.Tools.Push.{Counters, push_read, push_send}
use ic7610iq.Tools.Push.Typed.{TypeName, push_prepare-TypeName}
use ic7610iq.Tools.Push.Rounds.{
  Counted, ReadOutcome, SendOutcome, one_more, push_read-ReadOutcome, push_send-SendOutcome,
}
use ic7610iq.Tools.Push.Program
use ic7610iq.Tools.Push.Program.{
  Pusher, set_up, spawned, pushing, sending, ended, PushTurn, PushTurns, PushRun, ran,
}

-- The loop has a buffer of 1024 samples and has counted its rounds; it has not ended.
abbrev PusherSound : Pusher → Type 0
PusherSound set_up = Unit
PusherSound spawned = Unit
PusherSound (pushing buf c) = (length buf ≡ num_samples * bytes_per_sample) × Counted c
PusherSound (sending buf n c) =
    (length buf ≡ num_samples * bytes_per_sample) × (n ≡ num_samples) × Counted c
PusherSound ended = ⊥

-- What the next call of the loop comes to, and that the loop has not ended.
abbrev pub PushOutcome : {W : Type 0} → (List ℕ → W → Option W) → String → Port W → Pusher → Type 0
PushOutcome send data_type p set_up = Unit
PushOutcome send data_type p spawned = Unit
PushOutcome send data_type p (pushing buf c) = ReadOutcome buf p
PushOutcome send data_type p (sending buf n c) =
    (n ≡ num_samples) × SendOutcome send data_type buf c p
PushOutcome send data_type p ended = ⊥

module _ {W : Type 0} (ft : Ftd3xx W) (send : List ℕ → W → Option W) (data_type : String)
    (vfo : ℕ) where
  read_round-Turns :
      (s : System W) (buf out : List ℕ) (n : ℕ) (c : Counters) (p : Port W)
      → length buf ≡ num_samples * bytes_per_sample
      → Counted c
      → push_read buf s.port ≡ runs (some n, out, p)
      → ReadOutcome buf s.port
      → Turns ft s (record s { port = p }) × PusherSound (sending out n c)
  read_round-Turns s buf out n c p size k e (inl (few, waits)) = absurd (cc (e, waits))
  read_round-Turns s buf out n c p size k e (inr (h, out', q, e', long, went)) =
      let same : out' ≡ out = cc (e, went) in
      let number : num_samples ≡ n = cc (e, went) in
      let port : q ≡ p = cc (e, went) in
      (
        subst (λ r. Turns ft s (record s { port = r })) port
            (then_turn no_turn
              (read_turn s buf out' num_samples (pos num_samples) q (omega (arith, size)) e')),
        (subst (λ o. length o ≡ num_samples * bytes_per_sample) same long, sym number, k),
      )

  never_last :
      (s : System W) (buf out : List ℕ) (p : Port W)
      → push_read buf s.port ≡ runs (none, out, p)
      → ¬ ReadOutcome buf s.port
  never_last s buf out p e (inl (few, waits)) = cc (e, waits)
  never_last s buf out p e (inr (h, out', q, e', long, went)) = cc (e, went)

  sent_round-Turns :
      (s : System W) (buf : List ℕ) (c c' : Counters) (p : Port W)
      → length buf ≡ num_samples * bytes_per_sample
      → Counted c
      → push_send send data_type buf num_samples c s.port ≡ runs (c', p)
      → SendOutcome send data_type buf c s.port
      → Turns ft s (record s { port = p }) × PusherSound (pushing buf c')
  sent_round-Turns s buf c c' p size k e (inl (t, fault)) = absurd (cc (e, fault))
  sent_round-Turns s buf c c' p size k e (inr (t, inl (o, waits))) = absurd (cc (e, waits))
  sent_round-Turns s buf c c' p size k e (inr (t, inr (w, o, inr (h, fault)))) =
      absurd (cc (e, fault))
  sent_round-Turns s buf c c' p size k e (inr (t, inr (w, o, inl (h, went)))) =
      let counters : one_more c ≡ c' = cc (e, went) in
      let port : record s.port { world = w } ≡ p = cc (e, went) in
      (
        subst (λ r. Turns ft s (record s { port = r })) port (then_turn no_turn (world_turn s w)),
        (size, subst Counted counters (omega (arith, k))),
      )

  PushTurn-Turns :
      {t : System W} {d d' : Pusher} (s : System W)
      → TypeName data_type
      → IsValid s.port.iq_buffer
      → PusherSound d
      → PushTurn ft send data_type vfo s d t d'
      → Turns ft s t × PusherSound d'
  PushTurn-Turns s n v z (Program.spawn p q r e e') =
      (then_turn no_turn (spawn_turn s vfo p q r e e'), tt)
  PushTurn-Turns s n v z (Program.announce p e) =
      (then_turn no_turn (running_turn s p e), (length-replicate {A = ℕ} _ 0, refl))
  PushTurn-Turns s n v z (Program.refuse p e) =
      (then_turn no_turn (refused_turn s vfo p e), (length-replicate {A = ℕ} _ 0, refl))
  PushTurn-Turns s n v z (Program.read_round buf out m c p e) =
      read_round-Turns s buf out m c p z.0 z.1 e (push_read-ReadOutcome buf s.port v z.0)
  PushTurn-Turns s n v z (Program.last_round buf out c p e) =
      absurd (never_last s buf out p e (push_read-ReadOutcome buf s.port v z.0))
  PushTurn-Turns s n v z (Program.sent_round buf m c c' p e) =
      sent_round-Turns s buf c c' p z.0 z.2
        (subst (λ m. push_send send data_type buf m c s.port ≡ runs (c', p)) z.1 e)
        (push_send-SendOutcome send data_type buf c s.port z.0 z.2 n)
  PushTurn-Turns s n v z (Program.worker_turn d w w' p r e) =
      (then_turn no_turn (reader_turn s w w' p r e), z)

  PushTurns-Turns :
      (s t : System W) (d : Pusher)
      → TypeName data_type
      → IsValid s.port.iq_buffer
      → s.reader ≡ none
      → PushTurns ft send data_type vfo s set_up t d
      → Turns ft s t × PusherSound d
  PushTurns-Turns s _ _ n v r Program.no_turn = (no_turn, tt)
  PushTurns-Turns s t d n v r (Program.then_turn {t = u} {e = e} turns turn) =
      let (q, z) = PushTurns-Turns s u e n v r turns in
      let (q', z') = PushTurn-Turns u n (Turns-SoundSystem ft s u v r q).0 z turn in
      (Turns-append ft q q', z')

module _ {W : Type 0} (send : List ℕ → W → Option W) (data_type : String) where
  outcome :
      (p : Port W) (d : Pusher)
      → TypeName data_type
      → IsValid p.iq_buffer
      → PusherSound d
      → PushOutcome send data_type p d
  outcome p set_up t v z = tt
  outcome p spawned t v z = tt
  outcome p (pushing buf c) t v (size, k) = push_read-ReadOutcome buf p v size
  outcome p (sending buf n c) t v (size, m, k) =
      (m, push_send-SendOutcome send data_type buf c p size k t)
  outcome p ended t v z = z

module _ {W : Type 0} (numbers : Numbers) (ft : Ftd3xx W) (send : List ℕ → W → Option W) where
  -- In every state that zmqPush may come to from its start, whatever its options, whatever the library
  -- answers, whether or not its sends return and in whatever order its turns and the reader's come, its
  -- loop has not ended. At the head of it the read waits while fewer than 1024 samples are unread, else
  -- it takes 1024. Behind the read, with the type CF32 or CF64 the program is undefined before it sends;
  -- with CS16 it sends its whole buffer once, and if the send returns it counts and goes on after
  -- fewer than 2 ^ 21 - 1 rounds, and is undefined after 2 ^ 21 - 1 rounds or more.
  pub push-outcome :
      (options : List (Letter × String)) (w : W) (data_type : String) (t : System W) (d : Pusher)
      → PushRun numbers ft send options w data_type t d
      → PushOutcome send data_type t.port d
  push-outcome options w data_type t d (ran s p e named turns) =
      let u : Unstarted p = push_prepare-Unstarted numbers ft options false w (prepared s) p e in
      let n : TypeName data_type =
        subst TypeName named (push_prepare-TypeName numbers ft options s (new_port false w) p e) in
      let start : System W = record { port = p; reader = none } in
      let (q, z) = PushTurns-Turns ft send data_type s.vfo start t d n u.ring refl turns in
      outcome send data_type t.port d n (Turns-SoundSystem ft start t u.ring refl q).0 z
