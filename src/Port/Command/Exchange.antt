-- ===== src/Port/Command/Exchange.antt =====
-- One exchange with the radio: what `icomIQCommand` comes to when the library does what it documents.
use ic7610iq.Prelude.{
  ℕ, ◌≤◌, ◌≡◌, refl, sym, ap, subst, inl, inr, Bool, true, some, List, [], ◌∷◌, ltb, ◌==◌,
  Bool-cases, ==_iff, le→leb, lt→ltb, suc, ◌>>=◌, if◌then◌else◌, length, Outcome, returns, arith,
}
use ic7610iq.Common.{cmd_in, cmd_out, ft_ok}
use ic7610iq.Frame.{iq_frame}
use ic7610iq.Frame.Laws.{iq_frame_lem}
use ic7610iq.Driver.{Ftd3xx}
use ic7610iq.Port.{Port}
use ic7610iq.Port.Command.{send_iq_command, read_iq_reply, icom_iq_command}

-- The library and the radio take `cmd` in the world `w`, and `reply` comes back.
pub record Answers {W : Type 0} (ft : Ftd3xx W) (cmd reply : List ℕ) (w w' : W) : Type 0 where
  pub frame : List ℕ
  pub sent_world : W
  pub framed : iq_frame cmd ≡ some frame
  pub sent : ft.write_pipe cmd_out frame w ≡ ((ft_ok, length frame), sent_world)
  pub received : ft.read_pipe cmd_in 256 sent_world ≡ ((ft_ok, reply), w')
  pub fits : length reply ≤ 256

-- A read stores no more bytes than were asked for.
abbrev pub Bounded : {W : Type 0} → Ftd3xx W → Type 0
Bounded {W} ft = (pipe size : ℕ) (w : W) → length ((ft.read_pipe pipe size w).0.1) ≤ size

module _ {W : Type 0} (ft : Ftd3xx W) where
  ==_refl : (n : ℕ) → (n == n) ≡ true
  ==_refl n = (==_iff n n).1 refl

  send_iq_command-sent :
      (cmd frame : List ℕ) (p : Port W) (w' : W)
      → iq_frame cmd ≡ some frame
      → ft.write_pipe cmd_out frame p.world ≡ ((ft_ok, length frame), w')
      → send_iq_command ft cmd p ≡ returns true (record p { world = w' })
  unfolding send_iq_command
  send_iq_command-sent cmd frame p w' e s = rw (e, s, ==_refl (length frame)) refl

  read_iq_reply-received :
      (reply : List ℕ) (p : Port W) (w' : W)
      → ft.read_pipe cmd_in 256 p.world ≡ ((ft_ok, reply), w')
      → length reply ≤ 256
      → read_iq_reply ft [] p ≡ returns (length reply, reply) (record p { world = w' })
  unfolding read_iq_reply
  read_iq_reply-received reply p w' e h = rw (e, le→leb _ _ h) refl

  all_or_nothing :
      (reply : List ℕ) (p : Port W)
      → ◌≡◌ {A = Outcome (Port W) (ℕ × List ℕ)}
          (returns (if ltb 0 (length reply) then length reply else 0, reply) p)
          (returns (length reply, reply) p)
  all_or_nothing [] p = refl
  all_or_nothing (b ∷ bs) p = rw (lt→ltb 0 (suc (length bs)) (omega arith)) refl

  -- When the library takes the command and the radio's reply comes back, the caller gets the reply
  -- and its length, and of the port only the world changes.
  pub icom_iq_command-Answers :
      (cmd reply : List ℕ) (p : Port W) (w' : W)
      → Answers ft cmd reply p.world w'
      → icom_iq_command ft cmd [] p ≡ returns (length reply, reply) (record p { world = w' })
  unfolding icom_iq_command
  icom_iq_command-Answers cmd reply p w' a =
      rw (send_iq_command-sent cmd a.frame p a.sent_world a.framed a.sent, icom_iq_command, ◌>>=◌)
        (rw
          (
            read_iq_reply-received reply (record p { world = a.sent_world }) w' a.received a.fits,
            icom_iq_command,
            ◌>>=◌,
          )
          (all_or_nothing reply (record p { world = w' })))

  send_iq_command-returns :
      (cmd : List ℕ) (p : Port W)
      → length cmd ≤ 27
      → (b : Bool) × (w' : W) × (send_iq_command ft cmd p ≡ returns b (record p { world = w' }))
  unfolding send_iq_command
  send_iq_command-returns cmd p short = elim (iq_frame_lem cmd) [
    | inl (_, e, _, _) ↦ rw e (_, _, refl)
    | inr (long, _) ↦ absurd (omega arith)
  ]

  read_iq_reply-returns :
      Bounded ft
      → (p : Port W)
      → (reply : List ℕ) × (w' : W) × (read_iq_reply ft [] p
          ≡ returns (length reply, reply) (record p { world = w' }))
  unfolding read_iq_reply
  read_iq_reply-returns bounded p =
      let answer = ft.read_pipe cmd_in 256 p.world in
      elim (Bool-cases (answer.0.0 == ft_ok)) [
        | inl t ↦ (answer.0.1, answer.1, rw (t, le→leb _ _ (bounded cmd_in 256 p.world)) refl)
        | inr f ↦ ([], (ft.abort_pipe cmd_in answer.1).1, rw f refl)
      ]

  -- When no read stores more bytes than were asked for, a command of at most 27 bytes always
  -- returns, with some reply and the reply's length. Of the port only the world changes.
  pub icom_iq_command-returns :
      Bounded ft
      → (cmd : List ℕ) (p : Port W) → length cmd ≤ 27
      → (reply : List ℕ) × (w' : W) × (icom_iq_command ft cmd [] p
          ≡ returns (length reply, reply) (record p { world = w' }))
  unfolding icom_iq_command
  icom_iq_command-returns bounded cmd p short =
      let (sent, w, e) = send_iq_command-returns cmd p short in
      elim (Bool-cases sent) [
        | inl t ↦
            let (reply, w', e') = read_iq_reply-returns bounded (record p { world = w }) in
            (reply, w', rw (e, t, ◌>>=◌) (rw (e', ◌>>=◌) (all_or_nothing reply _)))
        | inr f ↦ ([], w, rw (e, f, ◌>>=◌) refl)
      ]

-- What holds of an open port holds of a port with `_isOpen` set.
pub when_open :
    {W : Type 0} (P : Port W → Type 0) (p : Port W)
    → p.is_open ≡ true
    → P (record p { is_open = true })
    → P p
when_open P p o t = subst P (sym (ap (λ b. record p { is_open = b }) o)) t
