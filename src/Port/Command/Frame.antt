-- ===== src/Port/Command/Frame.antt =====
-- A command changes the world of the library, and nothing else of the port.
use ic7610iq.Prelude.{
  ℕ, List, ◌++◌, ltb, leb, ◌==◌, if◌then◌else◌, length, ◌>>=◌, ◌>>◌, pure, require, ◌≡◌, refl, Ends,
  Ends-bind, Ends-if, Ends-access, Ends-require, Outcome,
}
use ic7610iq.Common.{cmd_in, cmd_out, ft_ok}
use ic7610iq.Frame.{iq_frame}
use ic7610iq.Driver.{Ftd3xx}
use ic7610iq.Port.{Port, call}
use ic7610iq.Port.Command.{send_iq_command, read_iq_reply, icom_iq_command, civ_buffer_size}

module _ {W : Type 0} where
  abbrev pub OnlyWorld : {A : Type 0} → Port W → Outcome (Port W) A → Type 0
  OnlyWorld p = Ends (λ a q. (w : W) × (q ≡ record p { world = w }))

module _ {W : Type 0} (ft : Ftd3xx W) where
  send_iq_command-OnlyWorld : (cmd : List ℕ) (p : Port W) → OnlyWorld p (send_iq_command ft cmd p)
  unfolding send_iq_command
  send_iq_command-OnlyWorld cmd p =
      Ends-access (λ a q. (w : W) × (q ≡ record p { world = w })) (iq_frame cmd) _ p
        (λ buf. ((ft.write_pipe cmd_out buf p.world).1, refl))

  read_iq_reply-OnlyWorld : (buffer : List ℕ) (p : Port W) → OnlyWorld p (read_iq_reply ft buffer p)
  unfolding read_iq_reply
  read_iq_reply-OnlyWorld buffer p =
      let ((res, buf), w) = ft.read_pipe cmd_in civ_buffer_size p.world in
      Ends-if (λ a q. (w : W) × (q ≡ record p { world = w })) (res == ft_ok)
        (do
          require (leb (length buf) civ_buffer_size)
          pure (length (buffer ++ buf), buffer ++ buf))
        (do _ ← call (ft.abort_pipe cmd_in); pure (0, buffer)) (record p { world = w })
        (λ _.
          Ends-require (λ a q. (w : W) × (q ≡ record p { world = w }))
            (leb (length buf) civ_buffer_size) (λ _. pure (length (buffer ++ buf), buffer ++ buf))
            (record p { world = w }) (w, refl))
        (λ _. ((ft.abort_pipe cmd_in w).1, refl))

  pub icom_iq_command-OnlyWorld :
      (cmd reply : List ℕ) (p : Port W) → OnlyWorld p (icom_iq_command ft cmd reply p)
  unfolding icom_iq_command
  icom_iq_command-OnlyWorld cmd reply p =
      Ends-bind (λ a q. (w : W) × (q ≡ record p { world = w }))
        (λ a q. (w : W) × (q ≡ record p { world = w })) (send_iq_command ft cmd) _ p
        (send_iq_command-OnlyWorld cmd p)
        (λ res q (w, e). rw e (
          Ends-if (λ a q. (w : W) × (q ≡ record p { world = w })) res
            (do
              (byte_count, reply') ← read_iq_reply ft reply
              pure (if ltb 0 byte_count then length reply' else 0, reply'))
            (pure (0, reply)) (record p { world = w })
            (λ _.
              Ends-bind (λ a q. (w : W) × (q ≡ record p { world = w }))
                (λ a q. (w : W) × (q ≡ record p { world = w })) (read_iq_reply ft reply) _
                (record p { world = w }) (read_iq_reply-OnlyWorld reply (record p { world = w }))
                (λ got q h. h))
            (λ _. (w, refl))))
