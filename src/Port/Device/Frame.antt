-- ===== src/Port/Device/Frame.antt =====
-- The I/Q data switch leaves the ring as it is.
use ic7610iq.Prelude.{
  ℕ, ◌+◌, ◌%◌, true, false, List, [], ◌∷◌, ltb, if◌then◌else◌, M, ◌>>=◌, pure, gets, modify,
  returns, ◌≡◌, refl, Ends, Ends-bind, Ends-if, Outcome,
}
use ic7610iq.Driver.{Ftd3xx}
use ic7610iq.Port.{Port}
use ic7610iq.Port.Command.{icom_iq_command}
use ic7610iq.Port.Command.Frame.{OnlyWorld, icom_iq_command-OnlyWorld}
use ic7610iq.Port.Device.{enable_iq_data, disable_iq_data, abort_pipes, destroy_request}

module _ {W : Type 0} where
  abbrev pub KeepsRing : {A : Type 0} → Port W → Outcome (Port W) A → Type 0
  KeepsRing p = Ends (λ a q. q.iq_buffer ≡ p.iq_buffer)

module _ {W : Type 0} (ft : Ftd3xx W) where
  pub disable_iq_data-KeepsRing : (p : Port W) → KeepsRing p (disable_iq_data ft p)
  unfolding disable_iq_data
  disable_iq_data-KeepsRing p =
      Ends-bind (λ a q. (w : W) × (q ≡ record p { world = w })) (λ a q. q.iq_buffer ≡ p.iq_buffer)
        (icom_iq_command ft (0x1a ∷ 0x0b ∷ 0x00 ∷ []) [])
        (λ (byte_count, _).
          if ltb 0 byte_count then modify (λ p. record p { iq_data_enabled = false }) else pure tt)
        p (icom_iq_command-OnlyWorld ft (0x1a ∷ 0x0b ∷ 0x00 ∷ []) [] p)
        (λ (byte_count, _) q (w, e). rw e (
          Ends-if (λ a q. q.iq_buffer ≡ p.iq_buffer) (ltb 0 byte_count)
            (modify (λ p. record p { iq_data_enabled = false })) (pure tt) (record p { world = w })
            (λ _. refl) (λ _. refl)))

  pub enable_iq_data-KeepsRing :
      (source : ℕ) (p : Port W) → KeepsRing p (enable_iq_data ft source p)
  unfolding enable_iq_data
  enable_iq_data-KeepsRing source p =
      let cmd : List ℕ = 0x1a ∷ 0x0b ∷ (source + 1) % 256 ∷ [] in
      let switch : M (Port W) Unit = (do
        (byte_count, _) ← icom_iq_command ft cmd []
        if ltb 0 byte_count then modify (λ p. record p { iq_data_enabled = true }) else pure tt) in
      Ends-bind (λ a q. q.iq_buffer ≡ p.iq_buffer) (λ a q. q.iq_buffer ≡ p.iq_buffer)
        (if p.iq_data_enabled then pure tt else switch) (λ _. gets λ p. p.iq_data_enabled) p
        (Ends-if (λ a q. q.iq_buffer ≡ p.iq_buffer) p.iq_data_enabled (pure tt) switch p (λ _. refl)
          (λ _.
            Ends-bind (λ a q. (w : W) × (q ≡ record p { world = w }))
              (λ a q. q.iq_buffer ≡ p.iq_buffer) (icom_iq_command ft cmd [])
              (λ (byte_count, _).
                if ltb 0 byte_count
                then modify (λ p. record p { iq_data_enabled = true })
                else pure tt)
              p (icom_iq_command-OnlyWorld ft cmd [] p)
              (λ (byte_count, _) q (w, e). rw e (
                Ends-if (λ a q. q.iq_buffer ≡ p.iq_buffer) (ltb 0 byte_count)
                  (modify (λ p. record p { iq_data_enabled = true })) (pure tt)
                  (record p { world = w }) (λ _. refl) (λ _. refl)))))
        (λ a q e. e)

  -- With the data on, nothing is sent.
  pub enable_iq_data-enabled :
      (source : ℕ) (p : Port W)
      → p.iq_data_enabled ≡ true
      → enable_iq_data ft source p ≡ returns p.iq_data_enabled p
  unfolding enable_iq_data
  enable_iq_data-enabled source p e = rw e refl

  pub destroy_request-OnlyWorld : (p : Port W) → OnlyWorld p (destroy_request ft p)
  unfolding destroy_request abort_pipes
  destroy_request-OnlyWorld p = (_, refl)
