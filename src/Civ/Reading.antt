-- ===== src/Civ/Reading.antt =====
-- `readCIVReply` reads one message and stops behind it.
use ic7610iq.Prelude.{
  ℕ, zero, suc, ◌+◌, ◌<◌, ◌≤◌, ◌≡◌, ◌≢◌, ap, ap₂, ◌∙◌, ℤ, pos, false, List, [], ◌∷◌, ◌++◌, ◌==◌,
  append_assoc, length, Outcome, returns, All, arith,
}
use ic7610iq.Common.{civ_eom}
use ic7610iq.Civ.{SerialPort, CivPort, read_bytes, read_civ_reply}

-- The port delivers these bytes, one to a read, between two worlds.
pub data Delivers {W : Type 0} (sp : SerialPort W) : List ℕ → W → W → Type 0 where
  nothing : {w : W} → Delivers sp [] w w
  byte :
      {b : ℕ} {bs : List ℕ} {w w' w'' : W}
      → sp.blocking_read 500 w ≡ ((pos 1, b), w')
      → Delivers sp bs w' w''
      → Delivers sp (b ∷ bs) w w''

module _ {W : Type 0} (sp : SerialPort W) where
  got_eom :
      (n : ℕ) (buffer : List ℕ) (p : CivPort W)
      → ◌≡◌ {A = Outcome (CivPort W) (ℤ × List ℕ)}
          (returns (pos (n + 1), buffer ++ (civ_eom ∷ [])) p)
          (returns (pos (n + 0 + 1), buffer ++ (civ_eom ∷ [])) p)
  got_eom n buffer p = ap (λ k. returns (pos k, buffer ++ (civ_eom ∷ [])) p) (omega arith)

  shifted :
      (n k : ℕ) (buffer : List ℕ) (b : ℕ) (bs : List ℕ) (p : CivPort W)
      → ◌≡◌ {A = Outcome (CivPort W) (ℤ × List ℕ)}
          (returns (pos (n + 1 + k + 1), (buffer ++ (b ∷ [])) ++ bs) p)
          (returns (pos (n + suc k + 1), buffer ++ (b ∷ bs)) p)
  shifted n k buffer b bs p =
      ap₂ (λ i l. returns (pos i, l) p) (omega arith) (append_assoc buffer (b ∷ []) bs)

  read_bytes-Delivers :
      (rounds n : ℕ) (buffer message : List ℕ) (p : CivPort W) (w' : W)
      → length message < rounds
      → All (λ b. b ≢ civ_eom) message
      → Delivers sp (message ++ (civ_eom ∷ [])) p.world w'
      → read_bytes sp rounds n buffer p
        ≡ returns
            (pos (n + length message + 1), buffer ++ (message ++ (civ_eom ∷ [])))
            (record p { world = w' })
  unfolding read_bytes
  read_bytes-Delivers zero n buffer message p w' l h d = absurd (omega arith)
  read_bytes-Delivers (suc rounds) n buffer [] p w' l h (byte e nothing) =
      rw (e) (rw (e) (got_eom n buffer (record p { world = w' })))
  read_bytes-Delivers (suc rounds) n buffer (b ∷ bs) p w' l h (byte {w' = w1} e d) =
      let other : (b == civ_eom) ≡ false = ground (arith, h.0) in
      rw (e) (
        rw (e, other)
          (read_bytes-Delivers rounds (n + 1) (buffer ++ (b ∷ [])) bs (record p { world = w1 }) w'
              (omega arith) h.1 d
            ∙ shifted n (length bs) buffer b (bs ++ (civ_eom ∷ [])) (record p { world = w' })))

  -- When the radio's message of at most 126 bytes arrives with an end of message behind it and none
  -- in it, `readCIVReply` returns exactly that message and reads nothing more.
  pub read_civ_reply-Delivers :
      (message : List ℕ) (p : CivPort W) (w' : W)
      → length message ≤ 126
      → All (λ b. b ≢ civ_eom) message
      → Delivers sp (message ++ (civ_eom ∷ [])) p.world w'
      → read_civ_reply sp [] p
        ≡ returns (pos (length message + 1), message ++ (civ_eom ∷ [])) (record p { world = w' })
  unfolding read_civ_reply
  read_civ_reply-Delivers message p w' l h d =
      read_bytes-Delivers 127 0 [] message p w' (omega arith) h d
      ∙ ap (λ k. returns (pos k, message ++ (civ_eom ∷ [])) (record p { world = w' })) (omega arith)
