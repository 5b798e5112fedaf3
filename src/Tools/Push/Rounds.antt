-- ===== src/Tools/Push/Rounds.antt =====
-- What a round of the loop of zmqPush comes to, in every case.
use ic7610iq.Prelude.{
  ℕ, ◌+◌, ◌*◌, ◌≤◌, ◌<◌, ◌≡◌, ◌⊎◌, inl, inr, refl, ◌∙◌, ap, none, some, Option, List, String, ltb,
  leb, ltb→lt, not_ltb→le, leb→le, not_leb→lt, Bool-cases, length, replicate, length-replicate,
  memcpy_all, pos, arith,
}
use ic7610iq.Common.{bytes_per_sample}
use ic7610iq.Ring.{blocks, faults, runs, available_data}
use ic7610iq.Ring.Inv.{IsValid}
use ic7610iq.Port.{Port}
use ic7610iq.Port.Data.{iq_read_buf}
use ic7610iq.Port.Data.Reads.{iq_read_buf-takes, iq_read_buf-blocks}
use ic7610iq.Tools.Net.{num_samples}
use ic7610iq.Tools.Push.{
  multiplier, message, Counters, count_round, send_message, push_read, push_send,
}
use ic7610iq.Tools.Push.Laws.{push_send-faults}
use ic7610iq.Tools.Push.Typed.{TypeName}

-- The counters of so many rounds, each of 1024 samples.
abbrev pub Counted : Counters → Type 0
Counted c = c.total_samples ≡ c.loop_count * num_samples

-- The rounds after which the samples no longer fit in an `int`.
abbrev pub last_loop : ℕ
last_loop = 2097151

-- A message of as many bytes as the buffer has is the buffer.
message-whole :
    (buf : List ℕ)
    → length buf ≡ num_samples * bytes_per_sample
    → message bytes_per_sample buf ≡ some buf
unfolding message
message-whole buf e =
    memcpy_all (replicate (num_samples * bytes_per_sample) 0) buf (num_samples * bytes_per_sample)
      (length-replicate {A = ℕ} (num_samples * bytes_per_sample) 0) e

count_round-some :
    (c : Counters)
    → Counted c
    → c.loop_count < last_loop
    → count_round num_samples c
      ≡ some
          (record { total_samples = c.total_samples + num_samples; loop_count = c.loop_count + 1 })
unfolding count_round
count_round-some c k h = ground arith

count_round-none :
    (c : Counters) → Counted c → last_loop ≤ c.loop_count → count_round num_samples c ≡ none
unfolding count_round
count_round-none c k h = ground arith

-- The counters after one more round.
abbrev pub one_more : Counters → Counters
one_more c = record { total_samples = c.total_samples + num_samples; loop_count = c.loop_count + 1 }

module _ {W : Type 0} where
  -- The read of a round waits for 1024 unread samples, and then takes so many.
  abbrev pub ReadOutcome : List ℕ → Port W → Type 0
  ReadOutcome buf p =
      ((available_data p.iq_buffer < num_samples) × (push_read buf p ≡ blocks))
      ⊎ ((num_samples ≤ available_data p.iq_buffer)
          × (out : List ℕ) × (q : Port W) × (iq_read_buf buf num_samples p
              ≡ runs (out, pos num_samples, q))
          × (length out ≡ num_samples * bytes_per_sample)
          × (push_read buf p ≡ runs (some num_samples, out, q)))

  pub push_read-ReadOutcome :
      (buf : List ℕ) (p : Port W)
      → IsValid p.iq_buffer
      → length buf ≡ num_samples * bytes_per_sample
      → ReadOutcome buf p
  unfolding push_read
  push_read-ReadOutcome buf p v size =
      elim (Bool-cases (leb num_samples (available_data p.iq_buffer))) [
        | inl h ↦
            let (out, r, e, v', left, copied) =
              iq_read_buf-takes buf num_samples p v (leb→le _ _ h) (omega (arith, size)) in
            let long : length out ≡ num_samples * bytes_per_sample = elim copied [
              | inl (h, same) ↦ ap length same ∙ size
              | inr (h, l, t) ↦ l ∙ size
            ] in
            inr (leb→le _ _ h, out, record p { iq_buffer = r }, e, long, rw (e, push_read) refl)
        | inr h ↦
            let few : available_data p.iq_buffer < num_samples = not_leb→lt _ _ h in
            inl (few, rw (iq_read_buf-blocks buf num_samples p few, push_read) refl)
      ]

module _ {W : Type 0} (send : List ℕ → W → Option W) (data_type : String) where
  -- The rest of it, with 1024 samples: with the type CF32 or CF64 it is undefined; with CS16 the
  -- buffer is sent as it is, once, and if the send returns the samples are counted, or their number
  -- overflows.
  abbrev pub SendOutcome : List ℕ → Counters → Port W → Type 0
  SendOutcome buf c p =
      (((data_type ≡ "CF32") ⊎ (data_type ≡ "CF64"))
        × (push_send send data_type buf num_samples c p ≡ faults))
      ⊎ ((data_type ≡ "CS16")
          × (((send buf p.world ≡ none) × (push_send send data_type buf num_samples c p ≡ blocks))
              ⊎ ((w : W) × (send buf p.world ≡ some w)
                  × (((c.loop_count < last_loop)
                        × (push_send send data_type buf num_samples c p
                            ≡ runs (one_more c, record p { world = w })))
                      ⊎ ((last_loop ≤ c.loop_count)
                          × (push_send send data_type buf num_samples c p ≡ faults))))))

  module _ (buf : List ℕ) (c : Counters) (p : Port W)
      (size : length buf ≡ num_samples * bytes_per_sample) (k : Counted c) where
    -- With CS16 the message is the buffer.
    native :
        data_type ≡ "CS16"
        → push_send send data_type buf num_samples c p
          ≡ send_message send buf (count_round num_samples c) p
    unfolding push_send multiplier
    native t = rw t (rw (message-whole buf size, push_send) refl)

    counted :
        (w : W)
        → data_type ≡ "CS16"
        → send buf p.world ≡ some w
        → ((c.loop_count < last_loop)
            × (push_send send data_type buf num_samples c p
                ≡ runs (one_more c, record p { world = w })))
          ⊎ ((last_loop ≤ c.loop_count) × (push_send send data_type buf num_samples c p ≡ faults))
    unfolding send_message
    counted w t e = elim (Bool-cases (ltb c.loop_count last_loop)) [
      | inl f ↦
          let h : c.loop_count < last_loop = ltb→lt _ _ f in
          inl (h, native t ∙ rw (e, send_message) (rw (count_round-some c k h, send_message) refl))
      | inr f ↦
          let h : last_loop ≤ c.loop_count = not_ltb→le _ _ f in
          inr (h, native t ∙ rw (e, send_message) (rw (count_round-none c k h, send_message) refl))
    ]

    sent : (o : Option W) → data_type ≡ "CS16" → send buf p.world ≡ o → SendOutcome buf c p
    unfolding send_message
    sent none t e = inr (t, inl (e, native t ∙ rw (e, send_message) refl))
    sent (some w) t e = inr (t, inr (w, e, counted w t e))

    pub push_send-SendOutcome : TypeName data_type → SendOutcome buf c p
    push_send-SendOutcome (inl t) = sent (send buf p.world) t refl
    push_send-SendOutcome (inr t) =
        inl (t, push_send-faults send data_type buf num_samples c p t size)
