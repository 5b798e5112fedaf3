-- ===== src/Stream/Frames.antt =====
-- What each operation of the stream does to the buffers that are in use.
use ic7610iq.Prelude.{
  ℕ, true, Option, none, some, List, [], ◌∷◌, ◌++◌, Outcome, returns, throws, undefined, ◌>>=◌,
  pure, modify, ◌≡◌, ◌⊎◌, inl, inr, refl, ◌∙◌, ap, Ends, Ends-bind, Ends-if, Ends-access, Ends-any,
  Ends-Runs, Runs, arith,
}
use ic7610iq.Driver.{Ftd3xx}
use ic7610iq.Port.{Port}
use ic7610iq.Port.Device.{enable_iq_data}
use ic7610iq.Pool.{Pool, acquire, release}
use ic7610iq.Pool.Held.{Held, Held-reorder, acquire-Held, release-Held, count, count-cons}
use ic7610iq.Stream.{
  Stream, Write, cs16_write, cf32_write, StreamFormat, interleaved_short, complex_float,
  complex_double, invalid_format, put_port, put_pool, on_port, on_pool, enable_data, initiate_read,
  begin_read, process, process_and_write_cs16, process_and_write_cf32, write_cf32,
}

-- The buffers of a write, and of all that are under way.
unfoldable pub buffers : Write → List ℕ
buffers (cs16_write buffer n) = buffer ∷ []
buffers (cf32_write buf1 buf2 chunks) = buf1 ∷ buf2 ∷ []

unfoldable pub in_writes : List Write → List ℕ
unfolding buffers
in_writes [] = []
in_writes (w ∷ ws) = buffers w ++ in_writes ws

module _ {W : Type 0} where
  put_port-Ends :
      {A : Type 0} (s : Stream W) (o : Outcome (Port W) A)
      → Ends (λ a t. (p : Port W) × (t ≡ record s { port = p })) (put_port s o)
  unfolding put_port
  put_port-Ends s (returns a p) = (p, refl)
  put_port-Ends s (throws e p) = tt
  put_port-Ends s undefined = tt

  -- What `acquire` does to the stream: it changes the pool, and gives the buffer if there is one.
  abbrev pub Got : Stream W → List ℕ → Option ℕ → Stream W → Type 0
  Got s xs none t = Unit
  Got s xs (some b) t =
      (p : Pool) × (t ≡ record s { pool = p })
      × Held p (b ∷ xs)
      × (p.buffer_list ≡ s.pool.buffer_list)

  pub acquire-Got :
      (s : Stream W) (xs : List ℕ) → Held s.pool xs → Ends (Got s xs) (on_pool acquire s)
  unfolding on_pool put_pool
  acquire-Got s xs h = elim (acquire-Held s.pool xs h) [
    | inl (nil, out) ↦ rw out tt
    | inr (b, p, e, held, f, l) ↦ rw e (p, refl, held, l)
  ]

  -- What `release` does to it.
  abbrev pub Gave : Stream W → List ℕ → Stream W → Type 0
  Gave s xs t =
      (p : Pool) × (t ≡ record s { pool = p }) × Held p xs × (p.buffer_list ≡ s.pool.buffer_list)

  pub release-Gave :
      (s : Stream W) (b : ℕ) (xs : List ℕ)
      → Held s.pool (b ∷ xs)
      → Runs (λ a t. Gave s xs t) (on_pool (release (some b)) s)
  unfolding on_pool put_pool
  release-Gave s b xs h =
      let (p, e, held, f, l) = release-Held s.pool b xs h in rw e (p, refl, held, l)

  -- What starting a read does to the rest of the stream: it gets one more buffer.
  abbrev pub Reads : Stream W → List ℕ → Stream W → Type 0
  Reads s xs t =
      (b : ℕ) × (t.overlapped_buffer ≡ some b)
      × Held t.pool (b ∷ xs)
      × (t.pool.buffer_list ≡ s.pool.buffer_list)
      × (t.writes ≡ s.writes)
      × (t.out_type ≡ s.out_type)

module _ {W : Type 0} (ft : Ftd3xx W) where
  pub enable_data-Ends :
      (s : Stream W) → Ends (λ a t. (p : Port W) × (t ≡ record s { port = p })) (enable_data ft s)
  unfolding enable_data on_port
  enable_data-Ends s =
      Ends-if _ s.port.iq_data_enabled _ _ s (λ t. (s.port, refl))
        (λ f.
          Ends-bind _ _ (on_port (enable_iq_data ft s.vfo)) (λ b. pure tt) s
            (put_port-Ends s (enable_iq_data ft s.vfo s.port)) (λ a s' h. h))

  begin_read-Reads :
      (s : Stream W) (xs : List ℕ) (buffer : Option ℕ) (t : Stream W)
      → Got s xs buffer t
      → Ends (λ a t. Reads s xs t) (begin_read ft buffer t)
  unfolding begin_read
  begin_read-Reads s xs none t g = tt
  begin_read-Reads s xs (some b) t (p, e, held, l) = rw e (
      Ends-if (λ a t. Reads s xs t) _ (modify (λ s. record s { is_waiting = true })) (pure tt) _
        (λ t. (b, refl, held, l, refl, refl)) (λ f. (b, refl, held, l, refl, refl)))

  pub initiate_read-Reads :
      (s : Stream W) (xs : List ℕ)
      → Held s.pool xs
      → Ends (λ a t. Reads s xs t) (initiate_read ft s)
  unfolding initiate_read
  initiate_read-Reads s xs h =
      Ends-bind (λ a t. (p : Port W) × (t ≡ record s { port = p })) _ (enable_data ft) _ s
        (enable_data-Ends s)
        (λ a t e. rw e.1 (
          Ends-bind (Got (record s { port = e.0 }) xs) _ (on_pool acquire) (begin_read ft)
            (record s { port = e.0 }) (acquire-Got _ xs h)
            (λ b u g. begin_read-Reads (record s { port = e.0 }) xs b u g)))

swap_third : (q a b c : ℕ) (xs : List ℕ) → count q (a ∷ b ∷ c ∷ xs) ≡ count q (c ∷ b ∷ a ∷ xs)
swap_third q a b c xs = omega (
  arith,
  count-cons q a (b ∷ c ∷ xs),
  count-cons q b (c ∷ xs),
  count-cons q c xs,
  count-cons q c (b ∷ a ∷ xs),
  count-cons q b (a ∷ xs),
  count-cons q a xs,
)

module _ {W : Type 0} where
  -- What handing a full buffer to its write does: the buffers of the new write take its place.
  abbrev pub Handed : Stream W → Stream W → Type 0
  Handed s t =
      Held t.pool (in_writes t.writes)
      × (t.pool.buffer_list ≡ s.pool.buffer_list)
      × (t.out_type ≡ s.out_type)

  write_cf32-Handed :
      (s t : Stream W) (buffer raw1 : ℕ) (second : Option ℕ) (u : Stream W)
      → Got s (buffer ∷ in_writes s.writes) (some raw1) t
      → Got t (raw1 ∷ buffer ∷ in_writes s.writes) second u
      → Ends (λ a t. Handed s t) (write_cf32 buffer (some raw1) second u)
  unfolding write_cf32 in_writes buffers
  write_cf32-Handed s t buffer raw1 none u g g' = tt
  write_cf32-Handed s t buffer raw1 (some raw2) u (p, e, h, l) (p', e', h', l') =
      let out : Stream W = record s { pool = p' } in
      rw (e', e)
        (Ends-access (λ a t. Handed s t) (p'.cells raw1) _ out
          (λ buf1.
            Ends-access (λ a t. Handed s t) (p'.cells raw2) _ out
              (λ buf2.
                Ends-bind (λ a v. Gave out (raw1 ∷ raw2 ∷ in_writes s.writes) v) (λ a t. Handed s t)
                  (on_pool (release (some buffer)))
                  (λ _. modify λ s. record s {
                    writes =
                        cf32_write raw1 raw2 ((raw1, buf1.size) ∷ (raw1, buf2.size) ∷ [])
                        ∷ s.writes;
                  })
                  out
                  (Ends-Runs (λ a v. Gave out (raw1 ∷ raw2 ∷ in_writes s.writes) v) _
                    (release-Gave out buffer (raw1 ∷ raw2 ∷ in_writes s.writes)
                      (Held-reorder p' _ _ (λ q. swap_third q raw2 raw1 buffer _) refl h')))
                  (λ a v (q, e'', h'', l'').
                    rw e'' (h'', l'' ∙ (l' ∙ (ap (λ k. k.pool.buffer_list) e ∙ l)), refl)))))

  second_buffer-Handed :
      (s : Stream W) (buffer : ℕ) (first : Option ℕ) (t : Stream W)
      → Got s (buffer ∷ in_writes s.writes) first t
      → Ends (λ a t. Handed s t) ((do second ← on_pool acquire; write_cf32 buffer first second) t)
  unfolding write_cf32
  second_buffer-Handed s buffer none t g =
      Ends-bind (λ a t. Unit {0}) (λ a t. Handed s t) (on_pool acquire) (write_cf32 buffer none) t
        (Ends-any _) (λ second u _. tt)
  second_buffer-Handed s buffer (some raw1) t (p, e, h, l) =
      let xs : List ℕ = raw1 ∷ buffer ∷ in_writes s.writes in
      Ends-bind (Got t xs) (λ a t. Handed s t) (on_pool acquire) (write_cf32 buffer (some raw1)) t
        (acquire-Got t xs (rw e h))
        (λ second u g. write_cf32-Handed s t buffer raw1 second u (p, e, h, l) g)

  process_cf32-Handed :
      (s : Stream W) (buffer n : ℕ)
      → Held s.pool (buffer ∷ in_writes s.writes)
      → Ends (λ a t. Handed s t) (process_and_write_cf32 buffer n s)
  unfolding process_and_write_cf32
  process_cf32-Handed s buffer n h =
      Ends-bind (Got s (buffer ∷ in_writes s.writes)) (λ a t. Handed s t) (on_pool acquire)
        (λ first. do second ← on_pool acquire; write_cf32 buffer first second) s (acquire-Got s _ h)
        (second_buffer-Handed s buffer)

  pub process-Handed :
      (s : Stream W) (format : StreamFormat) (buffer n : ℕ)
      → (format ≡ interleaved_short) ⊎ (format ≡ complex_float)
      → Held s.pool (buffer ∷ in_writes s.writes)
      → Ends (λ a t. Handed s t) (process format buffer n s)
  unfolding process process_and_write_cs16 in_writes buffers
  process-Handed s interleaved_short buffer n k h = (h, refl, refl)
  process-Handed s complex_float buffer n k h = process_cf32-Handed s buffer n h
  process-Handed s complex_double buffer n k h = absurd (ground (arith, k))
  process-Handed s invalid_format buffer n k h = absurd (ground (arith, k))
