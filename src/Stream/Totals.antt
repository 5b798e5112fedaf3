-- ===== src/Stream/Totals.antt =====
-- What `getReadTotal` and `getWriteTotal` count, in the formats that are written as they are read.
use ic7610iq.Prelude.{
  ℕ, ◌+◌, ◌%◌, ◌^◌, Bool, true, false, Option, none, some, List, [], ◌∷◌, ◌++◌, leb, ◌==◌, length,
  Outcome, returns, throws, undefined, ◌>>=◌, ◌>>◌, pure, modify, ◌≡◌, refl, sym, ◌∙◌, ap, subst,
  Ends, Ends-bind, Ends-if, Ends-access, Ends-require, Ends-weaken, arith,
}
use ic7610iq.Common.{ft_ok}
use ic7610iq.Driver.{Ftd3xx}
use ic7610iq.Port.{Port}
use ic7610iq.Pool.{Pool, acquire, release}
use ic7610iq.Stream.{
  Stream, Write, cs16_write, cf32_write, interleaved_short, put_pool, on_pool, enable_data,
  begin_read, initiate_read, process, process_and_write_cs16, hand_over, handle_read_complete,
  read_complete, write_complete, handle_write_cs16_complete, start, get_read_total,
  stream_buffer_size,
}
use ic7610iq.Stream.Frames.{enable_data-Ends}

-- The bytes of the writes under way, of those that count.
abbrev pub pending : List Write → ℕ
pending [] = 0
pending (cs16_write buffer n ∷ ws) = n + pending ws
pending (cf32_write buf1 buf2 chunks ∷ ws) = pending ws

pending-cs16 :
    (before after : List Write) (buffer n : ℕ)
    → pending (before ++ (cs16_write buffer n ∷ after)) ≡ n + pending (before ++ after)
pending-cs16 [] after buffer n = refl
pending-cs16 (cs16_write b m ∷ before) after buffer n =
    omega (arith, pending-cs16 before after buffer n)
pending-cs16 (cf32_write b1 b2 chunks ∷ before) after buffer n = pending-cs16 before after buffer n

-- What has been read is what has been written, what is being written, and what was lost.
abbrev pub Counted : {W : Type 0} → ℕ → Stream W → Type 0
Counted lost s =
    (s.out_type ≡ interleaved_short)
    × (s.total_read ≡ (s.total_write + pending s.writes + lost) % 2 ^ 64)

module _ {W : Type 0} where
  abbrev SameTotals : Stream W → Stream W → Type 0
  SameTotals s t =
      (t.total_read ≡ s.total_read)
      × (t.total_write ≡ s.total_write)
      × (t.writes ≡ s.writes)
      × (t.out_type ≡ s.out_type)

  on_pool-Ends :
      {A : Type 0} (s : Stream W) (o : Outcome Pool A)
      → Ends (λ a t. (p : Pool) × (t ≡ record s { pool = p })) (put_pool s o)
  unfolding put_pool
  on_pool-Ends s (returns a p) = (p, refl)
  on_pool-Ends s (throws e p) = tt
  on_pool-Ends s undefined = tt

module _ {W : Type 0} (ft : Ftd3xx W) where
  begin_read-SameTotals :
      (s : Stream W) (buffer : Option ℕ) → Ends (λ a t. SameTotals s t) (begin_read ft buffer s)
  unfolding begin_read
  begin_read-SameTotals s none = tt
  begin_read-SameTotals s (some b) =
      Ends-if (λ a t. SameTotals s t) _ (modify (λ s. record s { is_waiting = true })) (pure tt) _
        (λ _. (refl, refl, refl, refl)) (λ _. (refl, refl, refl, refl))

  initiate_read-SameTotals : (s : Stream W) → Ends (λ a t. SameTotals s t) (initiate_read ft s)
  unfolding initiate_read on_pool
  initiate_read-SameTotals s =
      Ends-bind (λ a t. (p : Port W) × (t ≡ record s { port = p })) (λ a t. SameTotals s t)
        (enable_data ft) (λ _. do buffer ← on_pool acquire; begin_read ft buffer) s
        (enable_data-Ends ft s)
        (λ a t e. rw e.1 (
          Ends-bind (λ a t. (p : Pool) × (t ≡ record s { port = e.0; pool = p }))
            (λ a t. SameTotals s t) (on_pool acquire) (begin_read ft) (record s { port = e.0 })
            (on_pool-Ends (record s { port = e.0 }) (acquire s.pool))
            (λ b u e'. rw e'.1 (begin_read-SameTotals (record s { port = e.0; pool = e'.0 }) b))))

  Counted-read :
      (s : Stream W) (n lost b : ℕ) (o : Outcome (Stream W) Unit)
      → Counted lost s
      → Ends
          (λ a t.
            SameTotals
              (record s {
                total_read = (s.total_read + n) % 2 ^ 64;
                writes = cs16_write b n ∷ s.writes;
              })
              t)
          o
      → Ends (λ a t. Counted lost t) o
  Counted-read s n lost b (returns a t) (k, c) (r, w, ws, f) =
      (f ∙ k, omega (arith, c, r, w, ap pending ws))
  Counted-read s n lost b (throws e t) c k = tt
  Counted-read s n lost b undefined c k = tt

  hand_over-Counted :
      (s : Stream W) (n lost : ℕ) → Counted lost s → Ends (λ a t. Counted lost t) (hand_over ft n s)
  unfolding hand_over process process_and_write_cs16
  hand_over-Counted s n lost c =
      Ends-access (λ a t. Counted lost t) s.overlapped_buffer
        (λ buffer. do
          process s.out_type buffer n
          modify λ s. record s { total_read = (s.total_read + n) % 2 ^ 64 }
          initiate_read ft)
        s
        (λ b.
          subst
            (λ f.
              Ends (λ a t. Counted lost t)
                ((do
                  process f b n
                  modify λ s. record s { total_read = (s.total_read + n) % 2 ^ 64 }
                  initiate_read ft)
                  s))
            (sym c.0)
            (Counted-read s n lost b _ c (
              initiate_read-SameTotals (record s {
                total_read = (s.total_read + n) % 2 ^ 64;
                writes = cs16_write b n ∷ s.writes;
              }))))

  read_complete-Counted :
      (s : Stream W) (failed : Bool) (lost : ℕ)
      → Counted lost s
      → Ends (λ a t. Counted lost t) (read_complete ft failed s)
  unfolding read_complete handle_read_complete
  read_complete-Counted s true lost c = c
  read_complete-Counted s false lost c =
      let ((status, bytes), w) = ft.get_overlapped_result false s.port.world in
      let t : Stream W = record s { port = record s.port { world = w }; is_waiting = false } in
      Ends-require (λ a t. Counted lost t) (leb (length bytes) stream_buffer_size) _ t
        (Ends-if (λ a t. Counted lost t) (status == ft_ok) (hand_over ft (length bytes)) (pure tt) t
          (λ e. hand_over-Counted t (length bytes) lost c) (λ e. c))

module _ {W : Type 0} where
  write_complete-Counted :
      (s : Stream W) (before after : List Write) (b n lost : ℕ)
      → s.writes ≡ before ++ (cs16_write b n ∷ after)
      → Counted lost s
      → Ends
          (λ a t. Counted lost t)
          (write_complete false n (cs16_write b n) (record s { writes = before ++ after }))
  unfolding write_complete handle_write_cs16_complete on_pool
  write_complete-Counted s before after b n lost e (k, c) =
      let out : Stream W = record s {
        writes = before ++ after;
        total_write = (s.total_write + n) % 2 ^ 64;
      } in
      Ends-weaken (λ a t. (p : Pool) × (t ≡ record out { pool = p })) (λ a t. Counted lost t) _
        (on_pool-Ends out (release (some b) s.pool))
        (λ a t (p, e'). rw e' ((k, omega (arith, c, ap pending e, pending-cs16 before after b n))))

  write_complete-Counted_failed :
      (s : Stream W) (before after : List Write) (b n m lost : ℕ)
      → s.writes ≡ before ++ (cs16_write b n ∷ after)
      → Counted lost s
      → Ends
          (λ a t. Counted (lost + n) t)
          (write_complete true m (cs16_write b n) (record s { writes = before ++ after }))
  unfolding write_complete handle_write_cs16_complete on_pool
  write_complete-Counted_failed s before after b n m lost e (k, c) =
      let out : Stream W = record s { writes = before ++ after } in
      Ends-weaken (λ a t. (p : Pool) × (t ≡ record out { pool = p })) (λ a t. Counted (lost + n) t)
        _ (on_pool-Ends out (release (some b) s.pool))
        (λ a t (p, e'). rw e' ((k, omega (arith, c, ap pending e, pending-cs16 before after b n))))

-- The completions of reads, and those of writes that write all their bytes or fail, in any order; the
-- number is the bytes of those that failed.
pub data Ran {W : Type 0} (ft : Ftd3xx W) (s : Stream W) : ℕ → Stream W → Type 0 where
  not_run : (lost : ℕ) → lost ≡ 0 → Ran ft s lost s
  read_ran :
      {t u : Stream W} {lost : ℕ} (failed : Bool)
      → Ran ft s lost t
      → t.is_waiting ≡ true
      → read_complete ft failed t ≡ returns tt u
      → Ran ft s lost u
  write_ran :
      {t u : Stream W} {lost : ℕ} (before after : List Write) (b n : ℕ)
      → Ran ft s lost t
      → t.writes ≡ before ++ (cs16_write b n ∷ after)
      → write_complete false n (cs16_write b n) (record t { writes = before ++ after })
        ≡ returns tt u
      → Ran ft s lost u
  failed_ran :
      {t u : Stream W} {lost lost' : ℕ} (before after : List Write) (b n m : ℕ)
      → Ran ft s lost t
      → lost' ≡ lost + n
      → t.writes ≡ before ++ (cs16_write b n ∷ after)
      → write_complete true m (cs16_write b n) (record t { writes = before ++ after })
        ≡ returns tt u
      → Ran ft s lost' u

module _ {W : Type 0} (ft : Ftd3xx W) where
  Ran-Counted : {s t : Stream W} {lost : ℕ} → Counted 0 s → Ran ft s lost t → Counted lost t
  Ran-Counted {s} c (not_run lost z) = subst (λ k. Counted k s) (sym z) c
  Ran-Counted c (read_ran {t = t} {lost = lost} failed r w e) =
      subst (Ends (λ a u. Counted lost u)) e
        (read_complete-Counted ft t failed lost (Ran-Counted c r))
  Ran-Counted c (write_ran {t = t} {lost = lost} before after b n r e e') =
      subst (Ends (λ a u. Counted lost u)) e'
        (write_complete-Counted t before after b n lost e (Ran-Counted c r))
  Ran-Counted c (failed_ran {t = t} {u = u} {lost = lost} before after b n m r k e e') =
      subst (λ l. Counted l u) (sym k)
        (subst (Ends (λ a u. Counted (lost + n) u)) e'
          (write_complete-Counted_failed t before after b n m lost e (Ran-Counted c r)))

  start-Counted :
      (s : Stream W) (vfo : ℕ)
      → s.out_type ≡ interleaved_short
      → s.writes ≡ []
      → s.total_read ≡ 0
      → s.total_write ≡ 0
      → Ends (λ a t. Counted 0 t) (start ft vfo s)
  unfolding start
  start-Counted s vfo k w r z =
      let u : Stream W = record s { vfo = vfo % 256 } in
      Ends-weaken (λ a t. SameTotals u t) (λ a t. Counted 0 t) _ (initiate_read-SameTotals ft u)
        (λ a t (r', z', w', k'). (k' ∙ k, omega (arith, r, z, r', z', ap pending (w' ∙ w))))

  -- A run keeps the format, and the balance of what was read.
  pub run-Counted :
      (s t u : Stream W) (vfo lost : ℕ)
      → s.out_type ≡ interleaved_short
      → s.writes ≡ []
      → s.total_read ≡ 0
      → s.total_write ≡ 0
      → start ft vfo s ≡ returns tt t
      → Ran ft t lost u
      → Counted lost u
  run-Counted s t u vfo lost k w r z e ran =
      Ran-Counted (subst (Ends (λ a t. Counted 0 t)) e (start-Counted s vfo k w r z)) ran

  -- In the formats S16 and CS16, once `start` has returned and after any completions, in any order,
  -- of reads and of writes that write all their bytes or fail: the bytes read are the bytes written,
  -- those of the writes under way and those of the writes that failed, modulo 2 ^ 64.
  pub total_read-splits :
      (s t u : Stream W) (vfo lost : ℕ)
      → s.out_type ≡ interleaved_short
      → s.writes ≡ []
      → s.total_read ≡ 0
      → s.total_write ≡ 0
      → start ft vfo s ≡ returns tt t
      → Ran ft t lost u
      → u.total_read ≡ (u.total_write + pending u.writes + lost) % 2 ^ 64
  total_read-splits s t u vfo lost k w r z e ran = (run-Counted s t u vfo lost k w r z e ran).1

pub get_read_total_lem : {W : Type 0} (s : Stream W) → get_read_total s ≡ s.total_read
unfolding get_read_total
get_read_total_lem s = refl
