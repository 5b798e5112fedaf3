-- ===== src/Stream/Accounting.antt =====
-- Which buffers the stream has, whatever completions come and in whatever order.
use ic7610iq.Prelude.{
  ℕ, ◌+◌, ◌%◌, ◌^◌, Bool, true, false, some, List, [], ◌∷◌, ◌++◌, leb, ◌==◌, if◌then◌else◌, length,
  length-append, Outcome, returns, throws, undefined, ◌>>◌, pure, modify, ◌≡◌, ◌⊎◌, refl, ◌∙◌, ap,
  Ends, Ends-bind, Ends-if, Ends-access-some, Ends-require, Runs, Runs-bind, Runs-if, arith,
}
use ic7610iq.Common.{ft_ok}
use ic7610iq.Driver.{Ftd3xx}
use ic7610iq.Pool.{release}
use ic7610iq.Pool.Held.{Held, Held-reorder, count, count-append, count-cons}
use ic7610iq.Stream.{
  Stream, Write, cs16_write, cf32_write, interleaved_short, complex_float, num_stream_buffers,
  stream_buffer_size, on_pool, initiate_read, process, handle_read_complete, hand_over,
  read_complete, write_complete, handle_write_cs16_complete, handle_write_cf32_complete, start,
}
use ic7610iq.Stream.Frames.{
  buffers, in_writes, Gave, Reads, Handed, release-Gave, initiate_read-Reads, process-Handed,
}

-- The read has a buffer, and the buffers that are not on the stack are that one and those of the
-- writes under way, each once; of the pool's buffers there are still as many.
pub record Accounted {W : Type 0} (s : Stream W) : Type 0 where
  pub reading : ℕ
  pub read_buffer : s.overlapped_buffer ≡ some reading
  pub held : Held s.pool (reading ∷ in_writes s.writes)
  pub all : length s.pool.buffer_list ≡ num_stream_buffers
  pub kept : (s.out_type ≡ interleaved_short) ⊎ (s.out_type ≡ complex_float)

module _ {W : Type 0} (ft : Ftd3xx W) where
  initiate_read-Accounted :
      (s : Stream W)
      → Held s.pool (in_writes s.writes)
      → length s.pool.buffer_list ≡ num_stream_buffers
      → (s.out_type ≡ interleaved_short) ⊎ (s.out_type ≡ complex_float)
      → (o : Outcome (Stream W) Unit) → Ends (λ a t. Reads s (in_writes s.writes) t) o
      → Ends (λ a t. Accounted t) o
  initiate_read-Accounted s h n k (returns a t) (b, e, held, l, w, f) = record {
    reading = b;
    read_buffer = e;
    held = rw w held;
    all = ap length l ∙ n;
    kept = rw f k;
  }
  initiate_read-Accounted s h n k (throws e t) r = tt
  initiate_read-Accounted s h n k undefined r = tt

  hand_over-Accounted :
      (s : Stream W) (n : ℕ) → Accounted s → Ends (λ a t. Accounted t) (hand_over ft n s)
  unfolding hand_over
  hand_over-Accounted s n v =
      Ends-access-some (λ a t. Accounted t) s.overlapped_buffer v.reading
        (λ buffer. do
          process s.out_type buffer n
          modify λ s. record s { total_read = (s.total_read + n) % 2 ^ 64 }
          initiate_read ft)
        s v.read_buffer
        (Ends-bind (λ a t. Handed s t) (λ a t. Accounted t) (process s.out_type v.reading n)
          (λ _. do
            modify λ s. record s { total_read = (s.total_read + n) % 2 ^ 64 }
            initiate_read ft)
          s (process-Handed s s.out_type v.reading n v.kept v.held)
          (λ a t (h, l, k).
            let u : Stream W = record t { total_read = (t.total_read + n) % 2 ^ 64 } in
            initiate_read-Accounted u h (ap length l ∙ v.all) (rw k v.kept) (initiate_read ft u)
              (initiate_read-Reads ft u _ h)))

  pub read_complete-Accounted :
      (s : Stream W) (failed : Bool)
      → Accounted s
      → Ends (λ a t. Accounted t) (read_complete ft failed s)
  unfolding read_complete handle_read_complete
  read_complete-Accounted s true v = record {
    reading = v.reading;
    read_buffer = v.read_buffer;
    held = v.held;
    all = v.all;
    kept = v.kept;
  }
  read_complete-Accounted s false v =
      let ((status, bytes), w) = ft.get_overlapped_result false s.port.world in
      let t : Stream W = record s { port = record s.port { world = w }; is_waiting = false } in
      let v' : Accounted t = record {
        reading = v.reading;
        read_buffer = v.read_buffer;
        held = v.held;
        all = v.all;
        kept = v.kept;
      } in
      Ends-require (λ a t. Accounted t) (leb (length bytes) stream_buffer_size)
        (λ _. if status == ft_ok then hand_over ft (length bytes) else pure tt) t
        (Ends-if (λ a t. Accounted t) (status == ft_ok) (hand_over ft (length bytes)) (pure tt) t
          (λ e. hand_over-Accounted t (length bytes) v') (λ e. v'))

  pub start-Accounted :
      (s : Stream W) (vfo : ℕ)
      → Held s.pool []
      → s.writes ≡ []
      → length s.pool.buffer_list ≡ num_stream_buffers
      → (s.out_type ≡ interleaved_short) ⊎ (s.out_type ≡ complex_float)
      → Ends (λ a t. Accounted t) (start ft vfo s)
  unfolding start in_writes
  start-Accounted s vfo h w n k =
      let u : Stream W = record s { vfo = vfo % 256 } in
      let h' : Held s.pool (in_writes s.writes) = rw w h in
      initiate_read-Accounted u h' n k (initiate_read ft u) (initiate_read-Reads ft u _ h')

count-in_writes :
    (q : ℕ) (before after : List Write) (w : Write)
    → count q (in_writes (before ++ (w ∷ after)))
      ≡ count q (buffers w) + count q (in_writes (before ++ after))
unfolding in_writes
count-in_writes q [] after w = count-append q (buffers w) (in_writes after)
count-in_writes q (v ∷ before) after w = omega (
  arith,
  count-append q (buffers v) (in_writes (before ++ (w ∷ after))),
  count-append q (buffers v) (in_writes (before ++ after)),
  count-in_writes q before after w,
)

length-in_writes :
    (before after : List Write) (w : Write)
    → length (in_writes (before ++ (w ∷ after)))
      ≡ length (buffers w) + length (in_writes (before ++ after))
unfolding in_writes
length-in_writes [] after w = length-append (buffers w) (in_writes after)
length-in_writes (v ∷ before) after w = omega (
  arith,
  length-append (buffers v) (in_writes (before ++ (w ∷ after))),
  length-append (buffers v) (in_writes (before ++ after)),
  length-in_writes before after w,
)

module _ {W : Type 0} where
  -- The buffers of the write that completes come first, then those that stay out.
  in_front :
      (s : Stream W) (before after : List Write) (w : Write) (v : Accounted s)
      → s.writes ≡ before ++ (w ∷ after)
      → Held s.pool (buffers w ++ (v.reading ∷ in_writes (before ++ after)))
  in_front s before after w v e =
      Held-reorder s.pool _ _
        (λ q. omega (
          arith,
          ap (λ ws. count q (in_writes ws)) e,
          count-in_writes q before after w,
          count-append q (buffers w) (v.reading ∷ in_writes (before ++ after)),
          count-cons q v.reading (in_writes s.writes),
          count-cons q v.reading (in_writes (before ++ after)),
        ))
        (omega (
          arith,
          ap (λ ws. length (in_writes ws)) e,
          length-in_writes before after w,
          length-append (buffers w) (v.reading ∷ in_writes (before ++ after)),
        ))
        v.held

  given_back :
      (s : Stream W) (o : Outcome (Stream W) Unit) (reading : ℕ)
      → s.overlapped_buffer ≡ some reading
      → length s.pool.buffer_list ≡ num_stream_buffers
      → (s.out_type ≡ interleaved_short) ⊎ (s.out_type ≡ complex_float)
      → Runs (λ a t. Gave s (reading ∷ in_writes s.writes) t) o
      → Runs (λ a t. Accounted t) o
  given_back s (returns a t) reading r n k (p, e, h, l) =
      rw e
        (record { reading = reading; read_buffer = r; held = h; all = ap length l ∙ n; kept = k })
  given_back s (throws e t) reading r n k g = absurd g
  given_back s undefined reading r n k g = absurd g

  -- The write that completes leaves the list of writes under way before its handler runs.
  pub write_complete-Accounted :
      (s : Stream W) (before after : List Write) (w : Write) (failed : Bool) (n : ℕ)
      → s.writes ≡ before ++ (w ∷ after)
      → Accounted s
      → Runs
          (λ a t. Accounted t)
          (write_complete failed n w (record s { writes = before ++ after }))
  unfolding write_complete handle_write_cs16_complete handle_write_cf32_complete buffers
  write_complete-Accounted s before after (cs16_write b m) failed n e v =
      let out : Stream W = record s { writes = before ++ after } in
      let xs : List ℕ = v.reading ∷ in_writes (before ++ after) in
      let held : Held s.pool (b ∷ xs) = in_front s before after (cs16_write b m) v e in
      Runs-bind (λ a t. (k : ℕ) × (t ≡ record out { total_write = k })) (λ a t. Accounted t)
        (if failed
          then pure tt
          else modify (λ s. record s { total_write = (s.total_write + n) % 2 ^ 64 }))
        (λ _. on_pool (release (some b))) out
        (Runs-if (λ a t. (k : ℕ) × (t ≡ record out { total_write = k })) failed (pure tt)
          (modify (λ s. record s { total_write = (s.total_write + n) % 2 ^ 64 })) out
          (λ _. (s.total_write, refl)) (λ _. ((s.total_write + n) % 2 ^ 64, refl)))
        (λ a t (k, e'). rw e' (
          given_back (record out { total_write = k })
            (on_pool (release (some b)) (record out { total_write = k })) v.reading v.read_buffer
            v.all v.kept (release-Gave (record out { total_write = k }) b xs held)))
  write_complete-Accounted s before after (cf32_write b1 b2 chunks) failed n e v =
      let out : Stream W = record s { writes = before ++ after } in
      let xs : List ℕ = v.reading ∷ in_writes (before ++ after) in
      let held : Held s.pool (b1 ∷ b2 ∷ xs) =
        in_front s before after (cf32_write b1 b2 chunks) v e in
      Runs-bind (λ a t. Gave out (b2 ∷ xs) t) (λ a t. Accounted t) (on_pool (release (some b1)))
        (λ _. on_pool (release (some b2))) out (release-Gave out b1 (b2 ∷ xs) held)
        (λ a t (p, e', h, l). rw e' (
          given_back (record out { pool = p })
            (on_pool (release (some b2)) (record out { pool = p })) v.reading v.read_buffer
            (ap length l ∙ v.all) v.kept (release-Gave (record out { pool = p }) b2 xs h)))
