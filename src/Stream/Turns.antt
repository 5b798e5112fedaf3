-- ===== src/Stream/Turns.antt =====
-- The completions as a step relation: whenever the context runs, the wait of the read or any one of
-- the writes under way has completed, with or without an error.
use ic7610iq.Prelude.{
  ℕ, Bool, List, [], ◌∷◌, ◌++◌, ◌+◌, ◌≡◌, ◌⊎◌, true, length, returns, Ends, subst, Runs,
  Runs-returns, arith,
}
use ic7610iq.Driver.{Ftd3xx}
use ic7610iq.Pool.Held.{Held}
use ic7610iq.Stream.{
  Stream, Write, interleaved_short, complex_float, num_stream_buffers, read_complete,
  write_complete, start,
}
use ic7610iq.Stream.Frames.{in_writes}
use ic7610iq.Stream.Accounting.{
  Accounted, read_complete-Accounted, write_complete-Accounted, start-Accounted,
}

pub data Step {W : Type 0} (ft : Ftd3xx W) : Stream W → Stream W → Type 0 where
  read_done :
      {t : Stream W} (s : Stream W) (failed : Bool)
      → s.is_waiting ≡ true
      → read_complete ft failed s ≡ returns tt t
      → Step ft s t
  write_done :
      {t : Stream W} (s : Stream W) (before after : List Write) (w : Write) (failed : Bool) (n : ℕ)
      → s.writes ≡ before ++ (w ∷ after)
      → write_complete failed n w (record s { writes = before ++ after }) ≡ returns tt t
      → Step ft s t

pub data Reach {W : Type 0} (ft : Ftd3xx W) (s : Stream W) : Stream W → Type 0 where
  here : Reach ft s s
  next : {t u : Stream W} → Reach ft s t → Step ft t u → Reach ft s u

module _ {W : Type 0} (ft : Ftd3xx W) where
  Step-Accounted : {s t : Stream W} → Step ft s t → Accounted s → Accounted t
  Step-Accounted (read_done s failed w e) v =
      subst (Ends (λ a t. Accounted t)) e (read_complete-Accounted ft s failed v)
  Step-Accounted (write_done s before after w failed n m e) v =
      subst (Runs (λ a t. Accounted t)) e (write_complete-Accounted s before after w failed n m v)

  Reach-Accounted : {s t : Stream W} → Accounted s → Reach ft s t → Accounted t
  Reach-Accounted v here = v
  Reach-Accounted v (next r step) = Step-Accounted step (Reach-Accounted v r)

  -- If `start` returns, of a stream of format S16, CS16 or CF32 with a valid pool of 16 buffers that
  -- are all on its stack, and with no write under way, then after any completions, in any order, the
  -- read has one buffer, each of the others is on the stack or in one of the writes under way, never
  -- in two places, and together they are 16.
  pub stream-Accounted :
      (s t u : Stream W) (vfo : ℕ)
      → Held s.pool []
      → length s.pool.buffer_list ≡ num_stream_buffers
      → s.writes ≡ []
      → (s.out_type ≡ interleaved_short) ⊎ (s.out_type ≡ complex_float)
      → start ft vfo s ≡ returns tt t
      → Reach ft t u
      → Accounted u
        × (length u.pool.free_buffers + 1 + length (in_writes u.writes) ≡ num_stream_buffers)
  stream-Accounted s t u vfo h n w k e r =
      let v : Accounted u =
        Reach-Accounted (subst (Ends (λ a t. Accounted t)) e (start-Accounted ft s vfo h w n k))
          r in
      (v, omega (arith, v.held.number, v.all))

module _ {W : Type 0} where
  -- In a stream that is accounted for, the handler of any write under way returns, whatever the
  -- error code, and leaves it accounted for.
  write_complete-returns :
      (s : Stream W) (before after : List Write) (w : Write) (failed : Bool) (n : ℕ)
      → Accounted s
      → s.writes ≡ before ++ (w ∷ after)
      → (t : Stream W) × (write_complete failed n w (record s { writes = before ++ after })
          ≡ returns tt t)
        × Accounted t
  write_complete-returns s before after w failed n v e =
      let (a, t, e', v') =
        Runs-returns (λ a t. Accounted t) _
          (write_complete-Accounted s before after w failed n e v) in
      (t, e', v')
