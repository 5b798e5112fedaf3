-- ===== src/Stream/Full.antt =====
-- How many buffers a stream needs: what a read does with one left, and with none.
use ic7610iq.Prelude.{
  ℕ, ◌+◌, ◌%◌, ◌^◌, ◌≤◌, Bool, true, false, Option, none, some, List, [], ◌∷◌, le→leb,
  if◌then◌else◌, length, returns, undefined, M, ◌>>=◌, ◌>>◌, pure, modify, access, ◌≡◌, inl, inr,
  refl, subst, ◌∙◌, ap, Runs, Runs-if, Runs-returns, arith,
}
use ic7610iq.Common.{ft_ok}
use ic7610iq.Driver.{Ftd3xx}
use ic7610iq.Pool.{Pool, acquire}
use ic7610iq.Pool.Inv.{acquire-nil}
use ic7610iq.Pool.Held.{Held, acquire-Held}
use ic7610iq.Stream.{
  Stream, Write, cs16_write, interleaved_short, stream_buffer_size, put_pool, on_pool, enable_data,
  begin_read, initiate_read, process, process_and_write_cs16, hand_over, handle_read_complete,
}
use ic7610iq.Stream.Frames.{in_writes}
use ic7610iq.Stream.Accounting.{Accounted}

if_true : {S A : Type 0} (b : Bool) (m k : M S A) (s : S) → b ≡ true → (if b then m else k) s ≡ m s
if_true true m k s e = refl
if_true false m k s e = absurd cc

module _ {W : Type 0} where
  -- The stream when a read has come in.
  unfoldable pub read_in : Stream W → W → Stream W
  read_in s w = record s { port = record s.port { world = w }; is_waiting = false }

  -- The stream when the bytes of a read are counted.
  unfoldable pub counted : Stream W → ℕ → List Write → Stream W
  counted s n ws = record s { total_read = (s.total_read + n) % 2 ^ 64; writes = ws }

  -- What a read that gets the buffer `b` leaves.
  abbrev pub Started : Stream W → List ℕ → ℕ → List ℕ → Stream W → Type 0
  Started s xs b rest t =
      (t.overlapped_buffer ≡ some b)
      × (t.pool.free_buffers ≡ rest)
      × Held t.pool (b ∷ xs)
      × (t.pool.buffer_list ≡ s.pool.buffer_list)
      × (t.writes ≡ s.writes)
      × (t.total_read ≡ s.total_read)
      × (t.out_type ≡ s.out_type)
      × (t.port.iq_data_enabled ≡ s.port.iq_data_enabled)

module _ {W : Type 0} (ft : Ftd3xx W) where
  enable_data-enabled :
      (s : Stream W) → s.port.iq_data_enabled ≡ true → enable_data ft s ≡ returns tt s
  unfolding enable_data
  enable_data-enabled s e = if_true s.port.iq_data_enabled (pure tt) _ s e

  on_pool-acquire :
      (s : Stream W) (b : Option ℕ) (p : Pool)
      → acquire s.pool ≡ returns b p
      → on_pool acquire s ≡ returns b (record s { pool = p })
  unfolding on_pool put_pool
  on_pool-acquire s b p e = ap (put_pool s) e

  pub initiate_read-Started :
      (s : Stream W) (xs : List ℕ) (b : ℕ) (rest : List ℕ)
      → s.port.iq_data_enabled ≡ true
      → Held s.pool xs
      → s.pool.free_buffers ≡ b ∷ rest
      → Runs (λ a t. Started s xs b rest t) (initiate_read ft s)
  unfolding initiate_read begin_read
  initiate_read-Started s xs b rest on h f = elim (acquire-Held s.pool xs h) [
    | inl (nil, out) ↦ absurd cc
    | inr (b', p, e, held, f', l) ↦
        let top : b' ≡ b = cc in
        let left : p.free_buffers ≡ rest = cc in
        let held' : Held p (b ∷ xs) = subst (λ k. Held p (k ∷ xs)) top held in
        rw (enable_data-enabled s on, ◌>>=◌)
          (rw (on_pool-acquire s (some b') p e, ◌>>=◌)
            (Runs-if (λ a t. Started s xs b rest t) _ (modify (λ s. record s { is_waiting = true }))
              (pure tt) _ (λ _. (ap some top, left, held', l, refl, refl, refl, refl))
              (λ _. (ap some top, left, held', l, refl, refl, refl, refl))))
  ]

  pub initiate_read-undefined :
      (s : Stream W)
      → s.port.iq_data_enabled ≡ true
      → s.pool.free_buffers ≡ []
      → initiate_read ft s ≡ undefined
  unfolding initiate_read begin_read
  initiate_read-undefined s on nil =
      rw (enable_data-enabled s on, ◌>>=◌)
        (rw (on_pool-acquire s none s.pool (acquire-nil s.pool nil), ◌>>=◌) refl)

  pub handle_read_complete-good :
      (s : Stream W) (bytes : List ℕ) (w : W)
      → ft.get_overlapped_result false s.port.world ≡ ((ft_ok, bytes), w)
      → length bytes ≤ stream_buffer_size
      → handle_read_complete ft s ≡ hand_over ft (length bytes) (read_in s w)
  unfolding handle_read_complete read_in
  handle_read_complete-good s bytes w e l = rw e (rw (le→leb _ _ l) refl)

  pub hand_over-eq :
      (s : Stream W) (n b : ℕ)
      → s.overlapped_buffer ≡ some b
      → hand_over ft n s
        ≡ (do
          process s.out_type b n
          modify λ s. record s { total_read = (s.total_read + n) % 2 ^ 64 }
          initiate_read ft)
            s
  unfolding hand_over
  hand_over-eq s n b e =
      ap
        (λ o.
          (do
            buffer ← access o
            process s.out_type buffer n
            modify λ s. record s { total_read = (s.total_read + n) % 2 ^ 64 }
            initiate_read ft)
            s)
        e

  hand_over-short :
      (s : Stream W) (n b : ℕ)
      → s.overlapped_buffer ≡ some b
      → s.out_type ≡ interleaved_short
      → hand_over ft n s ≡ initiate_read ft (counted s n (cs16_write b n ∷ s.writes))
  unfolding process process_and_write_cs16 counted
  hand_over-short s n b e k =
      hand_over-eq s n b e
      ∙ ap
          (λ f.
            (do
              process f b n
              modify λ s. record s { total_read = (s.total_read + n) % 2 ^ 64 }
              initiate_read ft)
              s)
          k

  -- In a stream of format S16 or CS16 that is accounted for and whose data is enabled, a good read
  -- of at most 65536 bytes returns while the stack has a buffer: the bytes go to a new write in the
  -- buffer of the read and are counted modulo 2 ^ 64, and the next read has the buffer of the stack's top.
  pub short_read-continues :
      (s : Stream W) (v : Accounted s) (b : ℕ) (rest bytes : List ℕ) (w : W)
      → s.out_type ≡ interleaved_short
      → s.port.iq_data_enabled ≡ true
      → s.pool.free_buffers ≡ b ∷ rest
      → ft.get_overlapped_result false s.port.world ≡ ((ft_ok, bytes), w)
      → length bytes ≤ stream_buffer_size
      → (t : Stream W) × (handle_read_complete ft s ≡ returns tt t)
        × (t.writes ≡ cs16_write v.reading (length bytes) ∷ s.writes)
        × (t.total_read ≡ (s.total_read + length bytes) % 2 ^ 64)
        × (t.overlapped_buffer ≡ some b)
        × (t.pool.free_buffers ≡ rest)
  unfolding counted read_in
  short_read-continues s v b rest bytes w k on f e l =
      let n : ℕ = length bytes in
      let s' : Stream W = counted (read_in s w) n (cs16_write v.reading n ∷ s.writes) in
      let (a, t, e', got) =
        Runs-returns (λ a t. Started s' (v.reading ∷ in_writes s.writes) b rest t) _
          (initiate_read-Started s' (v.reading ∷ in_writes s.writes) b rest on v.held f) in
      let (o, f', h, list, ws, total, k', on') = got in
      (
        t,
        handle_read_complete-good s bytes w e l
            ∙ (hand_over-short (read_in s w) n v.reading v.read_buffer k ∙ e'),
        ws,
        total,
        o,
        f',
      )

  none_left :
      (p : Pool) (free : List ℕ) → p.free_buffers ≡ free → length free ≡ 0 → p.free_buffers ≡ []
  none_left p [] e l = e
  none_left p (x ∷ free) e l = absurd (omega (arith, l))

  -- In a stream of format S16 or CS16 that is accounted for and whose data is enabled, a good read
  -- of at most 65536 bytes while the writes under way have 15 buffers takes an address from a null
  -- pointer.
  pub short_read-exhausted :
      (s : Stream W) (v : Accounted s) (bytes : List ℕ) (w : W)
      → s.out_type ≡ interleaved_short
      → s.port.iq_data_enabled ≡ true
      → length (in_writes s.writes) ≡ 15
      → ft.get_overlapped_result false s.port.world ≡ ((ft_ok, bytes), w)
      → length bytes ≤ stream_buffer_size
      → handle_read_complete ft s ≡ undefined
  unfolding counted read_in
  short_read-exhausted s v bytes w k on out e l =
      let n : ℕ = length bytes in
      handle_read_complete-good s bytes w e l
      ∙ (hand_over-short (read_in s w) n v.reading v.read_buffer k
          ∙ initiate_read-undefined (counted (read_in s w) n (cs16_write v.reading n ∷ s.writes)) on
              (none_left s.pool s.pool.free_buffers refl
                (omega (arith, v.held.number, v.all, out))))
