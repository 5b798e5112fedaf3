-- ===== src/Port/Async/Rounds.antt =====
-- What a round of the reader thread does with the result of its read.
use ic7610iq.Prelude.{
  ℕ, M, pure, if◌then◌else◌, ◌∙◌, ◌+◌, ◌*◌, ◌%◌, ◌<◌, ◌++◌, ap, length-append, length-tabulate, sym,
  subst, lt→ltb, ==_iff, get_or, tabulate, ◌≤◌, ◌≡◌, ◌⊎◌, refl, true, false, inl, inr, Bool-cases,
  le→leb, List, ◌==◌, length, returns, ◌>>=◌, arith,
}
use ic7610iq.Common.{ft_ok, iq_in, bytes_per_sample, iq_block_length}
use ic7610iq.Driver.{Ftd3xx}
use ic7610iq.Ring.{Ring, runs, available_data, available_space, writebuf}
use ic7610iq.Ring.Inv.{IsValid, unread}
use ic7610iq.Ring.Stored.{source_byte}
use ic7610iq.Ring.Write.{writebuf-appends}
use ic7610iq.Ring.Steps.Queue.{length-unread}
use ic7610iq.Port.{Port, call}
use ic7610iq.Port.Async.{
  queue_read, store, Worker, looping, finished, worker_read, worker_round, iq_async_start,
}

module _ {W : Type 0} (ft : Ftd3xx W) where
  -- `iqAsyncStart` on a closed port, or while a reader runs, starts nothing and changes nothing.
  pub iq_async_start-refuses :
      (vfo : ℕ) (p : Port W)
      → (p.is_open ≡ false) ⊎ (p.running ≡ true)
      → iq_async_start ft vfo p ≡ returns false p
  unfolding iq_async_start
  iq_async_start-refuses vfo p (inl c) = rw c refl
  iq_async_start-refuses vfo p (inr r) = elim (Bool-cases p.is_open) [
    | inl t ↦ rw (t, r) refl
    | inr f ↦ rw f refl
  ]

  pub store-appends :
      (bytes : List ℕ) (n : ℕ) (p : Port W)
      → IsValid p.iq_buffer
      → length bytes ≡ n * bytes_per_sample
      → n ≤ available_space p.iq_buffer
      → (r' : Ring) × (w' : W) × (store ft bytes p
          ≡ returns looping (record p { iq_buffer = r'; world = w' }))
        × IsValid r'
        × (unread r'
            ≡ unread p.iq_buffer
              ++ tabulate (n * bytes_per_sample) (λ j. get_or bytes (source_byte p.iq_buffer j) 0))
  unfolding store queue_read
  store-appends bytes n p v l fits =
      let (r', e, v', u) = writebuf-appends p.iq_buffer bytes n v (omega (arith, l)) fits in
      let e' : writebuf bytes (length bytes) p.iq_buffer ≡ runs (length bytes, r') =
        subst (λ k. writebuf bytes k p.iq_buffer ≡ runs (k, r')) (sym l) e in
      (r', (ft.read_pipe iq_in iq_block_length p.world).1, rw (e', store) refl, v', u)

  worker_read-appends :
      (p : Port W) (bytes : List ℕ) (n : ℕ) (w' : W)
      → ft.get_overlapped_result true p.world ≡ ((ft_ok, bytes), w')
      → length bytes ≡ n * bytes_per_sample
      → 0 < n
      → length bytes ≤ iq_block_length
      → IsValid p.iq_buffer
      → n ≤ available_space p.iq_buffer
      → (r' : Ring) × (w'' : W) × (worker_read ft p
          ≡ returns looping (record p { iq_buffer = r'; world = w'' }))
        × IsValid r'
        × (unread r'
            ≡ unread p.iq_buffer
              ++ tabulate (n * bytes_per_sample) (λ j. get_or bytes (source_byte p.iq_buffer j) 0))
  unfolding worker_read
  worker_read-appends p bytes n w' e l some_samples block v fits =
      let (r', w'', s, v', u) = store-appends bytes n (record p { world = w' }) v l fits in
      (
        r',
        w'',
        rw e (rw (le→leb _ _ block, lt→ltb 0 (length bytes) (omega (arith, l)), whole) s),
        v',
        u,
      )
    where
      whole : (length bytes % bytes_per_sample == 0) ≡ true
      whole = (==_iff _ _).1 (omega (arith, l))

  -- On a valid ring, a round of a running reader whose read is good and gives one or more whole
  -- samples, at most a block, that fit in the ring, goes on with a valid ring, to whose unread
  -- bytes it has appended the samples in the order in which `writebuf` takes them.
  pub worker_round-appends :
      (p : Port W) (bytes : List ℕ) (n : ℕ) (w' : W)
      → p.running ≡ true
      → ft.get_overlapped_result true p.world ≡ ((ft_ok, bytes), w')
      → length bytes ≡ n * bytes_per_sample
      → 0 < n
      → length bytes ≤ iq_block_length
      → IsValid p.iq_buffer
      → n ≤ available_space p.iq_buffer
      → (r' : Ring) × (w'' : W) × (worker_round ft p
          ≡ returns looping (record p { iq_buffer = r'; world = w'' }))
        × IsValid r'
        × (unread r'
            ≡ unread p.iq_buffer
              ++ tabulate (n * bytes_per_sample) (λ j. get_or bytes (source_byte p.iq_buffer j) 0))
  unfolding worker_round
  worker_round-appends p bytes n w' r e l some_samples block v fits =
      let (r', w'', s, v', u) = worker_read-appends p bytes n w' e l some_samples block v fits in
      let on : worker_round ft p ≡ worker_read ft p =
        ap (λ b. (if b then worker_read ft else worker_end) p) r in
      (r', w'', on ∙ s, v', u)
    where
      worker_end : M (Port W) Worker
      worker_end = do _ ← call ft.release_overlapped; pure finished

  -- Such a read leaves so many samples more.
  pub worker_read-adds :
      (p : Port W) (bytes : List ℕ) (n : ℕ) (w' : W)
      → ft.get_overlapped_result true p.world ≡ ((ft_ok, bytes), w')
      → length bytes ≡ n * bytes_per_sample
      → 0 < n
      → length bytes ≤ iq_block_length
      → IsValid p.iq_buffer
      → n ≤ available_space p.iq_buffer
      → (r' : Ring) × (w'' : W) × (worker_read ft p
          ≡ returns looping (record p { iq_buffer = r'; world = w'' }))
        × IsValid r'
        × (available_data r' ≡ available_data p.iq_buffer + n)
  worker_read-adds p bytes n w' e l some_samples block v fits =
      let (r', w'', e', v', u) = worker_read-appends p bytes n w' e l some_samples block v fits in
      let more : List ℕ =
        tabulate (n * bytes_per_sample) (λ j. get_or bytes (source_byte p.iq_buffer j) 0) in
      (
        r',
        w'',
        e',
        v',
        omega (
          arith,
          length-unread r',
          length-unread p.iq_buffer,
          ap length u,
          length-append (unread p.iq_buffer) more,
          length-tabulate {A = ℕ} (n * bytes_per_sample)
              (λ j. get_or bytes (source_byte p.iq_buffer j) 0),
        ),
      )
