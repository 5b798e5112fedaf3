-- ===== src/Stream/Double.antt =====
-- A stream of format CF64 gives no buffer back.
use ic7610iq.Prelude.{
  ℕ, zero, suc, ◌+◌, ◌%◌, ◌^◌, ◌≤◌, true, false, some, List, [], ◌∷◌, length, returns, undefined, M,
  ◌>>=◌, ◌>>◌, pure, modify, ◌≡◌, refl, ◌∙◌, ap, Runs-returns,
}
use ic7610iq.Common.{ft_ok}
use ic7610iq.Driver.{Ftd3xx}
use ic7610iq.Pool.Held.{Held}
use ic7610iq.Stream.{
  Stream, complex_double, stream_buffer_size, initiate_read, process, hand_over,
  handle_read_complete,
}
use ic7610iq.Stream.Full.{
  Started, initiate_read-Started, initiate_read-undefined, read_in, handle_read_complete-good,
  counted, hand_over-eq,
}

module _ {W : Type 0} (ft : Ftd3xx W) where
  hand_over-double :
      (s : Stream W) (n b : ℕ)
      → s.overlapped_buffer ≡ some b
      → s.out_type ≡ complex_double
      → hand_over ft n s ≡ initiate_read ft (counted s n s.writes)
  unfolding process counted
  hand_over-double s n b e k =
      hand_over-eq ft s n b e
      ∙ ap
          (λ f.
            (do
              process f b n
              modify λ s. record s { total_read = (s.total_read + n) % 2 ^ 64 }
              initiate_read ft)
              s)
          k

  -- A library whose reads all come back good, with at most as many bytes as were asked for.
  abbrev pub AlwaysReads : Type 0
  AlwaysReads =
      (w : W)
      → (bytes : List ℕ) × (w' : W) × (ft.get_overlapped_result false w ≡ ((ft_ok, bytes), w'))
        × (length bytes ≤ stream_buffer_size)

  -- So many reads, one after the other.
  pub reads : ℕ → M (Stream W) (Unit {0})
  reads zero = pure tt
  reads (suc n) = do handle_read_complete ft; reads n

  double_read-undefined :
      (s : Stream W) (b : ℕ)
      → AlwaysReads
      → s.out_type ≡ complex_double
      → s.port.iq_data_enabled ≡ true
      → s.overlapped_buffer ≡ some b
      → s.pool.free_buffers ≡ []
      → handle_read_complete ft s ≡ undefined
  unfolding counted read_in
  double_read-undefined s b good k on r nil =
      let (bytes, w, e, l) = good s.port.world in
      handle_read_complete-good ft s bytes w e l
      ∙ (hand_over-double (read_in s w) (length bytes) b r k
          ∙ initiate_read-undefined ft (counted (read_in s w) (length bytes) s.writes) on nil)

  double_read-Started :
      (s : Stream W) (xs : List ℕ) (b top : ℕ) (rest : List ℕ)
      → AlwaysReads
      → s.out_type ≡ complex_double
      → s.port.iq_data_enabled ≡ true
      → s.overlapped_buffer ≡ some b
      → Held s.pool xs
      → s.pool.free_buffers ≡ top ∷ rest
      → (t : Stream W) × (handle_read_complete ft s ≡ returns tt t)
        × (t.overlapped_buffer ≡ some top)
        × (t.pool.free_buffers ≡ rest)
        × Held t.pool (top ∷ xs)
        × (t.writes ≡ s.writes)
        × (t.out_type ≡ complex_double)
        × (t.port.iq_data_enabled ≡ true)
  unfolding counted read_in
  double_read-Started s xs b top rest good k on r h f =
      let (bytes, w, e, l) = good s.port.world in
      let s' : Stream W = counted (read_in s w) (length bytes) s.writes in
      let (a, t, e', got) =
        Runs-returns (λ a t. Started s' xs top rest t) _
          (initiate_read-Started ft s' xs top rest on h f) in
      let (o, f', h', list, ws, total, k', on') = got in
      (
        t,
        handle_read_complete-good ft s bytes w e l
            ∙ (hand_over-double (read_in s w) (length bytes) b r k ∙ e'),
        o,
        f',
        h',
        ws,
        k' ∙ k,
        on' ∙ on,
      )

  reads-next :
      (n : ℕ) (s t : Stream W)
      → handle_read_complete ft s ≡ returns tt t
      → reads (suc n) s ≡ reads n t
  unfolding reads
  reads-next n s t e = rw (e, ◌>>=◌) refl

  -- A stream of format CF64 gives no buffer back: from a stream whose data is enabled, whose read has
  -- a buffer, and whose pool is valid, with every buffer on the stack or with a client, when every
  -- read comes back good with at most 65536 bytes, as many reads return as the stack has buffers,
  -- none of them starts a write, and the read after them takes an address from a null pointer.
  pub double_reads-exhaust :
      (free : List ℕ) (s : Stream W) (xs : List ℕ) (b : ℕ)
      → AlwaysReads
      → s.out_type ≡ complex_double
      → s.port.iq_data_enabled ≡ true
      → s.overlapped_buffer ≡ some b
      → Held s.pool xs
      → s.pool.free_buffers ≡ free
      → (t : Stream W) × (reads (length free) s ≡ returns tt t)
        × (t.writes ≡ s.writes)
        × (handle_read_complete ft t ≡ undefined)
  unfolding reads
  double_reads-exhaust [] s xs b good k on r h f =
      (s, refl, refl, double_read-undefined s b good k on r f)
  double_reads-exhaust (top ∷ free) s xs b good k on r h f =
      let (t, e, o, f', h', ws, k', on') = double_read-Started s xs b top free good k on r h f in
      let (u, e', ws', bad) = double_reads-exhaust free t (top ∷ xs) top good k' on' o h' f' in
      (u, reads-next (length free) s t e ∙ e', ws' ∙ ws, bad)
