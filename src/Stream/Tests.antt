-- ===== src/Stream/Tests.antt =====
-- Streams with the scripted library: a fresh one, one with a buffer left and one with none.
use ic7610iq.Prelude.{
  ℕ, ◌+◌, ◌*◌, ◌%◌, ◌^◌, ◌≡◌, inl, refl, true, false, some, List, [], ◌∷◌, ◌++◌, map, length,
  returns, undefined, subst, Runs, arith,
}
use ic7610iq.Port.Scripted.{scripted, ready}
use ic7610iq.Pool.{create, new_buffer, new_buffers, reset, acquire}
use ic7610iq.Pool.Members.{elem-nil}
use ic7610iq.Pool.Held.{new_pool-Held, count, count-append}
use ic7610iq.Stream.{
  Stream, cs16_write, interleaved_short, complex_double, format_of, construct, put_pool, on_pool,
  enable_data, begin_read, initiate_read, start, process, process_and_write_cs16, hand_over,
  handle_read_complete, read_complete,
}
use ic7610iq.Stream.Scripted.{eight_bytes, fresh, started, read_once}
use ic7610iq.Stream.Frames.{in_writes, buffers}
use ic7610iq.Stream.Accounting.{Accounted}
use ic7610iq.Stream.Turns.{here, next, read_done, stream-Accounted}
use ic7610iq.Driver.{Ftd3xx}
use ic7610iq.Stream.Full.{
  Started, initiate_read-Started, short_read-continues, short_read-exhausted,
}
use ic7610iq.Stream.Double.{double_reads-exhaust, reads, AlwaysReads}
use ic7610iq.Stream.Opening.{Constructs, construct-Constructs}

accounted : Accounted read_once.0
accounted =
    (stream-Accounted scripted (fresh interleaved_short) started.0 read_once.0 0
      (new_pool-Held 16 (65536 * 4)).0 (new_pool-Held 16 (65536 * 4)).1 refl (inl refl) started.1
      (next here (read_done started.0 false read_once.2 read_once.1))).0

stream-Accounted_example :
    Accounted read_once.0
    × (length read_once.0.pool.free_buffers + 1 + length (in_writes read_once.0.writes) ≡ 16)
stream-Accounted_example =
    stream-Accounted scripted (fresh interleaved_short) started.0 read_once.0 0
      (new_pool-Held 16 (65536 * 4)).0 (new_pool-Held 16 (65536 * 4)).1 refl (inl refl) started.1
      (next here (read_done started.0 false read_once.2 read_once.1))

construct-Constructs_example :
    Constructs scripted [] true
      (format_of "CF32").0
      (construct scripted true "000001" "CF32" (ready []))
construct-Constructs_example = construct-Constructs scripted true "000001" "CF32" (ready [])

one_write : read_once.0.writes ≡ [] ++ (cs16_write 15 8 ∷ [])
unfolding read_once started read_complete handle_read_complete hand_over process
    process_and_write_cs16 start initiate_read enable_data on_pool put_pool begin_read acquire reset
    create new_buffers new_buffer
one_write = refl

-- What the next read meets: a buffer on the stack, and eight good bytes.
left : (rest : List ℕ) × (read_once.0.pool.free_buffers ≡ 13 ∷ rest)
unfolding read_once started read_complete handle_read_complete hand_over process
    process_and_write_cs16 start initiate_read enable_data on_pool put_pool begin_read acquire reset
    create new_buffers new_buffer
left = (_, refl)

short : read_once.0.out_type ≡ interleaved_short
unfolding read_once started read_complete handle_read_complete hand_over process
    process_and_write_cs16 start initiate_read enable_data on_pool put_pool begin_read acquire reset
    create new_buffers new_buffer
short = refl

enabled : read_once.0.port.iq_data_enabled ≡ true
unfolding read_once started read_complete handle_read_complete hand_over process
    process_and_write_cs16 start initiate_read enable_data on_pool put_pool begin_read acquire reset
    create new_buffers new_buffer
enabled = refl

good : scripted.get_overlapped_result false read_once.0.port.world ≡ ((0, eight_bytes), eight_bytes)
unfolding read_once started read_complete handle_read_complete hand_over process
    process_and_write_cs16 start initiate_read enable_data on_pool put_pool begin_read acquire reset
    create new_buffers new_buffer
good = refl

short_read-continues_example :
    (t : Stream (List ℕ)) × (handle_read_complete scripted read_once.0 ≡ returns tt t)
    × (t.writes ≡ cs16_write accounted.reading 8 ∷ read_once.0.writes)
    × (t.total_read ≡ (read_once.0.total_read + 8) % 2 ^ 64)
    × (t.overlapped_buffer ≡ some 13)
    × (t.pool.free_buffers ≡ left.0)
short_read-continues_example =
    short_read-continues scripted read_once.0 accounted 13 left.0 eight_bytes eight_bytes short
      enabled left.1 good (omega arith)

-- A stream whose 16 buffers are all out.
abbrev numbers : List ℕ
numbers = 1 ∷ 2 ∷ 3 ∷ 4 ∷ 5 ∷ 6 ∷ 7 ∷ 8 ∷ 9 ∷ 10 ∷ 11 ∷ 12 ∷ 13 ∷ 14 ∷ 15 ∷ []

abbrev exhausted : Stream (List ℕ)
exhausted = record (fresh interleaved_short) {
  pool = record (create 16 (65536 * 4)) { free_buffers = [] };
  overlapped_buffer = some 0;
  writes = map (λ b. cs16_write b 8) numbers;
}

exhausted-Accounted : Accounted exhausted
unfolding in_writes buffers create new_buffers new_buffer
exhausted-Accounted =
    let (h, all) = new_pool-Held 16 (65536 * 4) in
    record {
      reading = 0;
      read_buffer = refl;
      held = record {
        valid = record {
          free_distinct = tt;
          list_distinct = h.valid.list_distinct;
          owned = λ q e. absurd (elem-nil q e);
          live = h.valid.live;
          below = h.valid.below;
        };
        shared = λ q. count-none q (0 ∷ numbers);
        number = refl;
      };
      all = all;
      kept = inl refl;
    }
  where
    count-none : (q : ℕ) (xs : List ℕ) → count q [] + count q xs ≡ count q xs
    count-none q xs = omega (arith, count-append q [] xs)

all_out : length (in_writes exhausted.writes) ≡ 15
unfolding in_writes buffers
all_out = refl

short_read-exhausted_example : handle_read_complete scripted exhausted ≡ undefined
short_read-exhausted_example =
    short_read-exhausted scripted exhausted exhausted-Accounted eight_bytes eight_bytes refl refl
      all_out refl (omega arith)

-- A stream of format CF64 with its first read under way.
abbrev fourteen_down : List ℕ
fourteen_down = 14 ∷ 13 ∷ 12 ∷ 11 ∷ 10 ∷ 9 ∷ 8 ∷ 7 ∷ 6 ∷ 5 ∷ 4 ∷ 3 ∷ 2 ∷ 1 ∷ 0 ∷ []

wide : (t : Stream (List ℕ)) × (initiate_read scripted (fresh complex_double) ≡ returns tt t)
unfolding initiate_read enable_data on_pool put_pool begin_read acquire reset create new_buffers
    new_buffer
wide = (_, refl)

wide-Started : Started (fresh complex_double) [] 15 fourteen_down wide.0
unfolding create new_buffers new_buffer
wide-Started = subst (Runs (λ a t. Started (fresh complex_double) [] 15 fourteen_down t)) wide.1 (
    initiate_read-Started scripted (fresh complex_double) [] 15 fourteen_down refl
      (new_pool-Held 16 (65536 * 4)).0 refl)

wide_world : wide.0.port.world ≡ eight_bytes
unfolding wide initiate_read enable_data on_pool put_pool begin_read acquire reset create
    new_buffers new_buffer
wide_world = refl

-- The scripted library, when it remembers no more bytes than a read asks for.
abbrev steady : Ftd3xx (List ℕ)
steady = record scripted { get_overlapped_result = λ wait w. ((0, eight_bytes), w) }

steady-AlwaysReads : AlwaysReads steady
steady-AlwaysReads w = (eight_bytes, w, refl, omega arith)

double_reads-exhaust_example :
    (t : Stream (List ℕ)) × (reads steady 15 wide.0 ≡ returns tt t)
    × (t.writes ≡ wide.0.writes)
    × (handle_read_complete steady t ≡ undefined)
double_reads-exhaust_example =
    double_reads-exhaust steady fourteen_down wide.0 (15 ∷ []) 15 steady-AlwaysReads wide-Started.6
      wide-Started.7 wide-Started.0 wide-Started.2 wide-Started.1
