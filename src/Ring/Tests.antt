-- ===== src/Ring/Tests.antt =====
-- A ring of four slots with one unread sample, in the third, and runs of its operations.
use ic7610iq.Prelude.{
  ℕ, ◌+◌, ◌*◌, ◌≤◌, ◌<◌, ◌≡◌, ◌⊎◌, refl, List, [], ◌∷◌, ◌++◌, take, drop, length, tabulate, get_or,
  arith,
}
use ic7610iq.Common.{bytes_per_sample}
use ic7610iq.Ring.{Ring, runs, available_data, available_space, writebuf, readbuf}
use ic7610iq.Ring.Inv.{IsValid, unread}
use ic7610iq.Ring.Stored.{source_byte}
use ic7610iq.Ring.Write.{writebuf-appends}
use ic7610iq.Ring.Split.{writebuf-split}
use ic7610iq.Ring.Read.{readbuf-takes}
use ic7610iq.Ring.Steps.Queue.{Simulates, queue_run, run-Simulates}
use ic7610iq.Ring.Steps.{Call, write, read, run, written, taken, Balanced, run-Balanced}

abbrev four_slots : Ring
four_slots = record {
  buff_size = 3;
  capacity = 4;
  buffer = 0 ∷ 0 ∷ 0 ∷ 0 ∷ 0 ∷ 0 ∷ 0 ∷ 0 ∷ 5 ∷ 6 ∷ 7 ∷ 8 ∷ 0 ∷ 0 ∷ 0 ∷ 0 ∷ [];
  head = 2;
  tail = 3;
}

abbrev two_samples : List ℕ
two_samples = 11 ∷ 12 ∷ 13 ∷ 14 ∷ 21 ∷ 22 ∷ 23 ∷ 24 ∷ []

abbrev room_for_one : List ℕ
room_for_one = 0 ∷ 0 ∷ 0 ∷ 0 ∷ []

four_slots-IsValid : IsValid four_slots
four_slots-IsValid = record {
  some_room = omega arith;
  small = omega arith;
  head_in = omega arith;
  tail_in = omega arith;
  storage = refl;
}

two_fit : 2 ≤ available_space four_slots
unfolding available_space available_data
two_fit = omega arith

one_unread : 1 ≤ available_data four_slots
unfolding available_data
one_unread = omega arith

writebuf-appends_example :
    (r' : Ring) × (writebuf two_samples (2 * bytes_per_sample) four_slots
      ≡ runs (2 * bytes_per_sample, r'))
    × IsValid r'
    × (unread r'
        ≡ unread four_slots
          ++ tabulate (2 * bytes_per_sample) (λ j. get_or two_samples (source_byte four_slots j) 0))
writebuf-appends_example =
    writebuf-appends four_slots two_samples 2 four_slots-IsValid (omega arith) two_fit

readbuf-takes_example :
    (out : List ℕ) × (r' : Ring) × (readbuf room_for_one 1 four_slots ≡ runs (out, 1, r'))
    × IsValid r'
    × (unread r' ≡ drop (1 * bytes_per_sample) (unread four_slots))
    × (((2 + 1 ≤ 4) × (out ≡ room_for_one))
        ⊎ ((4 < 2 + 1)
            × (length out ≡ 4)
            × (take (1 * bytes_per_sample) out ≡ take (1 * bytes_per_sample) (unread four_slots))))
readbuf-takes_example =
    readbuf-takes four_slots room_for_one 1 four_slots-IsValid one_unread (omega arith)

abbrev two_calls : List Call
two_calls = write two_samples 2 ∷ read room_for_one 1 ∷ []

run-Balanced_example :
    Balanced
      (taken two_calls)
      (available_data four_slots + written two_calls)
      (run two_calls four_slots)
run-Balanced_example =
    run-Balanced two_calls four_slots (omega arith, (omega arith, tt)) four_slots-IsValid

-- The unread sample leaves, and one comes in at the end of the storage.
abbrev in_and_out : List Call
in_and_out = read room_for_one 1 ∷ write two_samples 1 ∷ []

run-Simulates_example :
    Simulates (run in_and_out four_slots) (queue_run 3 in_and_out (unread four_slots))
unfolding written
run-Simulates_example =
    run-Simulates in_and_out four_slots (omega arith, (omega arith, tt)) four_slots-IsValid
      (omega arith)

abbrev empty_ring : Ring
empty_ring = record { buff_size = 3; capacity = 4; buffer = four_slots.buffer; head = 0; tail = 0 }

empty_ring-IsValid : IsValid empty_ring
empty_ring-IsValid = record {
  some_room = omega arith;
  small = omega arith;
  head_in = omega arith;
  tail_in = omega arith;
  storage = refl;
}

room_for_two : 1 + 1 ≤ available_space empty_ring
unfolding available_space available_data
room_for_two = omega arith

writebuf-split_example :
    (first : Ring) × (both : Ring) × (writebuf two_samples (1 * bytes_per_sample) empty_ring
      ≡ runs (1 * bytes_per_sample, first))
    × (writebuf (drop (1 * bytes_per_sample) two_samples) (1 * bytes_per_sample) first
        ≡ runs (1 * bytes_per_sample, both))
    × (writebuf two_samples ((1 + 1) * bytes_per_sample) empty_ring
        ≡ runs ((1 + 1) * bytes_per_sample, both))
writebuf-split_example =
    writebuf-split empty_ring two_samples 1 1 empty_ring-IsValid (omega arith) room_for_two
      (omega arith) (omega arith)
