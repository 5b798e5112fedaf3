-- ===== src/Tools/Push.antt =====
-- Samples over a ZeroMQ socket: the loop of Tools/IC7610zmqPush.cpp. The socket is the library's.
pub mod Laws
pub mod Program
pub mod Typed
pub mod Rounds
pub mod Outcome
mod Tests
use ic7610iq.Prelude.{
  ℕ, ◌+◌, ◌*◌, ◌^◌, ◌&&◌, [], ℤ, pos, negsuc, Bool, true, false, Option, none, some, List, String,
  str_eq, ltb, if◌then◌else◌, replicate, memcpy,
}
use ic7610iq.Common.{bytes_per_sample}
use ic7610iq.Ring.{Step, blocks, faults, runs}
use ic7610iq.Port.{Port}
use ic7610iq.Port.Data.{iq_read_buf}
use ic7610iq.Tools.Net.{num_samples}

-- `multiplier`: the bytes that a sample is meant to take.
pub multiplier : String → ℕ
multiplier data_type =
    if str_eq data_type "CF32"
    then bytes_per_sample * 2
    else if str_eq data_type "CF64"
    then bytes_per_sample * 4
    else bytes_per_sample

-- A message of so many bytes for each of the 1024 samples, copied from `buf`.
pub message : ℕ → List ℕ → Option (List ℕ)
message size buf = memcpy (replicate (num_samples * size) 0) 0 buf 0 (num_samples * size)

-- `total_samples` and `loop_count`, which are `int`s.
pub record Counters : Type 0 where
  pub total_samples : ℕ
  pub loop_count : ℕ

abbrev pub no_samples : Counters
no_samples = record { total_samples = 0; loop_count = 0 }

-- After a round of `n` samples; `none` where an `int` overflows.
pub count_round : ℕ → Counters → Option Counters
count_round n c =
    if ltb (c.total_samples + n) (2 ^ 31) && ltb (c.loop_count + 1) (2 ^ 31)
    then some (record { total_samples = c.total_samples + n; loop_count = c.loop_count + 1 })
    else none

-- The test of the loop: the number of samples, if it goes on.
abbrev pub some_samples : ℤ → Option ℕ
some_samples (negsuc n) = none
some_samples (pos n) = if ltb 0 n then some n else none

module _ {W : Type 0} where
  -- The read of a round.
  pub push_read : List ℕ → Port W → Step (Option ℕ × List ℕ × Port W)
  push_read buf p = elim (iq_read_buf buf num_samples p) [
    | blocks ↦ blocks
    | faults ↦ faults
    | runs (out, samples, q) ↦ runs (some_samples samples, out, q)
  ]

  -- The message that is sent, before its samples are counted.
  send_message :
      (List ℕ → W → Option W) → List ℕ → Option Counters → Port W → Step (Counters × Port W)
  send_message send bytes counted p = elim (send bytes p.world) [
    | none ↦ blocks
    | some w ↦ elim counted [ none ↦ faults | some c ↦ runs (c, record p { world = w }) ]
  ]

  -- The rest of the round, with `n` samples. `send` is the push socket's: `none` is that it does not
  -- return, for it waits for a peer, or throws, which ends the program.
  pub push_send :
      (List ℕ → W → Option W) → String → List ℕ → ℕ → Counters → Port W → Step (Counters × Port W)
  unfolding message multiplier send_message
  push_send send data_type buf n c p = elim (message (multiplier data_type) buf) [
    | none ↦ faults
    | some bytes ↦ send_message send bytes (count_round n c) p
  ]
