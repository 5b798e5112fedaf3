-- ===== src/Tools/Push/Laws.antt =====
-- What zmqPush sends.
use ic7610iq.Prelude.{
  ℕ, ◌*◌, ◌<◌, ◌≡◌, ◌⊎◌, inl, inr, refl, none, Option, List, String, length, memcpy-none, arith,
}
use ic7610iq.Common.{bytes_per_sample}
use ic7610iq.Ring.{faults}
use ic7610iq.Port.{Port}
use ic7610iq.Tools.Net.{num_samples}
use ic7610iq.Tools.Push.{multiplier, message, Counters, push_send}

message-none : (size : ℕ) (buf : List ℕ) → length buf < num_samples * size → message size buf ≡ none
unfolding message
message-none size buf h = memcpy-none _ buf (num_samples * size) h

wide :
    (data_type : String)
    → (data_type ≡ "CF32") ⊎ (data_type ≡ "CF64")
    → bytes_per_sample < multiplier data_type
unfolding multiplier
wide data_type (inl e) = rw e (omega arith)
wide data_type (inr e) = rw e (omega arith)

module _ {W : Type 0} where
  -- With the type CF32 or CF64, the message copies from outside a buffer of four bytes a sample, and
  -- nothing is sent.
  pub push_send-faults :
      (send : List ℕ → W → Option W) (data_type : String) (buf : List ℕ) (n : ℕ) (c : Counters)
      (p : Port W)
      → (data_type ≡ "CF32") ⊎ (data_type ≡ "CF64")
      → length buf ≡ num_samples * bytes_per_sample
      → push_send send data_type buf n c p ≡ faults
  unfolding push_send
  push_send-faults send data_type buf n c p t size =
      let none_left : message (multiplier data_type) buf ≡ none =
        message-none (multiplier data_type) buf (omega (arith, size, wide data_type t)) in
      rw (none_left, push_send) refl
