-- ===== src/Tools/Tests.antt =====
-- The programs with numbers that are all 7300000 or 100, a network that takes everything, and a
-- port whose ring has 1024 unread samples.
use ic7610iq.Prelude.{
  ℕ, ◌+◌, ◌*◌, ◌≤◌, ◌<◌, ◌≡◌, ◌⊎◌, inl, refl, pos, true, some, List, [], ◌∷◌, leb, length-replicate,
  replicate, take, drop, String, arith,
}
use ic7610iq.Common.{bytes_per_sample}
use ic7610iq.Ring.{Ring, runs, available_data}
use ic7610iq.Ring.Inv.{IsValid, unread}
use ic7610iq.Port.{Port}
use ic7610iq.Port.Scripted.{ready}
use ic7610iq.Tools.{
  Letter, option_f, option_t, option_v, Numbers, default_settings, parse, push_option,
}
use ic7610iq.Tools.Options.{Known, Gives, parse-Known}
use ic7610iq.Tools.Net.{Net, num_samples, new_buf, send_round}
use ic7610iq.Tools.Net.Laws.{send_round-sends}

abbrev numbers : Numbers
numbers = record {
  to_frequency = λ s. some 7300000;
  to_gain = λ s. some (pos 100);
  to_int = λ s. some (pos 100);
}

abbrev three_options : List (Letter × String)
three_options = (option_f, "7300000") ∷ (option_t, "CF32") ∷ (option_v, "sub") ∷ []

parse-Known_example : Gives Known (parse (push_option numbers) three_options default_settings)
parse-Known_example = parse-Known numbers three_options default_settings (omega arith, inl refl)

-- Every address gives socket 3, and every connection to an even one succeeds.
abbrev network : Net (List ℕ)
network = record {
  get_addresses = λ host port w. (some (1 ∷ 2 ∷ []), w);
  open_socket = λ addr w. (some 3, w);
  connect_socket = λ sfd addr w. (leb 2 addr, w);
  close_socket = λ sfd w. w;
  send = λ socket bytes w. (true, w);
}

-- 1024 unread samples at the front of the storage.
abbrev filled : Ring
filled = record {
  buff_size = 2047;
  capacity = 2048;
  buffer = replicate (2048 * bytes_per_sample) 7;
  head = 0;
  tail = 1024;
}

filled-IsValid : IsValid filled
filled-IsValid = record {
  some_room = omega arith;
  small = omega arith;
  head_in = omega arith;
  tail_in = omega arith;
  storage = length-replicate {A = ℕ} _ 7;
}

enough : num_samples ≤ available_data filled
unfolding available_data
enough = omega arith

abbrev busy : Port (List ℕ)
busy = record (ready []) { iq_buffer = filled }

send_round-sends_example :
    (block : List ℕ) × (q : Port (List ℕ)) × (send_round network 3 new_buf busy
      ≡ runs (true, block, q))
    × IsValid q.iq_buffer
    × (unread q.iq_buffer ≡ drop (num_samples * bytes_per_sample) (unread filled))
    × (((0 + num_samples ≤ 2048) × (block ≡ new_buf))
        ⊎ ((2048 < 0 + num_samples)
            × (block ≡ take (num_samples * bytes_per_sample) (unread filled))))
send_round-sends_example =
    send_round-sends network 3 new_buf busy filled-IsValid enough (length-replicate {A = ℕ} _ 0)
