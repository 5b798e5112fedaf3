-- ===== src/Tools/Server/Tests.antt =====
-- A server with one client on the scripted library, and with the ring at its bounds.
use ic7610iq.Prelude.{
  ℕ, ◌*◌, ◌/◌, ◌<◌, ◌≡◌, refl, true, none, some, List, [], ◌∷◌, length, length-replicate, replicate,
  All, arith,
}
use ic7610iq.Common.{bytes_per_sample}
use ic7610iq.Ring.{Ring, available_space, available_data}
use ic7610iq.Ring.Inv.{IsValid}
use ic7610iq.Port.{Port}
use ic7610iq.Port.Scripted.{scripted, ready}
use ic7610iq.Port.Data.{iq_clear_read_buf}
use ic7610iq.Port.Async.{starting, waiting, finished}
use ic7610iq.Tools.Net.{Net, num_samples, new_buf}
use ic7610iq.Tools.Server.{
  arrived, spawned, serving, leaving, stopped, Server, ThreadTurns, no_turn,
}
use ic7610iq.Tools.Server.Stuck.{AtEnd, handle_client-waits}
use ic7610iq.Tools.Server.Starved.{Idle, Starved, early_reader-Starved}

-- A network that takes everything.
abbrev wires : Net (List ℕ)
wires = record {
  get_addresses = λ host port w. (none, w);
  open_socket = λ addr w. (none, w);
  connect_socket = λ sfd addr w. (true, w);
  close_socket = λ sfd w. w;
  send = λ socket bytes w. (true, w);
}

-- 1024 unread samples at the front of the storage.
abbrev filled : Ring
filled = record {
  buff_size = 2047;
  capacity = 2048;
  buffer = replicate (2048 * bytes_per_sample) 7;
  head = 0;
  tail = 1024;
}

filled-IsValid : IsValid filled
filled-IsValid = record {
  some_room = omega arith;
  small = omega arith;
  head_in = omega arith;
  tail_in = omega arith;
  storage = length-replicate {A = ℕ} _ 7;
}

abbrev quiet : Port (List ℕ)
quiet = record (ready []) { iq_data_enabled = true; iq_buffer = filled }

abbrev made : Port (List ℕ)
made = record quiet { joinable = true }

abbrev up : Port (List ℕ)
up = record made { running = true }

-- A ring of four slots with no room for the sample that the reader holds.
abbrev full : Ring
full = record { buff_size = 3; capacity = 4; buffer = replicate 16 7; head = 0; tail = 3 }

abbrev one_sample : List ℕ
one_sample = 1 ∷ 2 ∷ 3 ∷ 4 ∷ []

no_room : available_space full < length one_sample / bytes_per_sample
unfolding available_space available_data
no_room = omega arith

abbrev full_server : Server (List ℕ)
full_server = record {
  system = record { port = record up { iq_buffer = full }; reader = some (waiting one_sample) };
  clients = (3, leaving) ∷ [];
}

handle_client-waits_example :
    AtEnd 3 full_server.clients × (full_server.system.reader ≡ some (waiting one_sample))
handle_client-waits_example =
    handle_client-waits scripted wires 0 full_server full_server 3 one_sample refl refl refl no_room
      no_turn

little : available_data full < num_samples
unfolding available_data
little = omega arith

abbrev starting_server : Server (List ℕ)
starting_server = record {
  system = record { port = record made { iq_buffer = full }; reader = some starting };
  clients = (3, spawned) ∷ [];
}

early_reader-Starved_example :
    (t : Server (List ℕ)) × ThreadTurns scripted wires 0 starting_server t
    × Starved t.system
    × All Idle t.clients
early_reader-Starved_example =
    early_reader-Starved scripted wires 0 starting_server 3 [] refl tt refl refl little

abbrev starved : Server (List ℕ)
starved = record {
  system = record { port = record up { iq_buffer = full }; reader = some finished };
  clients = (3, serving new_buf) ∷ [];
}

abbrev newcomer : Server (List ℕ)
newcomer = record starved { clients = (5, arrived) ∷ (3, serving new_buf) ∷ [] }

abbrev cleared : Port (List ℕ)
cleared = iq_clear_read_buf quiet

abbrev last_one : Server (List ℕ)
last_one = record {
  system = record { port = quiet; reader = none };
  clients = (3, stopped) ∷ (4, serving new_buf) ∷ [];
}
