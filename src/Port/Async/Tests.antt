-- ===== src/Port/Async/Tests.antt =====
-- The reader thread with the scripted library: started, and waiting in a ring that is full.
use ic7610iq.Prelude.{ℕ, ◌≡◌, refl, true, none, some, List, [], returns, ◌>>=◌}
use ic7610iq.Ring.Inv.{create-IsValid}
use ic7610iq.Port.{Port}
use ic7610iq.Port.Scripted.{scripted, ready}
use ic7610iq.Port.Device.{destroy_request}
use ic7610iq.Port.Device.Frame.{enable_iq_data-enabled}
use ic7610iq.Port.Async.{
  starting, looping, iq_async_start, start_enabled, start_thread, set_running, worker_start,
  worker_step, queue_read,
}
use ic7610iq.Port.Async.System.{
  System, no_turn, then_turn, spawn_turn, running_turn, reader_turn, SoundSystem, Turns-SoundSystem,
}
use ic7610iq.Port.Async.Destroy.{
  no_turn as no_destroy_turn, then_turn as then_destroy_turn, abort_turn, joining, Lingers,
  destroy-Lingers,
}

abbrev enabled : Port (List ℕ)
enabled = record (ready []) { iq_data_enabled = true }

abbrev no_reader : System (List ℕ)
no_reader = record { port = enabled; reader = none }

abbrev joinable : Port (List ℕ)
joinable = record enabled { joinable = true; running = true }

abbrev spawned : Port (List ℕ)
spawned = record enabled { joinable = true }

starts : iq_async_start scripted 0 enabled ≡ returns true joinable
unfolding iq_async_start
starts = rw (enable_iq_data-enabled scripted 0 enabled refl, ◌>>=◌) refl

may_start : start_enabled scripted 0 enabled ≡ returns true enabled
unfolding start_enabled
may_start = rw (enable_iq_data-enabled scripted 0 enabled refl) refl

spawns : start_thread scripted enabled ≡ returns tt spawned
unfolding start_thread
spawns = refl

runs_now : set_running scripted spawned ≡ returns tt joinable
unfolding set_running
runs_now = refl

loops : worker_step scripted starting spawned ≡ returns looping spawned
unfolding worker_step worker_start queue_read
loops = refl

-- The thread is made, has its first turn before `_running` is set, and is at its loop.
Turns-SoundSystem_example : SoundSystem (record { port = joinable; reader = some looping })
Turns-SoundSystem_example =
    Turns-SoundSystem scripted no_reader (record { port = joinable; reader = some looping })
      create-IsValid refl
      (then_turn
        (then_turn
          (then_turn no_turn (spawn_turn no_reader 0 enabled spawned refl may_start spawns))
          (reader_turn (record { port = spawned; reader = some starting }) starting looping spawned
            refl loops))
        (running_turn (record { port = spawned; reader = some looping }) joinable runs_now))

-- A port that is destroyed while its reader is at its loop.
asks : destroy_request scripted joinable ≡ returns tt joinable
unfolding destroy_request
asks = refl

destroy-Lingers_example : Lingers (record { port = joinable; reader = some looping }) joining
destroy-Lingers_example =
    destroy-Lingers scripted (record { port = joinable; reader = some looping })
      (record { port = joinable; reader = some looping }) joining (looping, refl, tt, (refl, refl))
      (then_destroy_turn no_destroy_turn
        (abort_turn (record { port = joinable; reader = some looping }) joinable asks))
