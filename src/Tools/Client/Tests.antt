-- ===== src/Tools/Client/Tests.antt =====
-- TCPClient on a library that gives whole blocks and a network that takes nothing, from its start to its
-- loop, and on to the join with its reader.
use ic7610iq.Prelude.{
  ℕ, ◌≡◌, ◌⊎◌, refl, ◌≤◌, replicate, length-replicate, arith, true, false, none, some, List, [],
  ◌∷◌, returns, String,
}
use ic7610iq.Bcd.{read_bcd}
use ic7610iq.Frame.{put_byte, put_bytes, pad, civ_frame, iq_frame}
use ic7610iq.Port.{Port, new_port}
use ic7610iq.Port.Command.{send_iq_command, read_iq_reply, icom_iq_command}
use ic7610iq.Port.Device.{init, get_device_serial_num, set_timeout, enable_iq_data}
use ic7610iq.Port.Levels.{get_rf_gain, gain_value}
use ic7610iq.Port.Async.{starting, looping, reading, worker_test, start_enabled, worker_step}
use ic7610iq.Port.Async.Turns.{worker_step-starting, start_thread_lem, set_running_lem}
use ic7610iq.Port.Async.System.{System}
use ic7610iq.Port.Scripted.{scripted}
use ic7610iq.Common.{ft_ok}
use ic7610iq.Driver.{Ftd3xx}
use ic7610iq.Ring.{Ring, available_data}
use ic7610iq.Ring.Inv.{IsValid, create-IsValid, available_space-create}
use ic7610iq.Port.Async.Rounds.{worker_read-adds}
use ic7610iq.Tools.{Letter, option_v, Settings, parse, server_option, with_data_type, prepare}
use ic7610iq.Tools.Net.{Net, num_samples, new_buf, attempt, connect_posix, tcp_connect}
use ic7610iq.Tools.Scripted.{
  gain_reply, no_numbers, wires, opened, enabled, thread_made, running, with_gain,
}
use ic7610iq.Tools.Programs.{
  connected, connect_client, client_operands, with_client_settings, client_prepare,
}
use ic7610iq.Ring.{runs}
use ic7610iq.Tools.Net.{send_round}
use ic7610iq.Tools.Net.Laws.{send_round-sends}
use ic7610iq.Tools.Server.{arrived, serving, leaving, joining, spawn, announce, last_round, request}
use ic7610iq.Tools.Client.{MainTurns, no_turn, then_turn, main_turn, worker_turn, MainRun, ran}
use ic7610iq.Port.Async.{stop_request}
use ic7610iq.Port.Async.Stopping.{stop_request-returns}
use ic7610iq.Tools.Client.Settled.{NoReader, HasReader, main-Settled}

-- Every block that the reader gets has 1024 samples.
abbrev block : List ℕ
block = replicate 4096 7

abbrev whole_blocks : Ftd3xx (List ℕ)
whole_blocks = record scripted { get_overlapped_result = λ wait w. ((ft_ok, block), w) }

abbrev deaf : Net (List ℕ)
deaf = record wires { send = λ socket bytes w. (false, w) }

abbrev sub_receiver : List (Letter × String)
sub_receiver = (option_v, "sub") ∷ []

abbrev settings : Settings
settings = record with_gain { vfo = 0x01; data_type = "CS16" }

abbrev operands : List String
operands = "localhost" ∷ "6789" ∷ []

prepares :
    client_prepare no_numbers whole_blocks deaf
      (connect_posix deaf)
      sub_receiver
      operands
      (new_port false gain_reply)
    ≡ returns (connected 3 settings) opened
unfolding client_prepare with_client_settings client_operands connect_client tcp_connect
    connect_posix attempt parse server_option with_data_type prepare init get_device_serial_num
    set_timeout get_rf_gain gain_value icom_iq_command send_iq_command read_iq_reply iq_frame
    civ_frame pad put_bytes put_byte read_bcd
prepares = refl

enables : start_enabled whole_blocks 0x01 opened ≡ returns true enabled
unfolding start_enabled enable_iq_data icom_iq_command send_iq_command read_iq_reply iq_frame
    civ_frame pad put_bytes put_byte
enables = refl

abbrev in_loop : System (List ℕ)
in_loop = record { port = running; reader = some starting }

at_loop :
    MainTurns whole_blocks deaf 0x01 3
      (record { port = opened; reader = none })
      arrived
      in_loop
      (serving new_buf)
at_loop =
    then_turn
      (then_turn no_turn (
        main_turn _ _ _
          (spawn enabled thread_made refl enables (start_thread_lem whole_blocks enabled))))
      (main_turn _ _ _ (announce running (set_running_lem whole_blocks thread_made)))

abbrev looping_port : Port (List ℕ)
looping_port = record running { world = (worker_step-starting whole_blocks running).0 }

tests : worker_step whole_blocks looping looping_port ≡ returns reading looping_port
unfolding worker_step worker_test
tests = refl

-- The first block of the reader is in the ring.
unfoldable stores :
    (r : Ring) × (w : List ℕ) × (worker_step whole_blocks reading looping_port
      ≡ returns looping (record looping_port { iq_buffer = r; world = w }))
    × IsValid r
    × (num_samples ≤ available_data r)
unfolding worker_step
stores =
    let (r, w, e, v, more) =
      worker_read-adds whole_blocks looping_port block num_samples looping_port.world refl
        (length-replicate {A = ℕ} 4096 7) (omega arith)
        (omega (arith, length-replicate {A = ℕ} 4096 7)) create-IsValid
        (omega (arith, available_space-create)) in
    (r, w, e, v, omega (arith, more))

abbrev stored_port : Port (List ℕ)
stored_port = record looping_port { iq_buffer = stores.0; world = stores.1 }

-- The round whose send fails.
unfoldable sends :
    (out : List ℕ) × (q : Port (List ℕ)) × (send_round deaf 3 new_buf stored_port
      ≡ runs (false, out, q))
sends =
    let (out, q, e, v, left_over, copied) =
      send_round-sends deaf 3 new_buf stored_port stores.3 stores.4
        (length-replicate {A = ℕ} _ 0) in
    (out, q, e)

abbrev after_loop : System (List ℕ)
after_loop = record { port = sends.1; reader = some looping }

unfoldable asks : (p : Port (List ℕ)) × (stop_request whole_blocks after_loop.port ≡ returns tt p)
asks = stop_request-returns whole_blocks after_loop.port

abbrev in_join : System (List ℕ)
in_join = record { port = asks.0; reader = some looping }

joined_run :
    MainRun no_numbers whole_blocks deaf
      (connect_posix deaf)
      sub_receiver
      operands
      gain_reply
      in_join
      joining
joined_run = ran settings 3 opened prepares (
    then_turn
      (then_turn
        (then_turn
          (then_turn
            (then_turn at_loop (
              worker_turn (serving new_buf) starting looping looping_port refl
                (worker_step-starting whole_blocks running).1))
            (worker_turn (serving new_buf) looping reading looping_port refl tests))
          (worker_turn (serving new_buf) reading looping stored_port refl stores.2))
        (main_turn (serving new_buf) leaving after_loop
          (last_round new_buf sends.0 sends.1 sends.2)))
      (main_turn leaving joining in_join (request asks.0 asks.1)))

main-Settled_example : NoReader in_join ⊎ HasReader false in_join
main-Settled_example =
    main-Settled no_numbers whole_blocks deaf (connect_posix deaf) sub_receiver operands gain_reply
      in_join joining joined_run
