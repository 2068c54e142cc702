-- ===== src/Tests/Options.antt =====
-- The CONNECT of a connection with a will and a login, and how a connection is closed.
use aws_c_mqtt.Base.{◌+◌, ◌≡◌, refl, true, false, [], ◌∷◌, none, some, arith}
use aws_c_mqtt.Bytes.{ok}
use aws_c_mqtt.Bytes.Simple.{simple, simple-IsByteOps}
use aws_c_mqtt.Packets.Connect.{
  ConnectPacket, connect_init, connect_add_will, connect_add_credentials, add_username,
  add_password,
}
use aws_c_mqtt.Packets.Connect.Wire.{connect_bytes}
use aws_c_mqtt.Client.{disconnecting, state_number, send_message, shutdown_complete, emit}
use aws_c_mqtt.Options
use aws_c_mqtt.Options.{string, connect_packet, add_will_of, add_login_of, client_init}
use aws_c_mqtt.Options.Packet.{AreValid, Carries, fits_string, fits_will}
use aws_c_mqtt.Options.Sent.{client_init-Carries}
use aws_c_mqtt.Closing.{
  write_direction, handler_shutdown, disconnect_bytes, handler_shutdown_lem, Closing,
  disconnect_task, run_all_left, disconnect_task_lem,
}
use aws_c_mqtt.Tests.Stream.{idle}
use aws_c_mqtt.Tests.Calls.{roomy, roomy-IsOpen}

abbrev options : Options.Options
options = record {
  client_id = 99 ∷ [];
  clean_session = true;
  keep_alive_time_secs = 60;
  will = record { topic = some (119 ∷ []); qos = 1; retain = false; payload = 98 ∷ 121 ∷ [] };
  username = string (117 ∷ []);
  password = string (112 ∷ []);
}

options_valid : AreValid options
options_valid = record {
  id_fits = omega arith;
  has_id = λ e. cc;
  has_username = λ e. cc;
  keep_alive_lt = omega arith;
  will_fits = fits_will options.will (119 ∷ []) refl (omega arith) (omega arith) (omega arith);
  username_fits = fits_string (117 ∷ []) (omega arith);
  password_fits = fits_string (112 ∷ []) (omega arith);
}

-- Its CONNECT.
abbrev packet : ConnectPacket
packet =
    connect_add_credentials
      (connect_add_will (connect_init (99 ∷ []) true 60) (119 ∷ []) 1 false (98 ∷ 121 ∷ []))
      (117 ∷ []) (112 ∷ [])

client_init-Carries_example :
    Carries options packet
    × (client_init simple roomy true options idle
        ≡ ok tt (emit (send_message (connect_bytes packet)) (record idle { has_slot = true })))
unfolding connect_packet add_will_of add_login_of connect_add_credentials connect_add_will
    connect_init add_username add_password
client_init-Carries_example =
    client_init-Carries simple simple-IsByteOps roomy options packet
      (3 + packet.fixed_header.remaining_length + 2) idle options_valid refl (omega arith)
      (λ bs. refl) refl (omega arith)

handler_shutdown_lem_example :
    handler_shutdown simple roomy write_direction 0 false idle
    ≡ record idle { events = send_message disconnect_bytes ∷ shutdown_complete ∷ [] }
handler_shutdown_lem_example =
    handler_shutdown_lem simple simple-IsByteOps roomy roomy-IsOpen write_direction 0 false idle

-- A reconnect task that the event loop has.
abbrev scheduled : Closing
scheduled = record {
  state = disconnecting;
  reconnect_task = some (record { has_connection = true; is_scheduled = true });
  left_scheduled = [];
  released = 0;
  channel_shutdowns = [];
}

disconnect_task_lem_example :
    ((disconnect_task 0 scheduled).reconnect_task ≡ none)
    × ((disconnect_task 0 scheduled).channel_shutdowns ≡ 0 ∷ [])
    × ((t : Closing) × (run_all_left
            (disconnect_task 0 scheduled).left_scheduled
            (disconnect_task 0 scheduled)
          ≡ some t)
        × (t.released ≡ 1))
unfolding state_number
disconnect_task_lem_example = disconnect_task_lem 0 scheduled refl refl
