-- ===== src/Tests/Session.antt =====
-- A connection that is lost and reconnects, with waits from 1 to 128 seconds.
use aws_c_mqtt.Base.{◌≡◌, refl, true, false, [], ◌∷◌, if◌then◌else◌, leb, arith}
use aws_c_mqtt.Client.{connected, disconnected}
use aws_c_mqtt.TopicTree.{topic_tree_init}
use aws_c_mqtt.Session.{
  Session, World, on_interrupted, new_channel, schedule_reconnect, slot_remove, attempt_reconnect,
  reconnect, client_shutdown, interrupt,
}
use aws_c_mqtt.Session.BackOff.{attempts, doublings, attempts_lem}
use aws_c_mqtt.Session.Shutdown.{IsSettled, client_shutdown-IsSettled}

abbrev online : Session
online = record {
  state = connected;
  has_slot = true;
  clean_session = false;
  subscriptions = topic_tree_init;
  outstanding_requests = [];
  current = 1;
  min = 1;
  max = 128;
  next_attempt = 0;
  events = [];
}

abbrev refused : World
refused = record { ticks = 5; to_nanos = λ n. n; can_begin = false; user_disconnects = false }

abbrev served : World
served = record refused { can_begin = true }

lost_test :
    (client_shutdown refused 7 online).events
    ≡ slot_remove ∷ (on_interrupted 7 ∷ (new_channel ∷ (schedule_reconnect 6 ∷ [])))
unfolding client_shutdown interrupt attempt_reconnect reconnect
lost_test = refl

attempts_lem_example :
    (attempts (refused ∷ (refused ∷ [])) online).current
    ≡ (if leb (doublings 1 2) 128 then doublings 1 2 else 128)
attempts_lem_example = attempts_lem (refused ∷ (refused ∷ [])) online (omega arith) (omega arith)

client_shutdown-IsSettled_example : IsSettled (client_shutdown refused 7 online)
client_shutdown-IsSettled_example = client_shutdown-IsSettled refused 7 online

abbrev offline : Session
offline = record online { state = disconnected; has_slot = false }
