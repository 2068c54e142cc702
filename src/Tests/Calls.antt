-- ===== src/Tests/Calls.antt =====
-- The calls of the user on a connection that is up, and a message that is published to it.
use aws_c_mqtt.Base.{
  ℕ, ◌+◌, ◌%◌, ◌^◌, ◌<◌, ◌≡◌, refl, true, false, List, [], ◌∷◌, none, some, arith,
}
use aws_c_mqtt.Bytes.Simple.{simple, simple-IsByteOps}
use aws_c_mqtt.Packets.Filters.{growing}
use aws_c_mqtt.Packets.Subscribe.{SubscribePacket}
use aws_c_mqtt.Packets.Subscribe.Wire.{IsSubscribe, subscribe_bytes}
use aws_c_mqtt.Topics.{
  slash, is_valid_topic_filter, is_valid_topic, is_valid, valid_parts, part_ok, contains,
}
use aws_c_mqtt.TopicTree.{Part, topic_tree_init, topic_node_new, node_at, find}
use aws_c_mqtt.TopicTree.Owners.{IsNew, owned, are_held, are_distinct, are_apart, is_among}
use aws_c_mqtt.TopicTree.Subscribe.{table_of, subscribe}
use aws_c_mqtt.Client.Tasks.{TopicSubscription}
use aws_c_mqtt.Client.{
  IsOpen, connected, send_message, schedule_retry, schedule_ping, Connection, ChannelOps,
  state_number, find_request,
}
use aws_c_mqtt.Requests
use aws_c_mqtt.Requests.{
  request_ongoing, request_error, run_ready, new_request, mark_initiated, is_connected,
}
use aws_c_mqtt.Subscribing
use aws_c_mqtt.Subscribing.{subscribe_send, unsubscribe_send, subscriber_of}
use aws_c_mqtt.Subscribing.Filling
use aws_c_mqtt.UserCalls.{
  Allocated, new_topic, connection_subscribe, connection_unsubscribe, connection_publish,
  on_time_to_ping,
}
use aws_c_mqtt.UserCalls.Subscribed.{IsServed, connection_subscribe-sends}
use aws_c_mqtt.UserCalls.Pinged.{pingreq_bytes, on_time_to_ping_lem}
use aws_c_mqtt.UserCalls.Refused.{IsTopicFilter, IsTopicName, calls_refused}
use aws_c_mqtt.Topics.Wildcards.{is_valid_topic_lem, is_valid_topic_filter_lem}
use aws_c_mqtt.Sending.{PublishTask}
use aws_c_mqtt.Tests.Topics.{simple_split, simple_split-IsSplitOps}
use aws_c_mqtt.Tests.Stream.{idle}

abbrev pub roomy : ChannelOps
roomy = record {
  acquire_message = λ n. some (record { buffer = []; capacity = n + 2 });
  can_send = λ bs. true;
  current_clock_time = 5;
  can_allocate = λ n. true;
}

pub roomy-IsOpen : IsOpen roomy
roomy-IsOpen = record { sends = λ bs. refl; gives = λ size small. (size + 2, refl, omega arith) }

abbrev pub around : Subscribing.Surroundings
around = record {
  split = simple_split;
  io = simple;
  channel = roomy;
  subscriptions = growing;
  filters = growing;
  actions = λ n. growing;
  can_allocate = true;
}

around-IsReady : Filling.IsReady around
around-IsReady = record {
  io_law = simple-IsByteOps;
  static = λ n. record { fits = λ xs x h. refl };
  grows = λ xs x. refl;
  allocates = refl;
  is_open = roomy-IsOpen;
}

abbrev pub pool : Requests.Surroundings
pool = record { can_acquire = true; can_put = true; is_callers_thread = true }

pub pool-IsServed : IsServed pool
pool-IsServed = record { acquires = refl; puts = refl; on_thread = refl }

abbrev pub up : Connection
up = record idle { state = connected; pending_requests = [] }

-- A subscribe to `a/+`.
abbrev pub a_plus : TopicSubscription
a_plus = record {
  topic = 97 ∷ 47 ∷ 43 ∷ [];
  qos = 1;
  on_publish = 20;
  on_cleanup = 21;
  on_publish_ud = 22;
}

abbrev pub at : Allocated
at = record { task_arg = 7; task_topic = 8; filter = 9 }

a_plus_valid : is_valid_topic_filter simple_split a_plus.topic ≡ true
unfolding is_valid_topic_filter is_valid valid_parts part_ok contains
a_plus_valid = refl

a_plus-IsNew : IsNew (simple_split.split a_plus.topic slash) up.subscriptions
unfolding owned are_held are_distinct are_apart topic_tree_init topic_node_new node_at find
a_plus-IsNew = record {
  in_order = record { distinct = refl; alive = refl; held = refl };
  no_owner = refl;
}

connection_subscribe-sends_example :
    (id : ℕ) × (d : Connection) × (p : SubscribePacket) × (connection_subscribe around pool at
        a_plus up
      ≡ (id, d))
    × (0 < id)
    × (find_request id [] ≡ none)
    × IsSubscribe p
    × (p.packet_identifier ≡ id)
    × (p.topic_filters ≡ record { topic_filter = a_plus.topic; qos = 1 } ∷ [])
    × (d.events
        ≡ send_message (subscribe_bytes p) ∷ schedule_retry id ((5 + 3000000000) % 2 ^ 64) ∷ [])
    × ((q : List Part)
        → table_of d.subscriptions q
          ≡ subscribe
              (simple_split.split a_plus.topic slash)
              (subscriber_of (new_topic at a_plus))
              (table_of up.subscriptions)
              q)
    × (find_request id d.outstanding_requests ≡ some (mark_initiated (new_request id true)))
unfolding state_number is_among topic_tree_init
connection_subscribe-sends_example =
    connection_subscribe-sends around around-IsReady pool pool-IsServed at a_plus up a_plus_valid
      (omega arith) (omega arith) (omega arith) (omega arith) (omega arith) a_plus-IsNew refl refl
      (omega arith)

on_time_to_ping_lem_example :
    (id : ℕ) × (0 < id)
    × (find_request id [] ≡ none)
    × ((on_time_to_ping around pool run_ready up).events
        ≡ send_message pingreq_bytes
          ∷ schedule_retry id ((5 + 3000000000) % 2 ^ 64)
          ∷ schedule_ping 60
          ∷ [])
    × (find_request id (on_time_to_ping around pool run_ready up).outstanding_requests
        ≡ some (mark_initiated (new_request id false)))
unfolding state_number
on_time_to_ping_lem_example =
    on_time_to_ping_lem around simple-IsByteOps roomy-IsOpen pool pool-IsServed up refl
      (omega arith)

-- `a#` is no topic filter, and `+` no topic name.
abbrev misplaced : TopicSubscription
misplaced = record a_plus { topic = 97 ∷ 35 ∷ [] }

abbrev to_plus : PublishTask
to_plus = record { topic = 43 ∷ []; qos = 0; retain = false; payload = [] }

misplaced_refused : ¬ IsTopicFilter simple_split misplaced.topic
unfolding is_valid_topic_filter is_valid valid_parts part_ok contains
misplaced_refused h =
    cc ((is_valid_topic_filter_lem simple_split simple_split-IsSplitOps misplaced.topic).1 h)

plus_refused : ¬ IsTopicName to_plus.topic
unfolding is_valid_topic is_valid valid_parts part_ok contains
plus_refused h = cc ((is_valid_topic_lem simple_split simple_split-IsSplitOps to_plus.topic).1 h)

calls_refused_example :
    (connection_subscribe around pool at misplaced up ≡ (0, up))
    × (connection_unsubscribe around pool 5 misplaced.topic up ≡ (0, up))
    × (connection_publish around pool 5 to_plus up ≡ (0, up))
calls_refused_example =
    calls_refused around simple_split-IsSplitOps pool at misplaced 5 to_plus up misplaced_refused
      plus_refused
