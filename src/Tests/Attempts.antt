-- ===== src/Tests/Attempts.antt =====
-- Attempts at a subscribe and an unsubscribe, and what they leave.
use aws_c_mqtt.Base.{
  ℕ, ◌≡◌, ◌≢◌, ◌↔◌, refl, true, false, List, [], ◌∷◌, ◌++◌, map, none, if◌then◌else◌, bytes_eq,
  arith, All, subst, sym,
}
use aws_c_mqtt.Bytes.{ok, use_after_free}
use aws_c_mqtt.Bytes.Simple.{simple, simple-IsByteOps}
use aws_c_mqtt.FixedHeader.Wire.{header_bytes, length_bytes}
use aws_c_mqtt.Packets.Ack.{puback_init, ack_init, ack_bytes}
use aws_c_mqtt.Packets.Filters.{growing}
use aws_c_mqtt.Packets.Publish.{publish_init, publish_flags, publish_qos}
use aws_c_mqtt.Packets.Publish.RoundTrip.{publish_bytes}
use aws_c_mqtt.Packets.Subscribe.{subscribe_init, subscribe_add_topic}
use aws_c_mqtt.Topics.{slash}
use aws_c_mqtt.TopicTree.{Part, topic_tree_init, topic_node_new, find, put, node_at, update_at}
use aws_c_mqtt.TopicTree.Action.{
  IsStatic, Action, transaction_insert, transaction_insert_parts, insert_parts, push_action,
}
use aws_c_mqtt.TopicTree.Commit.{action_commit, write_node}
use aws_c_mqtt.TopicTree.Owners.{IsRemovable, owned, are_held, are_distinct, are_apart, is_among}
use aws_c_mqtt.TopicTree.Transaction.{commit_all, transaction_commit, topic_tree_insert}
use aws_c_mqtt.TopicTree.Fields.{path_eq}
use aws_c_mqtt.TopicTree.Subscriptions.{subscription_at}
use aws_c_mqtt.TopicTree.Publish.{Delivery, topic_tree_publish, publish_parts}
use aws_c_mqtt.TopicTree.Matching.{IsIn, Reached}
use aws_c_mqtt.TopicTree.Subscribe.{table_of}
use aws_c_mqtt.Client.Tasks.{write_subscribe, write_topic, write_unsubscribe}
use aws_c_mqtt.Client.{send_message, Connection, ChannelOps}
use aws_c_mqtt.Handlers.{packet_handler_publish}
use aws_c_mqtt.Requests.{request_ongoing, request_error}
use aws_c_mqtt.Subscribing
use aws_c_mqtt.Subscribing.{
  subscribe_send, subscribe_topics, subscribe_topic, send_packet, unsubscribe_send, subscriber_of,
}
use aws_c_mqtt.Subscribing.Delivering.{
  deliver_to_subscriptions, user_call, IsCallable, packet_handler_publish-delivers,
}
use aws_c_mqtt.Subscribing.Replay.{
  Call, unsubscribing, run_call, run_calls, replay, run_calls-replay, AreSafe, safe_unsubscribe,
  safe_resend, safe_none, safe_more,
}
use aws_c_mqtt.Subscribing.Trees.{subscribe_send-failed}
use aws_c_mqtt.Subscribing.Unsubscribes.{unsubscribe_send-unsubscribes}
use aws_c_mqtt.Subscribing.UnsubscribePackets
use aws_c_mqtt.Subscribing.UnsubscribePackets.{unsubscribe_send-sends}
use aws_c_mqtt.UserCalls.{new_topic, new_subscribe, new_unsubscribe}
use aws_c_mqtt.Tests.{hello, hello-IsPublish, empty_buffer}
use aws_c_mqtt.Tests.Topics.{simple_split}
use aws_c_mqtt.Tests.TopicTree.{tree_after}
use aws_c_mqtt.Tests.Stream.{open_channel}
use aws_c_mqtt.Tests.Calls.{around, roomy-IsOpen, up, a_plus, at}

growing-IsStatic : (n : ℕ) → IsStatic {A = Action} growing n
growing-IsStatic n = record { fits = λ xs x h. refl }

-- A subscribe to `a/+` and an unsubscribe from it wait for their first attempts.
abbrev waiting : Connection
waiting = record up {
  memory = write_unsubscribe 5 (new_unsubscribe a_plus.topic) (
      write_subscribe 7 (new_subscribe (new_topic at a_plus ∷ []))
        (write_topic (new_topic at a_plus) up.memory));
}

-- `a/+` is subscribed to.
abbrev subscribed : Connection
subscribed = record waiting {
  subscriptions = tree_after (
      topic_tree_insert simple_split growing (new_topic at a_plus).filter
        (subscriber_of (new_topic at a_plus)) topic_tree_init);
}

a_plus-IsRemovable : IsRemovable (simple_split.split a_plus.topic slash) subscribed.subscriptions
unfolding topic_tree_insert transaction_insert transaction_insert_parts insert_parts push_action
    transaction_commit commit_all action_commit write_node find put node_at update_at
    topic_tree_init topic_node_new bytes_eq owned are_held are_distinct are_apart is_among
a_plus-IsRemovable = record {
  in_order = record { distinct = refl; alive = refl; held = refl };
  owner = refl;
}

unsubscribe_send-unsubscribes_example :
    ((unsubscribe_send around 5 4 true subscribed).0 ≡ request_ongoing
      → ((q : List Part)
          → subscription_at q (unsubscribe_send around 5 4 true subscribed).1.subscriptions.root ≡ (
              if path_eq (simple_split.split a_plus.topic slash) q
              then none
              else subscription_at q subscribed.subscriptions.root))
        × (((unsubscribe_send around 5 4 true subscribed).1.memory.unsubscribes 5).tree_updated
            ≡ true))
    × ((unsubscribe_send around 5 4 true subscribed).0 ≢ request_ongoing
        → (unsubscribe_send around 5 4 true subscribed).1.subscriptions.root
          ≡ subscribed.subscriptions.root)
unsubscribe_send-unsubscribes_example =
    unsubscribe_send-unsubscribes around growing-IsStatic 5 4 true subscribed refl
      a_plus-IsRemovable

-- A pool that has no message.
abbrev empty_pool : ChannelOps
empty_pool = record open_channel { acquire_message = λ n. none }

abbrev poor : Subscribing.Surroundings
poor = record around { channel = empty_pool }

subscribe_send-poor : (subscribe_send poor 7 3 true waiting).0 ≢ request_ongoing
unfolding subscribe_send subscribe_init subscribe_topics subscribe_topic subscribe_add_topic
    send_packet transaction_insert transaction_insert_parts insert_parts push_action find put
    node_at topic_tree_init topic_node_new bytes_eq
subscribe_send-poor e = cc e

poor_reads_nothing : (subscribe_send poor 7 3 true waiting).0 ≢ request_error use_after_free
unfolding subscribe_send subscribe_init subscribe_topics subscribe_topic subscribe_add_topic
    send_packet transaction_insert transaction_insert_parts insert_parts push_action find put
    node_at topic_tree_init topic_node_new bytes_eq
poor_reads_nothing e = cc e

subscribe_send-failed_example :
    (subscribe_send poor 7 3 true waiting).1.subscriptions.root ≡ waiting.subscriptions.root
subscribe_send-failed_example =
    subscribe_send-failed poor growing-IsStatic 7 3 true waiting subscribe_send-poor
      poor_reads_nothing

-- `a/b` is published to the subscription.
one_delivery :
    topic_tree_publish simple_split subscribed.subscriptions hello.topic_name
    ≡ record { callback = 1; userdata = 8 } ∷ []
unfolding topic_tree_publish publish_parts topic_tree_insert transaction_insert
    transaction_insert_parts insert_parts push_action transaction_commit commit_all action_commit
    write_node find put node_at update_at topic_tree_init topic_node_new bytes_eq publish_init hello
one_delivery = refl

both_called :
    All
      (IsCallable subscribed.memory)
      (topic_tree_publish simple_split subscribed.subscriptions hello.topic_name)
both_called =
    subst (All (IsCallable subscribed.memory)) (sym one_delivery)
      (record { in_tree = omega arith; of_user = omega arith }, tt)

packet_handler_publish-delivers_example :
    (ds : List Delivery) × (packet_handler_publish simple open_channel
        (deliver_to_subscriptions simple_split)
        (publish_bytes hello)
        subscribed
      ≡ ok tt (record subscribed {
        events =
            map (user_call hello subscribed.memory) ds
            ++ (send_message (ack_bytes (puback_init hello.packet_identifier)) ∷ []);
      }))
    × ((d : Delivery)
        → d.callback ≢ 0
        → IsIn d ds
          ↔ Reached d (simple_split.split hello.topic_name slash) subscribed.subscriptions.root)
unfolding hello publish_init publish_flags publish_qos ack_bytes header_bytes length_bytes
    puback_init ack_init
packet_handler_publish-delivers_example =
    packet_handler_publish-delivers simple simple-IsByteOps open_channel simple_split hello
      empty_buffer subscribed hello-IsPublish (omega arith) refl (omega arith) both_called refl refl
      (omega arith) refl

around-IsReady : UnsubscribePackets.IsReady around
around-IsReady = record {
  io_law = simple-IsByteOps;
  static = growing-IsStatic;
  grows = λ xs x. refl;
  allocates = refl;
  is_open = roomy-IsOpen;
}

-- It is unsubscribed, and the attempt is repeated.
abbrev calls : List Call
calls = unsubscribing 5 4 true ∷ unsubscribing 5 4 false ∷ []

goes_on : (unsubscribe_send around 5 4 true subscribed).0 ≡ request_ongoing
goes_on =
    let (_, _, _, _, ongoing, _, _) =
      unsubscribe_send-sends around around-IsReady 5 4 true subscribed (omega arith) refl (λ e. cc)
        (omega arith) in
    ongoing

noted : ((unsubscribe_send around 5 4 true subscribed).1.memory.unsubscribes 5).tree_updated ≡ true
noted =
    ((unsubscribe_send-unsubscribes around growing-IsStatic 5 4 true subscribed refl
        a_plus-IsRemovable).0
      goes_on).1

calls_safe : AreSafe around calls subscribed
unfolding run_call
calls_safe =
    safe_more _ _ _ (safe_unsubscribe 5 4 true refl a_plus-IsRemovable)
      (safe_more _ _ _ (safe_resend 5 4 false noted) (safe_none _))

run_calls-replay_example :
    table_of (run_calls around calls subscribed).subscriptions
    ≡ replay around calls subscribed (table_of subscribed.subscriptions)
run_calls-replay_example = run_calls-replay around growing-IsStatic calls subscribed calls_safe
