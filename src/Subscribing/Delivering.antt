-- ===== src/Subscribing/Delivering.antt =====
-- A PUBLISH that arrives (`s_packet_handler_publish` of source/client_channel_handler.c) reaches the
-- callbacks of the user through the connection's topic tree (source/topic_tree.c) and
-- `s_on_publish_client_wrapper` (source/client.c).
use aws_c_mqtt.Base.{
  ℕ, ◌≤◌, ◌<◌, ◌≡◌, ◌≢◌, sym, ap, ◌∙◌, ◌↔◌, true, List, [], ◌∷◌, ◌++◌, map, some, if◌then◌else◌,
  ◌==◌, length, All, append_assoc, append-nil, arith,
}
use aws_c_mqtt.Bytes.{
  ByteBuf, ByteOps, IsByteOps, Op, ok, err, ◌>>◌, return, null_dereference, >>=-ok,
}
use aws_c_mqtt.Packets.Ack.{ack_bytes, puback_init}
use aws_c_mqtt.Packets.Publish.{PublishPacket, publish_qos}
use aws_c_mqtt.Packets.Publish.RoundTrip.{IsPublish, publish_bytes}
use aws_c_mqtt.Topics.{SplitOps, slash}
use aws_c_mqtt.TopicTree.Publish.{Delivery, topic_tree_publish}
use aws_c_mqtt.TopicTree.Matching.{IsIn, Reached}
use aws_c_mqtt.TopicTree.Deliveries.{topic_tree_publish_lem}
use aws_c_mqtt.Client.{Event, on_publish, send_message, Connection, ChannelOps, Deliver, emit}
use aws_c_mqtt.Client.Tasks.{Memory}
use aws_c_mqtt.Handlers.{packet_handler_publish}
use aws_c_mqtt.Handlers.Answers.{packet_handler_publish_acknowledged}

-- `s_on_publish_client_wrapper`: its user data is the address of a topic.
unfoldable pub on_publish_client_wrapper : ℕ → PublishPacket → Op Connection (Unit {0})
on_publish_client_wrapper userdata publish c =
    let request = (c.memory.topics userdata).request in
    if request.on_publish == 0
    then err null_dereference c
    else ok tt (
        emit
          (on_publish request.on_publish request.on_publish_ud publish.topic_name publish.payload)
          c)

-- `node->callback(...)`
unfoldable pub call_back : PublishPacket → Delivery → Op Connection (Unit {0})
call_back publish d c =
    if d.callback == 0
    then err null_dereference c
    else on_publish_client_wrapper d.userdata publish c

unfoldable pub call_each : PublishPacket → List Delivery → Op Connection (Unit {0})
call_each publish [] = return tt
call_each publish (d ∷ ds) = call_back publish d >> call_each publish ds

-- `aws_mqtt_topic_tree_publish` of the connection's own tree.
unfoldable pub deliver_to_subscriptions : SplitOps → Deliver
deliver_to_subscriptions ops publish c =
    call_each publish (topic_tree_publish ops c.subscriptions publish.topic_name) c

-- The call of the user that a delivery comes to.
abbrev pub user_call : PublishPacket → Memory → Delivery → Event
user_call p m d =
    let request = (m.topics d.userdata).request in
    on_publish request.on_publish request.on_publish_ud p.topic_name p.payload

-- Neither the callback of the tree nor that of the user is null.
pub record IsCallable (m : Memory) (d : Delivery) : Type 0 where
  pub in_tree : d.callback ≢ 0
  pub of_user : (m.topics d.userdata).request.on_publish ≢ 0

call_back_lem :
    (p : PublishPacket) (d : Delivery) (c : Connection)
    → IsCallable c.memory d
    → call_back p d c ≡ ok tt (emit (user_call p c.memory d) c)
unfolding call_back on_publish_client_wrapper
call_back_lem p d c v = ground (arith, v.in_tree, v.of_user)

call_each_lem :
    (p : PublishPacket) (ds : List Delivery) (c : Connection)
    → All (IsCallable c.memory) ds
    → call_each p ds c ≡ ok tt (record c { events = c.events ++ map (user_call p c.memory) ds })
unfolding call_each
call_each_lem p [] c v =
    ap (λ (es : List Event). ok tt (record c { events = es })) (sym (append-nil c.events))
call_each_lem p (d ∷ ds) c v =
    >>=-ok (call_back p d) (λ _. call_each p ds) (call_back_lem p d c v.0)
    ∙ call_each_lem p ds (emit (user_call p c.memory d) c) v.1
    ∙ ap (λ (es : List Event). ok tt (record c { events = es }))
        (append_assoc c.events (user_call p c.memory d ∷ []) (map (user_call p c.memory) ds))

module _ (io : ByteOps) (law : IsByteOps io) (channel : ChannelOps) (ops : SplitOps) where
  -- A well-formed PUBLISH with QoS 1, a payload and a packet identifier; the callbacks that the topic tree
  -- finds for its topic name are not null, the pool has an empty message with room for a PUBACK, and the channel
  -- takes it. The handler succeeds: it calls the user once for each delivery, with the user's own
  -- data, the topic name and the payload, and then sends the PUBACK; it changes nothing else. The
  -- deliveries with a callback that is not null are just the subscriptions of the connection whose topic
  -- filter matches the topic name.
  pub packet_handler_publish-delivers :
      (p : PublishPacket) (b : ByteBuf) (c : Connection)
      → IsPublish p
      → 0 < length p.payload
      → publish_qos p.fixed_header ≡ 1
      → 0 < p.packet_identifier
      → All (IsCallable c.memory) (topic_tree_publish ops c.subscriptions p.topic_name)
      → channel.acquire_message 5 ≡ some b
      → b.buffer ≡ []
      → length (ack_bytes (puback_init p.packet_identifier)) ≤ b.capacity
      → channel.can_send (ack_bytes (puback_init p.packet_identifier)) ≡ true
      → (ds : List Delivery) × (packet_handler_publish io channel
            (deliver_to_subscriptions ops)
            (publish_bytes p)
            c
          ≡ ok tt (record c {
            events =
                (c.events ++ map (user_call p c.memory) ds)
                ++ (send_message (ack_bytes (puback_init p.packet_identifier)) ∷ []);
          }))
        × ((d : Delivery)
            → d.callback ≢ 0
            → IsIn d ds ↔ Reached d (ops.split p.topic_name slash) c.subscriptions.root)
  unfolding deliver_to_subscriptions
  packet_handler_publish-delivers p b c v pay qos id callable acq e room sends =
      let ds : List Delivery = topic_tree_publish ops c.subscriptions p.topic_name in
      (
        ds,
        packet_handler_publish_acknowledged io law channel (deliver_to_subscriptions ops) p b c
            (record c { events = c.events ++ map (user_call p c.memory) ds }) v pay qos id
            (call_each_lem p ds c callable) acq e room sends,
        λ d h. topic_tree_publish_lem ops c.subscriptions p.topic_name d h,
      )
