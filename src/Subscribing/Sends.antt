-- ===== src/Subscribing/Sends.antt =====
-- The packet that a subscribe sends (`s_subscribe_send` of source/client.c).
use aws_c_mqtt.Base.{
  ℕ, ◌+◌, ◌<◌, ◌≡◌, refl, subst, ap, ◌∙◌, Bool, true, false, List, [], ◌∷◌, ◌++◌, ◌==◌, ◌||◌,
  length, length-append, All, arith,
}
use aws_c_mqtt.Bytes.{ok, >>=-ok}
use aws_c_mqtt.FixedHeader.{bad_flags, has_flags}
use aws_c_mqtt.FixedHeader.Wire.{header_bytes}
use aws_c_mqtt.Packets.Subscribe.{Subscription, SubscribePacket, subscribe_init}
use aws_c_mqtt.Packets.Subscribe.Wire.{
  IsSubscribe, subscribe_bytes, subscribe_body, subscribe_encode-Emits,
}
use aws_c_mqtt.Client.{send_message, Connection, emit}
use aws_c_mqtt.Client.Tasks.{TaskTopic, SubscribeTask}
use aws_c_mqtt.Requests.{RequestState, request_ongoing}
use aws_c_mqtt.Subscribing.{
  Attempt, Surroundings, start, subscribe_topics, subscribe_attempt, subscribe_init_if,
  subscribe_go_on, subscribe_settle, subscribe_send, encode_subscribe, reads_destroyed,
  empty_transaction, subscriber_of,
}
use aws_c_mqtt.Subscribing.Attempts.{Leaves}
use aws_c_mqtt.Subscribing.Outcomes.{subscribers, IsLeft, subscribe_topics-IsLeft}
use aws_c_mqtt.Topics.{slash}
use aws_c_mqtt.TopicTree.Action.{owns_at}
use aws_c_mqtt.TopicTree.Insert.{insert_one-destroyed}
use aws_c_mqtt.TopicTree.Owners.{is_among}
use aws_c_mqtt.TopicTree.Transaction.{transaction_insert_each}
use aws_c_mqtt.Subscribing.Messages.{length-header_bytes, send_packet-Emits}
use aws_c_mqtt.Subscribing.Filling.{
  IsRequest, requested, topics_size, IsReady, subscribe_topics_lem,
}

module _ (around : Surroundings) (ready : IsReady around) where
  init_lem :
      (id : ℕ) (old : SubscribePacket)
      → id < 65536
      → (p : SubscribePacket) × (subscribe_init around.can_allocate id old ≡ ok tt p)
        × IsSubscribe p
        × (p.topic_filters ≡ [])
        × (p.packet_identifier ≡ id)
        × (p.fixed_header.remaining_length ≡ 2)
  unfolding subscribe_init bad_flags has_flags
  init_lem id old h = rw ready.allocates (_, refl, ground arith, refl, refl, refl)

  -- After the loop none of the strings that the packet is made of is destroyed.
  abbrev pub KeepsStrings : SubscribeTask → SubscribePacket → Connection → Type 0
  KeepsStrings task p c =
      (t : Attempt SubscribePacket)
      → subscribe_topics around (around.actions (length task.topics)) true task.tree_updated
          task.topics (start p c)
        ≡ ok tt t
      → reads_destroyed t.transaction.tree task.topics ≡ false

  -- One topic filter, with a string of its own that was not destroyed, and a node that owns none.
  pub keeps_one :
      (topic : TaskTopic) (packet p : SubscribePacket) (c : Connection)
      → owns_at (around.split.split topic.filter.bytes slash) c.subscriptions.root ≡ false
      → is_among topic.filter.pointer c.subscriptions.destroyed ≡ false
      → KeepsStrings (record { topics = topic ∷ []; subscribe = packet; tree_updated = false }) p c
  unfolding subscribers reads_destroyed
  keeps_one topic packet p c free alive t looped =
      let left =
        subst
          (Leaves
            (IsLeft
              (transaction_insert_each around.split (around.actions 1) (subscribers (topic ∷ [])))
              (start p c))
            (λ _. Unit {0}))
          looped
          (subscribe_topics-IsLeft around (around.actions 1) true (topic ∷ []) (start p c)) in
      let same : t.transaction.tree.destroyed ≡ c.subscriptions.destroyed =
        insert_one-destroyed around.split (ready.static 1) topic.filter (subscriber_of topic)
          (empty_transaction c.subscriptions) t.transaction (omega arith) free left.0 in
      ap (λ (s : List ℕ). is_among topic.filter.pointer s || false) same ∙ ground (arith, alive)

  attempt_lem :
      (task : SubscribeTask) (p : SubscribePacket) (c : Connection)
      → IsSubscribe p
      → p.topic_filters ≡ []
      → p.fixed_header.remaining_length ≡ 2
      → All IsRequest task.topics
      → 2 + topics_size task.topics < 16384
      → KeepsStrings task p c
      → (t : Attempt SubscribePacket) × (subscribe_attempt around true task (start p c) ≡ ok tt t)
        × IsSubscribe t.packet
        × (t.packet.packet_identifier ≡ p.packet_identifier)
        × (t.packet.topic_filters ≡ requested task.topics)
        × (t.connection ≡ emit (send_message (subscribe_bytes t.packet)) c)
  unfolding subscribe_bytes encode_subscribe
  attempt_lem task p c v none_added two rs small keeps =
      let n : ℕ = length task.topics in
      let (t, looped, f) =
        subscribe_topics_lem around ready n task.tree_updated task.topics (start p c) v rs
          (omega arith) (omega arith) in
      let bytes : List ℕ = subscribe_bytes t.packet in
      let size : t.packet.fixed_header.remaining_length < 16384 = omega (arith, f.remaining) in
      let sent =
        send_packet-Emits around.channel (λ q. q.fixed_header)
          (encode_subscribe around t.transaction.tree task.topics) t bytes ready.is_open
          (λ b room.
            rw (keeps t looped)
              (subscribe_encode-Emits around.io ready.io_law t.packet f.well_formed b room))
          (omega (
            arith,
            length-header_bytes t.packet.fixed_header size,
            f.well_formed.remaining,
            length-append (header_bytes t.packet.fixed_header) (subscribe_body t.packet),
          ))
          size in
      (
        record t { connection = emit (send_message bytes) t.connection },
        >>=-ok (subscribe_topics around (around.actions n) true task.tree_updated task.topics) _
              looped
            ∙ sent,
        f.well_formed,
        f.same_id,
        f.filters ∙ ap (λ (fs : List Subscription). fs ++ requested task.topics) none_added,
        ap (emit (send_message bytes)) f.same_connection,
      )

  -- The first attempt at a subscribe with topic filters below 65536 bytes and a QoS below 3, whose packet
  -- has a remaining length below 16384, and whose strings the loop does not destroy; the lists grow, the channel is open and sends, and its pool
  -- gives empty messages of at least the size that is asked for. The attempt succeeds, and the one
  -- message that it sends is the bytes of a well-formed SUBSCRIBE with the message id and the
  -- topic filters in order; the task keeps that packet.
  pub subscribe_send-sends :
      (address id : ℕ) (first : Bool) (c : Connection)
      → id < 65536
      → (c.memory.subscribes address).subscribe.fixed_header.packet_type ≡ 0
      → All IsRequest (c.memory.subscribes address).topics
      → 2 + topics_size (c.memory.subscribes address).topics < 16384
      → ((p : SubscribePacket) → KeepsStrings (c.memory.subscribes address) p c)
      → (p : SubscribePacket) × IsSubscribe p
        × (p.packet_identifier ≡ id)
        × (p.topic_filters ≡ requested (c.memory.subscribes address).topics)
        × ((subscribe_send around address id first c).0 ≡ request_ongoing)
        × ((subscribe_send around address id first c).1.events
            ≡ c.events ++ (send_message (subscribe_bytes p) ∷ []))
        × (((subscribe_send around address id first c).1.memory.subscribes address).subscribe ≡ p)
  unfolding subscribe_send
  subscribe_send-sends address id first c id_lt fresh rs small keeps =
      let (p, inited, v, none_added, same_id, two) = init_lem id task.subscribe id_lt in
      let (t, run, w, kept_id, filters, sent) =
        attempt_lem task p c v none_added two rs small (keeps p) in
      let e : subscribe_send around address id first c
          ≡ subscribe_settle around address task (ok tt t) =
        ap step is_fresh
        ∙ ap (subscribe_go_on around address true task c) inited
        ∙ ap (subscribe_settle around address task) run in
      (
        t.packet,
        w,
        kept_id ∙ same_id,
        filters,
        ap (λ r. r.0) e,
        ap (λ r. r.1.events) e ∙ ap (λ (d : Connection). d.events) sent,
        ap (λ r. (r.1.memory.subscribes address).subscribe) e ∙ ground arith,
      )
    where
      task : SubscribeTask
      task = c.memory.subscribes address

      is_fresh : task.subscribe.fixed_header.packet_type == 0 ≡ true
      is_fresh = ground (arith, fresh)

      step : Bool → RequestState × Connection
      step b =
          subscribe_go_on around address b task c (subscribe_init_if around b id task.subscribe)
