-- ===== src/Subscribing/Filling.antt =====
-- The packet that the loop of a subscribe fills (`s_subscribe_send` of source/client.c).
use aws_c_mqtt.Base.{
  ℕ, ◌+◌, ◌%◌, ◌^◌, ◌≤◌, ◌<◌, ◌≡◌, refl, sym, ap, ◌∙◌, inr, Bool, true, false, not, List, [], ◌∷◌,
  ◌++◌, some, length, length-append, All, append_assoc, append-nil, arith,
}
use aws_c_mqtt.Bytes.{IsByteOps, ok, >>=-ok}
use aws_c_mqtt.Packets.Field.{Fits, grow, sizeof_encoded_buffer}
use aws_c_mqtt.Packets.Subscribe.{Subscription, SubscribePacket, subscribe_add_topic}
use aws_c_mqtt.Packets.Subscribe.Wire.{IsSubscribe, subscribe_add_topic-IsSubscribe}
use aws_c_mqtt.TopicTree.Action.{Transaction, IsStatic}
use aws_c_mqtt.TopicTree.Insert.{transaction_insert_lem}
use aws_c_mqtt.Client.{IsOpen}
use aws_c_mqtt.Client.Tasks.{TaskTopic}
use aws_c_mqtt.Subscribing.{
  Attempt, Surroundings, on_packet, on_transaction, do_if, add_topic, insert_topic, subscriber_of,
  subscribe_topic, subscribe_topics,
}

-- A topic filter as a SUBSCRIBE takes it.
pub record IsRequest (topic : TaskTopic) : Type 0 where
  pub filter_fits : Fits topic.request.topic
  pub qos_lt : topic.request.qos < 3

unfoldable pub requested : List TaskTopic → List Subscription
requested [] = []
requested (topic ∷ topics) =
    record { topic_filter = topic.request.topic; qos = topic.request.qos } ∷ requested topics

-- The bytes that the topic filters take in the packet.
unfoldable pub topics_size : List TaskTopic → ℕ
topics_size [] = 0
topics_size (topic ∷ topics) = 3 + length topic.request.topic + topics_size topics

-- What the attempts rely on.
pub record IsReady (around : Surroundings) : Type 0 where
  pub io_law : IsByteOps around.io
  pub static : (n : ℕ) → IsStatic (around.actions n) n
  pub grows :
      (xs : List Subscription) (x : Subscription)
      → around.subscriptions.push_back xs x ≡ some (xs ++ (x ∷ []))
  pub allocates : around.can_allocate ≡ true
  pub is_open : IsOpen around.channel

-- What the loop makes of the packet.
pub record IsFilled (topics : List TaskTopic) (s t : Attempt SubscribePacket) : Type 0 where
  pub well_formed : IsSubscribe t.packet
  pub same_id : t.packet.packet_identifier ≡ s.packet.packet_identifier
  pub filters : t.packet.topic_filters ≡ s.packet.topic_filters ++ requested topics
  pub remaining :
      t.packet.fixed_header.remaining_length
      ≡ s.packet.fixed_header.remaining_length + topics_size topics
  pub same_connection : t.connection ≡ s.connection

module _ (around : Surroundings) (ready : IsReady around) where
  add_topic_lem :
      (topic : TaskTopic) (p : SubscribePacket)
      → IsSubscribe p
      → IsRequest topic
      → p.fixed_header.remaining_length + 3 + length topic.request.topic < 2 ^ 28
      → (q : SubscribePacket) × (add_topic around topic p ≡ ok tt q)
        × IsSubscribe q
        × (q.packet_identifier ≡ p.packet_identifier)
        × (q.topic_filters
            ≡ p.topic_filters
              ++ (record { topic_filter = topic.request.topic; qos = topic.request.qos } ∷ []))
        × (q.fixed_header.remaining_length
            ≡ p.fixed_header.remaining_length + 3 + length topic.request.topic)
  unfolding subscribe_add_topic
  add_topic_lem topic p v r small =
      let s : Subscription = record {
        topic_filter = topic.request.topic;
        qos = topic.request.qos;
      } in
      let q : SubscribePacket = record p {
        fixed_header =
            grow p.fixed_header ((sizeof_encoded_buffer topic.request.topic + 1) % 2 ^ 64);
        topic_filters = p.topic_filters ++ (s ∷ []);
      } in
      let run : add_topic around topic p ≡ ok tt q =
        rw (subscribe_add_topic, ready.grows p.topic_filters s) refl in
      let (w, filters) =
        subscribe_add_topic-IsSubscribe around.subscriptions p q topic.request.topic
          topic.request.qos (record { push_back_lem = λ xs x. inr (ready.grows xs x) }) v
          r.filter_fits r.qos_lt small run in
      (q, run, w, refl, filters, omega (arith, r.filter_fits))

  insert_topic_lem :
      (n : ℕ) (topic : TaskTopic) (x : Transaction)
      → length x.actions < n
      → (y : Transaction) × (insert_topic around (around.actions n) topic x ≡ ok tt y)
        × (length y.actions ≡ length x.actions + 1)
  insert_topic_lem n topic x room =
      let (t', b, run, inserted) =
        transaction_insert_lem around.split (ready.static n) topic.filter (subscriber_of topic) x
          room in
      (
        record { tree = t'; actions = x.actions ++ (b ∷ []) },
        run,
        omega (arith, length-append x.actions (b ∷ [])),
      )

  insert_if_lem :
      (n : ℕ) (updated : Bool) (topic : TaskTopic) (s : Attempt SubscribePacket)
      → length s.transaction.actions < n
      → (x : Transaction) × (do_if
            (not updated)
            (on_transaction (insert_topic around (around.actions n) topic))
            s
          ≡ ok tt (record s { transaction = x }))
        × (length x.actions ≤ length s.transaction.actions + 1)
  insert_if_lem n true topic s room = (s.transaction, refl, omega arith)
  insert_if_lem n false topic s room =
      let (x, run, grown) = insert_topic_lem n topic s.transaction room in
      (x, rw (on_transaction, run) refl, omega (arith, grown))

  pub subscribe_topics_lem :
      (n : ℕ) (updated : Bool) (topics : List TaskTopic) (s : Attempt SubscribePacket)
      → IsSubscribe s.packet
      → All IsRequest topics
      → s.packet.fixed_header.remaining_length + topics_size topics < 2 ^ 28
      → length s.transaction.actions + length topics ≤ n
      → (t : Attempt SubscribePacket) × (subscribe_topics around
            (around.actions n)
            true
            updated
            topics
            s
          ≡ ok tt t)
        × IsFilled topics s t
  unfolding subscribe_topics subscribe_topic requested topics_size
  subscribe_topics_lem n updated [] s v rs small room = (
    s,
    refl,
    record {
      well_formed = v;
      same_id = refl;
      filters = sym (append-nil s.packet.topic_filters);
      remaining = omega arith;
      same_connection = refl;
    },
  )
  subscribe_topics_lem n updated (topic ∷ topics) s v rs small room =
      let (q, added, w, same_id, filters, grown) =
        add_topic_lem topic s.packet v rs.0 (omega arith) in
      let mid : Attempt SubscribePacket = record s { packet = q } in
      let put : on_packet (add_topic around topic) s ≡ ok tt mid = rw (on_packet, added) refl in
      let (x, inserted, more) = insert_if_lem n updated topic mid (omega arith) in
      let next : Attempt SubscribePacket = record mid { transaction = x } in
      let (t, rest, f) =
        subscribe_topics_lem n updated topics next w rs.1 (omega (arith, grown)) (omega arith) in
      (
        t,
        >>=-ok (subscribe_topic around (around.actions n) true updated topic)
              (λ _. subscribe_topics around (around.actions n) true updated topics)
              (>>=-ok (on_packet (add_topic around topic)) _ put ∙ inserted)
            ∙ rest,
        record {
          well_formed = f.well_formed;
          same_id = f.same_id ∙ same_id;
          filters =
              f.filters
              ∙ ap (λ (fs : List Subscription). fs ++ requested topics) filters
              ∙ append_assoc s.packet.topic_filters _ (requested topics);
          remaining = omega (arith, f.remaining, grown);
          same_connection = f.same_connection;
        },
      )
