-- ===== src/Subscribing.antt =====
-- Subscribing and unsubscribing (source/client.c): the attempts to send their requests, which change the
-- topic tree in a transaction.
pub mod Attempts
pub mod Outcomes
pub mod Trees
pub mod Messages
pub mod Filling
pub mod Sends
pub mod Unsubscribes
pub mod UnsubscribePackets
pub mod Delivering
pub mod Replay
use aws_c_mqtt.Base.{
  ℕ, ◌+◌, ◌%◌, ◌^◌, Bool, true, false, not, List, [], ◌∷◌, none, some, if◌then◌else◌, ◌==◌, ◌||◌,
  length,
}
use aws_c_mqtt.Bytes.{
  ByteBuf, ByteOps, Error, Op, Outcome, ok, err, ◌>>=◌, ◌>>◌, return, raised_elsewhere,
  null_dereference, use_after_free,
}
use aws_c_mqtt.FixedHeader.{FixedHeader}
use aws_c_mqtt.Packets.Filters.{ArrayOps}
use aws_c_mqtt.Packets.Publish.{PublishPacket}
use aws_c_mqtt.Packets.Subscribe.{
  Subscription, SubscribePacket, subscribe_init, subscribe_add_topic, subscribe_encode,
}
use aws_c_mqtt.Packets.Unsubscribe.{
  UnsubscribePacket, unsubscribe_init, unsubscribe_add_topic, unsubscribe_encode,
}
use aws_c_mqtt.Topics.{SplitOps}
use aws_c_mqtt.TopicTree.{TopicTree}
use aws_c_mqtt.TopicTree.Owners.{is_among}
use aws_c_mqtt.TopicTree.Action.{
  Action, Subscriber, Transaction, transaction_insert, transaction_remove,
}
use aws_c_mqtt.TopicTree.Transaction.{transaction_commit, transaction_roll_back}
use aws_c_mqtt.TopicTree.Publish.{Delivery, topic_tree_publish}
use aws_c_mqtt.Client.Tasks.{
  TaskTopic, SubscribeTask, UnsubscribeTask, Memory, write_subscribe, write_unsubscribe,
}
use aws_c_mqtt.Client.{Event, on_publish, send_message, Connection, ChannelOps, Deliver, emit}
use aws_c_mqtt.Requests.{RequestState, request_ongoing, request_error, SendRequest}

-- The addresses of `s_on_publish_client_wrapper` and `s_on_topic_clean_up`, which are the only functions
-- that are put in the tree.
abbrev pub client_wrapper : ℕ
client_wrapper = 1

abbrev pub topic_clean_up : ℕ
topic_clean_up = 2

-- What an attempt works on: the packet, the transaction on the tree, and the connection.
pub record Attempt (P : Type 0) : Type 0 where
  pub packet : P
  pub transaction : Transaction
  pub connection : Connection

-- What is outside: the functions of the other libraries, and whether an array list is allocated.
pub record Surroundings : Type 0 where
  pub split : SplitOps
  pub io : ByteOps
  pub channel : ChannelOps
  -- The list of a packet's filters, and the transaction over a buffer for so many actions.
  pub subscriptions : ArrayOps Subscription
  pub filters : ArrayOps (List ℕ)
  pub actions : ℕ → ArrayOps Action
  pub can_allocate : Bool

abbrev pub empty_transaction : TopicTree → Transaction
empty_transaction t = record { tree = t; actions = [] }

module _ {P : Type 0} where
  abbrev pub start : P → Connection → Attempt P
  start packet c = record {
    packet = packet;
    transaction = empty_transaction c.subscriptions;
    connection = c;
  }

  -- A call that changes the packet alone, or the transaction alone.
  abbrev pub on_packet : Op P (Unit {0}) → Op (Attempt P) (Unit {0})
  on_packet m s = elim (m s.packet) [
    | ok _ packet ↦ ok tt (record s { packet = packet })
    | err e packet ↦ err e (record s { packet = packet })
  ]

  abbrev pub on_transaction : Op Transaction (Unit {0}) → Op (Attempt P) (Unit {0})
  on_transaction m s = elim (m s.transaction) [
    | ok _ transaction ↦ ok tt (record s { transaction = transaction })
    | err e transaction ↦ err e (record s { transaction = transaction })
  ]

  abbrev pub do_if : Bool → Op (Attempt P) (Unit {0}) → Op (Attempt P) (Unit {0})
  do_if true m s = m s
  do_if false m s = ok tt s

  -- `mqtt_get_message_for_packet`, the encoder, and `aws_channel_slot_send_message`, whose result is
  -- dropped.
  unfoldable pub send_packet :
      ChannelOps → (P → FixedHeader) → (P → Op ByteBuf (Unit {0})) → Op (Attempt P) (Unit {0})
  send_packet channel header encode s =
      elim (channel.acquire_message ((3 + (header s.packet).remaining_length) % 2 ^ 64)) [
        | none ↦ err raised_elsewhere s
        | some message ↦ elim (encode s.packet message) [
          | err e _ ↦ err e s
          | ok _ filled ↦ ok tt (
              if channel.can_send filled.buffer
              then record s { connection = emit (send_message filled.buffer) s.connection }
              else s)
        ]
      ]

  -- The end of an attempt, and `handle_error`: unless the tree was updated before, the transaction is
  -- committed or rolled back.
  abbrev pub tree_after : Bool → Outcome (Attempt P) (Unit {0}) → TopicTree
  tree_after true (ok _ s) = s.connection.subscriptions
  tree_after true (err _ s) = s.connection.subscriptions
  tree_after false (ok _ s) = (transaction_commit s.transaction).tree
  tree_after false (err _ s) = (transaction_roll_back s.transaction).tree

abbrev pub subscriber_of : TaskTopic → Subscriber
subscriber_of topic = record {
  qos = topic.request.qos;
  callback = client_wrapper;
  cleanup = topic_clean_up;
  userdata = topic.address;
}

-- Whether the string of a topic was destroyed: an insertion that finds its node subscribed destroys
-- it, and so does the removal of its subscription. A string is never where another one was.
unfoldable pub reads_destroyed : TopicTree → List TaskTopic → Bool
reads_destroyed t [] = false
reads_destroyed t (topic ∷ topics) =
    let later = reads_destroyed t topics in is_among topic.filter.pointer t.destroyed || later

module _ (around : Surroundings) where
  abbrev pub add_topic : TaskTopic → Op SubscribePacket (Unit {0})
  add_topic topic = subscribe_add_topic around.subscriptions topic.request.topic topic.request.qos

  abbrev pub insert_topic : ArrayOps Action → TaskTopic → Op Transaction (Unit {0})
  insert_topic actions topic =
      transaction_insert actions around.split topic.filter (subscriber_of topic)

  -- A round of the loop of `s_subscribe_send`.
  unfoldable pub subscribe_topic :
      ArrayOps Action → Bool → Bool → TaskTopic → Op (Attempt SubscribePacket) (Unit {0})
  subscribe_topic actions initing_packet tree_updated topic =
      do_if initing_packet (on_packet (add_topic topic))
      >> do_if (not tree_updated) (on_transaction (insert_topic actions topic))

  unfoldable pub subscribe_topics :
      ArrayOps Action → Bool → Bool → List TaskTopic → Op (Attempt SubscribePacket) (Unit {0})
  subscribe_topics actions initing_packet tree_updated [] = return tt
  subscribe_topics actions initing_packet tree_updated (topic ∷ topics) =
      subscribe_topic actions initing_packet tree_updated topic
      >> subscribe_topics actions initing_packet tree_updated topics

  -- `aws_mqtt_packet_subscribe_encode` of a task's packet, whose topic filters are cursors into the
  -- strings of its topics.
  unfoldable pub encode_subscribe :
      TopicTree → List TaskTopic → SubscribePacket → Op ByteBuf (Unit {0})
  encode_subscribe t topics packet b =
      if reads_destroyed t topics then err use_after_free b else subscribe_encode around.io packet b

  abbrev pub send_subscribe : List TaskTopic → Op (Attempt SubscribePacket) (Unit {0})
  send_subscribe topics s =
      send_packet around.channel (λ p. p.fixed_header) (encode_subscribe s.transaction.tree topics)
        s

  abbrev pub subscribe_attempt : Bool → SubscribeTask → Op (Attempt SubscribePacket) (Unit {0})
  subscribe_attempt initing_packet task =
      subscribe_topics (around.actions (length task.topics)) initing_packet task.tree_updated
        task.topics
      >> send_subscribe task.topics

  abbrev pub subscribe_settle :
      ℕ → SubscribeTask → Outcome (Attempt SubscribePacket) (Unit {0}) → RequestState × Connection
  subscribe_settle address task (ok u s) = (
    request_ongoing,
    record s.connection {
      subscriptions = tree_after task.tree_updated (ok u s);
      memory =
          write_subscribe address (record task { subscribe = s.packet; tree_updated = true })
            s.connection.memory;
    },
  )
  subscribe_settle address task (err e s) = (
    request_error e,
    record s.connection {
      subscriptions = tree_after task.tree_updated (err e s);
      memory = write_subscribe address (record task { subscribe = s.packet }) s.connection.memory;
    },
  )

  -- What an attempt starts from.
  abbrev pub subscribe_init_if : Bool → ℕ → SubscribePacket → Outcome SubscribePacket (Unit {0})
  subscribe_init_if initing_packet message_id packet =
      if initing_packet then subscribe_init around.can_allocate message_id packet else ok tt packet

  -- Behind the initialization of the packet.
  abbrev pub subscribe_go_on :
      ℕ
      → Bool
      → SubscribeTask
      → Connection
      → Outcome SubscribePacket (Unit {0})
      → RequestState × Connection
  subscribe_go_on address initing_packet task c (err e packet) = (
    request_error e,
    record c { memory = write_subscribe address (record task { subscribe = packet }) c.memory },
  )
  subscribe_go_on address initing_packet task c (ok _ packet) =
      subscribe_settle address task (subscribe_attempt initing_packet task (start packet c))

  -- `s_subscribe_send`, of the task at an address. An attempt that reads a string that was destroyed has
  -- no result in the source, and the error `use_after_free` here.
  unfoldable pub subscribe_send : ℕ → SendRequest
  subscribe_send address message_id is_first_attempt c =
      let task = c.memory.subscribes address in
      let initing_packet = task.subscribe.fixed_header.packet_type == 0 in
      subscribe_go_on address initing_packet task c
        (subscribe_init_if initing_packet message_id task.subscribe)

  -- The calls of `s_unsubscribe_send`.
  abbrev pub init_unsubscribe : ℕ → List ℕ → Op UnsubscribePacket (Unit {0})
  init_unsubscribe message_id filter =
      unsubscribe_init around.can_allocate message_id >> unsubscribe_add_topic around.filters filter

  unfoldable pub unsubscribe_attempt :
      ℕ → UnsubscribeTask → Op (Attempt UnsubscribePacket) (Unit {0})
  unsubscribe_attempt message_id task =
      do_if (not task.tree_updated)
        (on_transaction (transaction_remove (around.actions 1) around.split task.filter))
      >> do_if (task.unsubscribe.fixed_header.packet_type == 0)
          (on_packet (init_unsubscribe message_id task.filter))
      >> send_packet around.channel (λ p. p.fixed_header) (unsubscribe_encode around.io)

  abbrev pub unsubscribe_settle :
      ℕ
      → UnsubscribeTask
      → Outcome (Attempt UnsubscribePacket) (Unit {0})
      → RequestState × Connection
  unsubscribe_settle address task (ok u s) = (
    request_ongoing,
    record s.connection {
      subscriptions = tree_after task.tree_updated (ok u s);
      memory =
          write_unsubscribe address (record task { unsubscribe = s.packet; tree_updated = true })
            s.connection.memory;
    },
  )
  unsubscribe_settle address task (err e s) = (
    request_error e,
    record s.connection {
      subscriptions = tree_after task.tree_updated (err e s);
      memory =
          write_unsubscribe address (record task { unsubscribe = s.packet }) s.connection.memory;
    },
  )

  -- `s_unsubscribe_send`, of the task at an address. A release of the message that is one too many is
  -- not kept.
  unfoldable pub unsubscribe_send : ℕ → SendRequest
  unsubscribe_send address message_id is_first_attempt c =
      let task = c.memory.unsubscribes address in
      unsubscribe_settle address task
        (unsubscribe_attempt message_id task (start task.unsubscribe c))
