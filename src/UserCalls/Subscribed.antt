-- ===== src/UserCalls/Subscribed.antt =====
-- What subscribing and unsubscribing come to while the connection is up.
use aws_c_mqtt.Base.{
  ℕ, ◌+◌, ◌%◌, ◌^◌, ◌<◌, ◌≡◌, refl, sym, ap, subst, ◌∙◌, true, false, List, [], ◌∷◌, ◌++◌, none,
  some, length, All, arith,
}
use aws_c_mqtt.Packets.Subscribe.{SubscribePacket}
use aws_c_mqtt.Packets.Subscribe.Wire.{IsSubscribe, subscribe_bytes}
use aws_c_mqtt.Topics.{slash, is_valid_topic_filter}
use aws_c_mqtt.TopicTree.{Part}
use aws_c_mqtt.TopicTree.Owners.{IsNew, is_among}
use aws_c_mqtt.TopicTree.Subscribe.{table_of, subscribe, subscribe_each, by_parts}
use aws_c_mqtt.Client.Tasks.{TopicSubscription, zero_subscribe}
use aws_c_mqtt.Client.{schedule_retry, send_message, Connection, find_request}
use aws_c_mqtt.Requests
use aws_c_mqtt.Requests.{
  request_ongoing, is_connected, update_outstanding, new_request, mark_initiated, create_request,
  SendRequest,
}
use aws_c_mqtt.Requests.Connected.{
  stored, retry, retry-events, retry-found, create_request_connected,
}
use aws_c_mqtt.Subscribing
use aws_c_mqtt.Subscribing.{subscribe_send, subscriber_of}
use aws_c_mqtt.Subscribing.Outcomes.{subscribers}
use aws_c_mqtt.Subscribing.Trees.{subscribe_send-subscribes, subscribe_send-rest}
use aws_c_mqtt.Subscribing.Filling.{IsReady, IsRequest, requested, topics_size}
use aws_c_mqtt.Subscribing.Sends.{KeepsStrings, keeps_one, subscribe_send-sends}
use aws_c_mqtt.UserCalls.{Allocated, new_topic, new_subscribe, with_subscribe, connection_subscribe}

-- What a call finds: memory, and the channel's own thread.
pub record IsServed (pool : Requests.Surroundings) : Type 0 where
  pub acquires : pool.can_acquire ≡ true
  pub puts : pool.can_put ≡ true
  pub on_thread : pool.is_callers_thread ≡ true

module _ (around : Subscribing.Surroundings) (ready : IsReady around) (pool : Requests.Surroundings)
    (served : IsServed pool) where
  -- The new task is where it was written.
  task_found :
      (at : Allocated) (request : TopicSubscription) (c : Connection)
      → (with_subscribe around pool at request c).memory.subscribes at.task_arg
        ≡ new_subscribe (new_topic at request ∷ [])
  task_found at request c = ground arith

  -- The one subscription of a task.
  one_subscribed :
      (at : Allocated) (request : TopicSubscription) (c : Connection) (q : List Part)
      → subscribe_each
          (by_parts around.split (subscribers (new_topic at request ∷ [])))
          (table_of c.subscriptions)
          q
        ≡ subscribe
            (around.split.split request.topic slash)
            (subscriber_of (new_topic at request))
            (table_of c.subscriptions)
            q
  unfolding subscribe_each by_parts subscribers
  one_subscribed at request c q = refl

  -- The connection as the first attempt finds it.
  abbrev before : ℕ → Allocated → TopicSubscription → Connection → Connection
  before id at request c = stored id true (with_subscribe around pool at request c)

  abbrev after : ℕ → Allocated → TopicSubscription → Connection → Connection
  after id at request c = (subscribe_send around at.task_arg id true (before id at request c)).1

  -- What the first attempt of a subscribe does.
  record IsSent (id : ℕ) (at : Allocated) (request : TopicSubscription) (c : Connection)
      : Type 0 where
    packet : SubscribePacket
    well_formed : IsSubscribe packet
    same_id : packet.packet_identifier ≡ id
    filters : packet.topic_filters ≡ record { topic_filter = request.topic; qos = request.qos } ∷ []
    ongoing :
        (subscribe_send around at.task_arg id true (before id at request c)).0 ≡ request_ongoing
    events :
        (after id at request c).events ≡ c.events ++ (send_message (subscribe_bytes packet) ∷ [])
    table :
        (q : List Part)
        → table_of (after id at request c).subscriptions q
          ≡ subscribe
              (around.split.split request.topic slash)
              (subscriber_of (new_topic at request))
              (table_of c.subscriptions)
              q
    outstanding :
        (after id at request c).outstanding_requests ≡ (before id at request c).outstanding_requests
    state : (after id at request c).state ≡ c.state
    timeout : (after id at request c).request_timeout_ns ≡ c.request_timeout_ns

  first_attempt :
      (id : ℕ) (at : Allocated) (request : TopicSubscription) (c : Connection)
      → id < 65536
      → request.qos < 3
      → length request.topic < 16379
      → IsNew (around.split.split request.topic slash) c.subscriptions
      → is_among at.filter c.subscriptions.destroyed ≡ false
      → IsSent id at request c
  unfolding requested topics_size
  first_attempt id at request c id_lt qos_lt short new alive =
      let b : Connection = before id at request c in
      let e = task_found at request c in
      let (p, v, same_id, filters, ongoing, events, _) =
        subscribe_send-sends around ready at.task_arg id true b id_lt
          (ap (λ t. t.subscribe.fixed_header.packet_type) e)
          (subst (λ t. All IsRequest t.topics) (sym e)
            (record { filter_fits = omega arith; qos_lt = qos_lt }, tt))
          (subst (λ t. 2 + topics_size t.topics < 16384) (sym e) (omega arith))
          (λ q.
            subst (λ t. KeepsStrings around ready t q b) (sym e)
              (keeps_one around ready (new_topic at request) zero_subscribe q b new.no_owner
                alive)) in
      let (table, _) =
        subscribe_send-subscribes around ready.static at.task_arg id true b
          (ap (λ t. t.tree_updated) e) ongoing in
      let rest = subscribe_send-rest around ready.static at.task_arg id true b in
      record {
        packet = p;
        well_formed = v;
        same_id = same_id;
        filters = filters ∙ ap (λ t. requested t.topics) e;
        ongoing = ongoing;
        events = events;
        table = λ q.
            table q
            ∙ ap
                (λ t.
                  subscribe_each (by_parts around.split (subscribers t.topics))
                    (table_of c.subscriptions) q)
                e
            ∙ one_subscribed at request c q;
        outstanding = ap (λ (d : Connection). d.outstanding_requests) rest;
        state = ap (λ (d : Connection). d.state) rest;
        timeout = ap (λ (d : Connection). d.request_timeout_ns) rest;
      }

  accepted :
      (at : Allocated) (request : TopicSubscription) (c : Connection)
      → is_valid_topic_filter around.split request.topic ≡ true
      → 0 < at.task_arg
      → 0 < at.task_topic
      → 0 < at.filter
      → connection_subscribe around pool at request c
        ≡ create_request around.channel
            (subscribe_send around at.task_arg)
            pool
            true
            (with_subscribe around pool at request c)
  unfolding connection_subscribe
  accepted at request c valid arg topic filter = ground (arith, valid, arg, topic, filter)

  -- A subscribe on the channel's thread while the connection is up, to a valid topic filter below 16379
  -- bytes that is not subscribed to yet, in a tree whose strings are in order, with a copy of it whose
  -- address is that of no destroyed string, a QoS below 3, with
  -- memory for it and fewer than 65535 requests outstanding; the lists
  -- grow, the channel is open and sends, and its pool gives empty messages of at least the size that is
  -- asked for. It returns a message id that is not 0 and was not in use; the bytes of a well-formed
  -- SUBSCRIBE with that id and the topic filter are sent, and the next attempt is scheduled; the table
  -- of subscriptions has the new subscription at the parts of the topic filter and is otherwise
  -- what it was; and the request is outstanding.
  pub connection_subscribe-sends :
      (at : Allocated) (request : TopicSubscription) (c : Connection)
      → is_valid_topic_filter around.split request.topic ≡ true
      → 0 < at.task_arg
      → 0 < at.task_topic
      → 0 < at.filter
      → request.qos < 3
      → length request.topic < 16379
      → IsNew (around.split.split request.topic slash) c.subscriptions
      → is_among at.filter c.subscriptions.destroyed ≡ false
      → is_connected c.state ≡ true
      → length c.outstanding_requests < 65535
      → (id : ℕ) × (d : Connection) × (p : SubscribePacket) × (connection_subscribe around pool at
            request c
          ≡ (id, d))
        × (0 < id)
        × (find_request id c.outstanding_requests ≡ none)
        × IsSubscribe p
        × (p.packet_identifier ≡ id)
        × (p.topic_filters ≡ record { topic_filter = request.topic; qos = request.qos } ∷ [])
        × (d.events
            ≡ c.events
              ++ (send_message (subscribe_bytes p)
                  ∷ schedule_retry id
                      ((around.channel.current_clock_time + c.request_timeout_ns) % 2 ^ 64)
                  ∷ []))
        × ((q : List Part)
            → table_of d.subscriptions q
              ≡ subscribe
                  (around.split.split request.topic slash)
                  (subscriber_of (new_topic at request))
                  (table_of c.subscriptions)
                  q)
        × (find_request id d.outstanding_requests ≡ some (mark_initiated (new_request id true)))
  connection_subscribe-sends at request c valid arg topic filter qos short new alive up few =
      let send : SendRequest = subscribe_send around at.task_arg in
      let (id, above, below, free, created) =
        create_request_connected around.channel send pool true
          (with_subscribe around pool at request c) served.acquires served.puts served.on_thread up
          few
          (λ id a b.
            let s = first_attempt id at request c b qos short new alive in
            (s.ongoing, s.outstanding, s.state)) in
      let s = first_attempt id at request c below qos short new alive in
      (
        id,
        retry around.channel send id (after id at request c),
        s.packet,
        accepted at request c valid arg topic filter ∙ created,
        above,
        free,
        s.well_formed,
        s.same_id,
        s.filters,
        retry-events around.channel send id c (after id at request c)
            (send_message (subscribe_bytes s.packet) ∷ []) s.events s.timeout,
        s.table,
        retry-found around.channel send id true (with_subscribe around pool at request c)
            (after id at request c) s.outstanding,
      )
