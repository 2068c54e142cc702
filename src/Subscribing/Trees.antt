-- ===== src/Subscribing/Trees.antt =====
-- What a subscribe (`s_subscribe_send` of source/client.c) makes of the topic tree.
use aws_c_mqtt.Base.{ℕ, ◌≡◌, ◌≢◌, refl, ap, subst, Bool, true, false, List, ◌==◌, length, arith}
use aws_c_mqtt.Bytes.{Outcome, ok, err, use_after_free}
use aws_c_mqtt.Packets.Subscribe.{SubscribePacket}
use aws_c_mqtt.TopicTree.{Part}
use aws_c_mqtt.TopicTree.Action.{Transaction, IsStatic}
use aws_c_mqtt.TopicTree.Transaction.{transaction_insert_each, transaction_commit}
use aws_c_mqtt.TopicTree.Subscribe.{table_of, subscribe_each, by_parts, transaction_subscribe_lem}
use aws_c_mqtt.Client.{Connection}
use aws_c_mqtt.Client.Tasks.{SubscribeTask, write_subscribe}
use aws_c_mqtt.Requests.{RequestState, request_ongoing, request_error}
use aws_c_mqtt.Subscribing.{
  Attempt, Surroundings, empty_transaction, subscribe_attempt, subscribe_init_if, subscribe_go_on,
  subscribe_settle, start, subscribe_send, tree_after,
}
use aws_c_mqtt.Subscribing.Attempts.{Leaves, IsUndoable, IsUntouched}
use aws_c_mqtt.Subscribing.Outcomes.{
  subscribers, subscribers-HaveCallbacks, length-subscribers, undone_tree, updated_tree,
  subscribe_attempt-Leaves, subscribe_attempt-IsLeft,
}

module _ (around : Surroundings) (static : (n : ℕ) → IsStatic (around.actions n) n) where
  -- Where the transaction has room for every topic filter of the task, and there is memory for every node of
  -- the tree: an attempt that does not succeed, because the packet is not initialized, a topic filter
  -- is not added to it, no message is acquired or the packet is not encoded, and that reads no string
  -- that was destroyed, leaves the nodes of the tree as they were.
  pub subscribe_send-failed :
      (address id : ℕ) (first : Bool) (c : Connection)
      → (subscribe_send around address id first c).0 ≢ request_ongoing
      → (subscribe_send around address id first c).0 ≢ request_error use_after_free
      → (subscribe_send around address id first c).1.subscriptions.root ≡ c.subscriptions.root
  unfolding subscribe_send
  subscribe_send-failed address id first c e defined =
      inited (subscribe_init_if around initing id task.subscribe) e
    where
      task : SubscribeTask
      task = c.memory.subscribes address

      initing : Bool
      initing = task.subscribe.fixed_header.packet_type == 0

      settled :
          (o : Outcome (Attempt SubscribePacket) (Unit {0}))
          → Leaves (IsUntouched c) (IsUndoable c.subscriptions.root c) o
          → (subscribe_settle around address task o).0 ≢ request_ongoing
          → (subscribe_settle around address task o).1.subscriptions.root ≡ c.subscriptions.root
      settled (ok u s) v k = absurd (k refl)
      settled (err x s) v k = undone_tree task.tree_updated x c s v

      inited :
          (o : Outcome SubscribePacket (Unit {0}))
          → (subscribe_go_on around address initing task c o).0 ≢ request_ongoing
          → (subscribe_go_on around address initing task c o).1.subscriptions.root
            ≡ c.subscriptions.root
      inited (err x packet) k = refl
      inited (ok _ packet) k =
          settled (subscribe_attempt around initing task (start packet c))
            (subscribe_attempt-Leaves around static initing task packet c) k

  -- Where the tree was updated by an earlier attempt, an attempt leaves the tree alone.
  pub subscribe_send-updated :
      (address id : ℕ) (first : Bool) (c : Connection)
      → (c.memory.subscribes address).tree_updated ≡ true
      → (subscribe_send around address id first c).1.subscriptions ≡ c.subscriptions
  unfolding subscribe_send
  subscribe_send-updated address id first c updated =
      inited (subscribe_init_if around initing id task.subscribe)
    where
      task : SubscribeTask
      task = c.memory.subscribes address

      initing : Bool
      initing = task.subscribe.fixed_header.packet_type == 0

      settled :
          (o : Outcome (Attempt SubscribePacket) (Unit {0}))
          → Leaves (IsUntouched c) (IsUndoable c.subscriptions.root c) o
          → (subscribe_settle around address task o).1.subscriptions ≡ c.subscriptions
      settled (ok u s) v = updated_tree task.tree_updated (ok u s) c updated v
      settled (err x s) v = updated_tree task.tree_updated (err x s) c updated v

      inited :
          (o : Outcome SubscribePacket (Unit {0}))
          → (subscribe_go_on around address initing task c o).1.subscriptions ≡ c.subscriptions
      inited (err x packet) = refl
      inited (ok _ packet) =
          settled (subscribe_attempt around initing task (start packet c))
            (subscribe_attempt-Leaves around static initing task packet c)

  -- An attempt changes nothing of the connection but its tree, the task, and the events.
  pub subscribe_send-rest :
      (address id : ℕ) (first : Bool) (c : Connection)
      → let d = (subscribe_send around address id first c).1 in
        d ≡ record c { subscriptions = d.subscriptions; memory = d.memory; events = d.events }
  unfolding subscribe_send
  subscribe_send-rest address id first c =
      inited (subscribe_init_if around initing id task.subscribe)
    where
      task : SubscribeTask
      task = c.memory.subscribes address

      initing : Bool
      initing = task.subscribe.fixed_header.packet_type == 0

      Kept : Connection → Type 0
      Kept d =
          d ≡ record c { subscriptions = d.subscriptions; memory = d.memory; events = d.events }

      settled :
          (o : Outcome (Attempt SubscribePacket) (Unit {0}))
          → Leaves (IsUntouched c) (IsUndoable c.subscriptions.root c) o
          → Kept (subscribe_settle around address task o).1
      settled (ok u s) v =
          ap
            (λ (d : Connection). record d {
              subscriptions = tree_after task.tree_updated (ok u s);
              memory =
                  write_subscribe address
                    (record task { subscribe = s.packet; tree_updated = true }) s.connection.memory;
            })
            v
      settled (err x s) v =
          ap
            (λ (d : Connection). record d {
              subscriptions = tree_after task.tree_updated (err x s);
              memory =
                  write_subscribe address (record task { subscribe = s.packet })
                    s.connection.memory;
              events = s.connection.events;
            })
            v.same_connection

      inited :
          (o : Outcome SubscribePacket (Unit {0}))
          → Kept (subscribe_go_on around address initing task c o).1
      inited (err x packet) = refl
      inited (ok _ packet) =
          settled (subscribe_attempt around initing task (start packet c))
            (subscribe_attempt-Leaves around static initing task packet c)

  -- The table of subscriptions that an attempt which succeeds has for the first time.
  IsSubscribed : ℕ → Connection → RequestState × Connection → Type 0
  IsSubscribed address c r =
      r.0 ≡ request_ongoing
      → ((q : List Part)
          → table_of r.1.subscriptions q
            ≡ subscribe_each
                (by_parts around.split (subscribers (c.memory.subscribes address).topics))
                (table_of c.subscriptions) q)
        × ((r.1.memory.subscribes address).tree_updated ≡ true)

  -- Where the transaction has room for every topic filter of the task, and the tree was not updated
  -- before: an attempt that succeeds makes of the table of subscriptions what putting each topic filter
  -- of the task in it in order makes, and notes in the task that the tree is updated.
  pub subscribe_send-subscribes :
      (address id : ℕ) (first : Bool) (c : Connection)
      → (c.memory.subscribes address).tree_updated ≡ false
      → (subscribe_send around address id first c).0 ≡ request_ongoing
      → ((q : List Part)
          → table_of (subscribe_send around address id first c).1.subscriptions q
            ≡ subscribe_each
                (by_parts around.split (subscribers (c.memory.subscribes address).topics))
                (table_of c.subscriptions)
                q)
        × (((subscribe_send around address id first c).1.memory.subscribes address).tree_updated
            ≡ true)
  unfolding subscribe_send IsSubscribed
  subscribe_send-subscribes address id first c fresh e =
      inited (subscribe_init_if around initing id task.subscribe) e
    where
      task : SubscribeTask
      task = c.memory.subscribes address

      initing : Bool
      initing = task.subscribe.fixed_header.packet_type == 0

      Inserted : Attempt SubscribePacket → Type 0
      Inserted t =
          transaction_insert_each around.split (around.actions (length task.topics))
            (subscribers task.topics) (empty_transaction c.subscriptions)
          ≡ ok tt t.transaction

      committed :
          (b : Bool) (s : Attempt SubscribePacket) (q : List Part)
          → b ≡ false
          → Inserted s
          → table_of (tree_after b (ok tt s)) q
            ≡ subscribe_each
                (by_parts around.split (subscribers task.topics))
                (table_of c.subscriptions)
                q
      committed true s q k h = absurd (cc k)
      committed false s q k h =
          let (x, run, _, table) =
            transaction_subscribe_lem around.split (static (length task.topics))
              (subscribers task.topics) c.subscriptions
              (omega (arith, length-subscribers task.topics))
              (subscribers-HaveCallbacks task.topics) in
          subst
            (λ (y : Transaction).
              table_of (transaction_commit y).tree q
              ≡ subscribe_each (by_parts around.split (subscribers task.topics))
                  (table_of c.subscriptions) q)
            (cc (run, h)) (table q)

      settled :
          (o : Outcome (Attempt SubscribePacket) (Unit {0}))
          → Leaves Inserted (λ _. Unit {0}) o
          → IsSubscribed address c (subscribe_settle around address task o)
      settled (ok tt s) v k = (λ q. committed task.tree_updated s q fresh v, ground arith)
      settled (err x s) v k = absurd (cc k)

      inited :
          (o : Outcome SubscribePacket (Unit {0}))
          → IsSubscribed address c (subscribe_go_on around address initing task c o)
      inited (err x packet) k = absurd (cc k)
      inited (ok _ packet) k =
          settled (subscribe_attempt around initing task (start packet c))
            (subscribe_attempt-IsLeft around static initing task packet c fresh) k
