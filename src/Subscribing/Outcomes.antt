-- ===== src/Subscribing/Outcomes.antt =====
-- What an attempt at a subscribe (`s_subscribe_send` of source/client.c) leaves in its transaction.
use aws_c_mqtt.Base.{
  ℕ, ◌≡◌, refl, sym, ap, subst, ◌∙◌, Bool, true, false, List, [], ◌∷◌, length, arith,
}
use aws_c_mqtt.Bytes.{Error, Op, Outcome, ok, err, >>=-ok}
use aws_c_mqtt.Packets.Filters.{ArrayOps}
use aws_c_mqtt.Packets.Subscribe.{SubscribePacket}
use aws_c_mqtt.TopicTree.Action.{Action, AString, Subscriber, Transaction, IsStatic}
use aws_c_mqtt.TopicTree.Transaction.{transaction_insert_each, transaction_roll_back, roll_back_all}
use aws_c_mqtt.TopicTree.Subscribe.{HaveCallbacks, callbacks_none, callbacks_more}
use aws_c_mqtt.Client.{Connection}
use aws_c_mqtt.Client.Tasks.{TaskTopic, SubscribeTask}
use aws_c_mqtt.Subscribing.{
  Attempt, Surroundings, on_packet, on_transaction, do_if, empty_transaction, add_topic,
  insert_topic, subscriber_of, subscribe_topic, subscribe_topics, subscribe_attempt, start,
  tree_after, encode_subscribe, send_subscribe,
}
use aws_c_mqtt.Subscribing.Attempts.{
  Leaves, Leaves->>, IsUndoable, IsUntouched, subscribe_topics-Leaves, send_packet-Leaves,
}

pub Leaves-map :
    {S : Type 0} {I J E F : S → Type 0} (o : Outcome S (Unit {0}))
    → ((t : S) → I t → J t)
    → ((t : S) → E t → F t)
    → Leaves I E o
    → Leaves J F o
Leaves-map (ok _ s) f g h = f s h
Leaves-map (err _ s) f g h = g s h

-- The topic filters of a task, with what they are subscribed with.
unfoldable pub subscribers : List TaskTopic → List (AString × Subscriber)
subscribers [] = []
subscribers (topic ∷ topics) = (topic.filter, subscriber_of topic) ∷ subscribers topics

pub subscribers-HaveCallbacks : (topics : List TaskTopic) → HaveCallbacks (subscribers topics)
unfolding subscribers
subscribers-HaveCallbacks [] = callbacks_none
subscribers-HaveCallbacks (topic ∷ topics) =
    callbacks_more topic.filter (subscriber_of topic) (subscribers topics) (omega arith)
      (subscribers-HaveCallbacks topics)

pub length-subscribers : (topics : List TaskTopic) → length (subscribers topics) ≡ length topics
unfolding subscribers
length-subscribers [] = refl
length-subscribers (topic ∷ topics) = omega (arith, length-subscribers topics)

-- A tree that an attempt is undone on.
pub undone_tree :
    {P : Type 0} (tree_updated : Bool) (e : Error) (c : Connection) (s : Attempt P)
    → IsUndoable c.subscriptions.root c s
    → (tree_after tree_updated (err e s)).root ≡ c.subscriptions.root
unfolding transaction_roll_back
undone_tree true e c s v = ap (λ (d : Connection). d.subscriptions.root) v.same_connection
undone_tree false e c s v = v.undone s.transaction.tree refl

-- A tree that was updated before stays.
pub updated_tree :
    {P : Type 0} (b : Bool) (o : Outcome (Attempt P) (Unit {0})) (c : Connection)
    → b ≡ true
    → Leaves (IsUntouched c) (IsUndoable c.subscriptions.root c) o
    → tree_after b o ≡ c.subscriptions
updated_tree true (ok u s) c k v = ap (λ (d : Connection). d.subscriptions) v
updated_tree true (err x s) c k v = ap (λ (d : Connection). d.subscriptions) v.same_connection
updated_tree false o c k v = absurd (cc k)

-- A transaction and a connection, as calls leave them.
abbrev pub IsLeft : {P : Type 0} → Op Transaction (Unit {0}) → Attempt P → Attempt P → Type 0
IsLeft m s t = (m s.transaction ≡ ok tt t.transaction) × (t.connection ≡ s.connection)

on_transaction-IsLeft :
    {P : Type 0} (m : Op Transaction (Unit {0})) (s : Attempt P)
    → Leaves (IsLeft m s) (λ _. Unit {0}) (on_transaction m s)
on_transaction-IsLeft {P} m s = step (m s.transaction) refl
  where
    step :
        (o : Outcome Transaction (Unit {0}))
        → m s.transaction ≡ o
        → Leaves
            (IsLeft m s)
            (λ _. Unit {0})
            (elim o as (λ _. Outcome (Attempt P) (Unit {0})) [
              | ok _ x ↦ ok tt (record s { transaction = x })
              | err e x ↦ err e (record s { transaction = x })
            ])
    step (ok _ x) h = (h, refl)
    step (err _ x) h = tt

abbrev IsKept : {P : Type 0} → Attempt P → Attempt P → Type 0
IsKept s t = (t.transaction ≡ s.transaction) × (t.connection ≡ s.connection)

on_packet-IsKept :
    {P : Type 0} (b : Bool) (m : Op P (Unit {0})) (s : Attempt P)
    → Leaves (IsKept s) (λ _. Unit {0}) (do_if b (on_packet m) s)
on_packet-IsKept false m s = (refl, refl)
on_packet-IsKept {P} true m s = step (m s.packet)
  where
    step :
        (o : Outcome P (Unit {0}))
        → Leaves
            (IsKept s)
            (λ _. Unit {0})
            (elim o as (λ _. Outcome (Attempt P) (Unit {0})) [
              | ok _ x ↦ ok tt (record s { packet = x })
              | err e x ↦ err e (record s { packet = x })
            ])
    step (ok _ x) = (refl, refl)
    step (err _ x) = tt

module _ (around : Surroundings) where
  -- Where the loop succeeds, its insertions did.
  pub subscribe_topics-IsLeft :
      (actions : ArrayOps Action) (initing : Bool) (topics : List TaskTopic)
      (s : Attempt SubscribePacket)
      → Leaves
          (IsLeft (transaction_insert_each around.split actions (subscribers topics)) s)
          (λ _. Unit {0})
          (subscribe_topics around actions initing false topics s)
  unfolding subscribe_topics subscribe_topic transaction_insert_each subscribers
  subscribe_topics-IsLeft actions initing [] s = (refl, refl)
  subscribe_topics-IsLeft actions initing (topic ∷ topics) s =
      Leaves->> (IsLeft (insert_topic around actions topic) s) _ _
        (subscribe_topic around actions initing false topic)
        (subscribe_topics around actions initing false topics) s
        (Leaves->> (IsKept s) (IsLeft (insert_topic around actions topic) s) _
          (do_if initing (on_packet (add_topic around topic)))
          (on_transaction (insert_topic around actions topic)) s
          (on_packet-IsKept initing (add_topic around topic) s)
          (λ t k.
            Leaves-map (on_transaction (insert_topic around actions topic) t)
              (λ u h. (ap (insert_topic around actions topic) (sym k.0) ∙ h.0, h.1 ∙ k.1))
              (λ u h. h) (on_transaction-IsLeft (insert_topic around actions topic) t)))
        (λ t k.
          Leaves-map (subscribe_topics around actions initing false topics t)
            (λ u h. (
              >>=-ok (insert_topic around actions topic)
                    (λ _. transaction_insert_each around.split actions (subscribers topics)) k.0
                  ∙ h.0,
              h.1 ∙ k.1,
            ))
            (λ u h. h) (subscribe_topics-IsLeft actions initing topics t))

start-IsUndoable :
    {P : Type 0} (packet : P) (c : Connection) → IsUndoable c.subscriptions.root c (start packet c)
unfolding roll_back_all
start-IsUndoable packet c = record { undone = λ u e. e; same_connection = refl }

module _ (around : Surroundings) (static : (n : ℕ) → IsStatic (around.actions n) n) where
  pub subscribe_attempt-Leaves :
      (initing : Bool) (task : SubscribeTask) (packet : SubscribePacket) (c : Connection)
      → Leaves
          (IsUntouched c)
          (IsUndoable c.subscriptions.root c)
          (subscribe_attempt around initing task (start packet c))
  subscribe_attempt-Leaves initing task packet c =
      let loop : Op (Attempt SubscribePacket) (Unit {0}) =
        subscribe_topics around (around.actions (length task.topics)) initing task.tree_updated
          task.topics in
      let sending : Op (Attempt SubscribePacket) (Unit {0}) = send_subscribe around task.topics in
      Leaves->> (IsUndoable c.subscriptions.root c) (IsUntouched c) _ loop sending (start packet c)
        (subscribe_topics-Leaves around (around.actions (length task.topics)) (length task.topics)
          (static (length task.topics)) c.subscriptions.root c initing task.tree_updated task.topics
          (start packet c) (start-IsUndoable packet c, omega arith))
        (λ t v.
          Leaves-map (sending t)
            (λ u h.
              h.1
              ∙ ap (λ (d : Connection). record d { events = u.connection.events })
                  v.same_connection)
            (λ u h. subst (IsUndoable c.subscriptions.root c) (sym h) v)
            (send_packet-Leaves around.channel (λ p. p.fixed_header)
              (encode_subscribe around t.transaction.tree task.topics) t))

  pub subscribe_attempt-IsLeft :
      (initing : Bool) (task : SubscribeTask) (packet : SubscribePacket) (c : Connection)
      → task.tree_updated ≡ false
      → Leaves
          (λ t.
            transaction_insert_each around.split
              (around.actions (length task.topics))
              (subscribers task.topics)
              (empty_transaction c.subscriptions)
            ≡ ok tt t.transaction)
          (λ _. Unit {0})
          (subscribe_attempt around initing task (start packet c))
  subscribe_attempt-IsLeft initing task packet c e =
      Leaves->> Inserted Inserted _ (loop task.tree_updated) sending (start packet c)
        (looped task.tree_updated e)
        (λ t h.
          Leaves-map (sending t) (λ u k. h ∙ ap (ok tt) (sym k.0)) (λ u k. tt)
            (send_packet-Leaves around.channel (λ p. p.fixed_header)
              (encode_subscribe around t.transaction.tree task.topics) t))
    where
      actions : ArrayOps Action
      actions = around.actions (length task.topics)

      loop : Bool → Op (Attempt SubscribePacket) (Unit {0})
      loop b = subscribe_topics around actions initing b task.topics

      sending : Op (Attempt SubscribePacket) (Unit {0})
      sending = send_subscribe around task.topics

      Inserted : Attempt SubscribePacket → Type 0
      Inserted t =
          transaction_insert_each around.split actions (subscribers task.topics)
            (empty_transaction c.subscriptions)
          ≡ ok tt t.transaction

      looped : (b : Bool) → b ≡ false → Leaves Inserted (λ _. Unit {0}) (loop b (start packet c))
      looped true k = absurd (cc k)
      looped false k =
          Leaves-map (loop false (start packet c)) (λ u h. h.0) (λ u h. h)
            (subscribe_topics-IsLeft around actions initing task.topics (start packet c))
