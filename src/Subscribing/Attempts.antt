-- ===== src/Subscribing/Attempts.antt =====
-- What the attempts of a subscribe and an unsubscribe (source/client.c) keep, whichever of their calls
-- fails.
use aws_c_mqtt.Base.{
  ℕ, suc, ◌+◌, ◌%◌, ◌^◌, ◌≤◌, ◌≡◌, refl, sym, ap, subst, ◌∙◌, Bool, true, false, not, List, [], ◌∷◌,
  ◌++◌, Option, none, some, if◌then◌else◌, length, length-append, arith,
}
use aws_c_mqtt.Bytes.{ByteBuf, Op, Outcome, ok, err, ◌>>◌, raised_elsewhere}
use aws_c_mqtt.FixedHeader.{FixedHeader}
use aws_c_mqtt.Packets.Filters.{ArrayOps}
use aws_c_mqtt.Packets.Subscribe.{SubscribePacket}
use aws_c_mqtt.TopicTree.{Node, TopicTree}
use aws_c_mqtt.TopicTree.Action.{Action, Transaction, IsStatic}
use aws_c_mqtt.TopicTree.Commit.{action_roll_back}
use aws_c_mqtt.TopicTree.Transaction.{roll_back_all}
use aws_c_mqtt.TopicTree.Insert.{transaction_insert_lem}
use aws_c_mqtt.Client.{send_message, Connection, ChannelOps, emit}
use aws_c_mqtt.Client.Tasks.{TaskTopic}
use aws_c_mqtt.Subscribing.{
  Attempt, Surroundings, on_packet, on_transaction, do_if, send_packet, add_topic, insert_topic,
  subscriber_of, subscribe_topic, subscribe_topics,
}

-- What holds of the state that a call leaves.
abbrev pub Leaves {ℓ} : {S : Type ℓ} → (S → Type 0) → (S → Type 0) → Outcome S (Unit {0}) → Type 0
Leaves on_ok on_err (ok _ s) = on_ok s
Leaves on_ok on_err (err _ s) = on_err s

pub Leaves->> :
    {S : Type 0} (I J E : S → Type 0) (m k : Op S (Unit {0})) (s : S)
    → Leaves I E (m s)
    → ((t : S) → I t → Leaves J E (k t))
    → Leaves J E ((m >> k) s)
Leaves->> {S} I J E m k s h next = step (m s) h
  where
    step :
        (o : Outcome S (Unit {0}))
        → Leaves I E o
        → Leaves J E (elim o as (λ _. Outcome S (Unit {0})) [ ok a t ↦ k t | err e t ↦ err e t ])
    step (ok a t) i = next t i
    step (err e t) i = i

-- Rolling the transaction back gives the nodes that were there before it.
abbrev pub IsUndone : Node → Transaction → Type 0
IsUndone root x = (u : TopicTree) → u.root ≡ x.tree.root → (roll_back_all x.actions u).root ≡ root

roll_back_all_snoc :
    (bs : List Action) (b : Action) (u : TopicTree)
    → roll_back_all (bs ++ (b ∷ [])) u ≡ roll_back_all bs (action_roll_back b u)
unfolding roll_back_all
roll_back_all_snoc [] b u = refl
roll_back_all_snoc (a ∷ bs) b u = ap (action_roll_back a) (roll_back_all_snoc bs b u)

-- An attempt that began with a connection and can still be undone.
pub record IsUndoable {P : Type 0} (root : Node) (c : Connection) (s : Attempt P) : Type 0 where
  pub undone : IsUndone root s.transaction
  pub same_connection : s.connection ≡ c

-- A connection that an attempt changed in its events alone.
abbrev pub IsUntouched : {P : Type 0} → Connection → Attempt P → Type 0
IsUntouched c t = t.connection ≡ record c { events = t.connection.events }

abbrev pub HasRoom : {P : Type 0} → ℕ → ℕ → Node → Connection → Attempt P → Type 0
HasRoom n more root c s = IsUndoable root c s × (length s.transaction.actions + more ≤ n)

pub on_packet-Leaves :
    {P : Type 0} (J : Attempt P → Type 0) (root : Node) (c : Connection) (m : Op P (Unit {0}))
    (s : Attempt P)
    → IsUndoable root c s
    → ((packet : P) → J (record s { packet = packet }))
    → Leaves J (IsUndoable root c) (on_packet m s)
on_packet-Leaves {P} J root c m s v next = step (m s.packet)
  where
    step :
        (o : Outcome P (Unit {0}))
        → Leaves J (IsUndoable root c) (elim o as (λ _. Outcome (Attempt P) (Unit {0})) [
          | ok _ packet ↦ ok tt (record s { packet = packet })
          | err e packet ↦ err e (record s { packet = packet })
        ])
    step (ok _ packet) = next packet
    step (err e packet) = record { undone = v.undone; same_connection = v.same_connection }

pub do_if-Leaves :
    {P : Type 0} (J E : Attempt P → Type 0) (b : Bool) (m : Op (Attempt P) (Unit {0}))
    (s : Attempt P)
    → (b ≡ true → Leaves J E (m s))
    → J s
    → Leaves J E (do_if b m s)
do_if-Leaves J E true m s h i = h refl
do_if-Leaves J E false m s h i = i

-- A call on the transaction that is known to succeed.
pub on_transaction-ok :
    {P : Type 0} (m : Op Transaction (Unit {0})) (s : Attempt P) (x : Transaction)
    → m s.transaction ≡ ok tt x
    → on_transaction m s ≡ ok tt (record s { transaction = x })
on_transaction-ok m s x e = rw (on_transaction, e) refl

module _ (around : Surroundings) (actions : ArrayOps Action) (n : ℕ) (static : IsStatic actions n)
    (root : Node) (c : Connection) where
  insert-Leaves :
      (topic : TaskTopic) (more : ℕ) (s : Attempt SubscribePacket)
      → HasRoom n (suc more) root c s
      → Leaves
          (HasRoom n more root c)
          (IsUndoable root c)
          (on_transaction (insert_topic around actions topic) s)
  insert-Leaves topic more s (v, room) =
      let (t', b, run, inserted) =
        transaction_insert_lem around.split static topic.filter (subscriber_of topic) s.transaction
          (omega arith) in
      subst (Leaves (HasRoom n more root c) (IsUndoable root c))
        (sym (on_transaction-ok (insert_topic around actions topic) s _ run))
        (
          record {
            undone = λ u e.
                ap (λ (t : TopicTree). t.root) (roll_back_all_snoc s.transaction.actions b u)
                ∙ v.undone (action_roll_back b u) (inserted.undone u e);
            same_connection = v.same_connection;
          },
          omega (arith, length-append s.transaction.actions (b ∷ [])),
        )

  subscribe_topic-Leaves :
      (initing updated : Bool) (topic : TaskTopic) (more : ℕ) (s : Attempt SubscribePacket)
      → HasRoom n (suc more) root c s
      → Leaves
          (HasRoom n more root c)
          (IsUndoable root c)
          (subscribe_topic around actions initing updated topic s)
  unfolding subscribe_topic
  subscribe_topic-Leaves initing updated topic more s (v, room) =
      Leaves->> (HasRoom n (suc more) root c) (HasRoom n more root c) (IsUndoable root c)
        (do_if initing (on_packet (add_topic around topic)))
        (do_if (not updated) (on_transaction (insert_topic around actions topic))) s
        (do_if-Leaves (HasRoom n (suc more) root c) (IsUndoable root c) initing
          (on_packet (add_topic around topic)) s
          (λ _.
            on_packet-Leaves (HasRoom n (suc more) root c) root c (add_topic around topic) s v
              (λ packet. (record { undone = v.undone; same_connection = v.same_connection }, room)))
          (v, room))
        (λ t i.
          do_if-Leaves (HasRoom n more root c) (IsUndoable root c) (not updated)
            (on_transaction (insert_topic around actions topic)) t
            (λ _. insert-Leaves topic more t i) (i.0, omega (arith, i.1)))

  -- The loop, over an array with room for the topics: whether it succeeds or not, what it did can be
  -- undone.
  pub subscribe_topics-Leaves :
      (initing updated : Bool) (topics : List TaskTopic) (s : Attempt SubscribePacket)
      → HasRoom n (length topics) root c s
      → Leaves
          (IsUndoable root c)
          (IsUndoable root c)
          (subscribe_topics around actions initing updated topics s)
  unfolding subscribe_topics
  subscribe_topics-Leaves initing updated [] s i = i.0
  subscribe_topics-Leaves initing updated (topic ∷ topics) s i =
      Leaves->> (HasRoom n (length topics) root c) (IsUndoable root c) (IsUndoable root c)
        (subscribe_topic around actions initing updated topic)
        (subscribe_topics around actions initing updated topics) s
        (subscribe_topic-Leaves initing updated topic (length topics) s i)
        (λ t j. subscribe_topics-Leaves initing updated topics t j)

-- Sending the packet changes the connection's events alone, and nothing where it fails.
pub send_packet-Leaves :
    {P : Type 0} (channel : ChannelOps) (header : P → FixedHeader)
    (encode : P → Op ByteBuf (Unit {0})) (s : Attempt P)
    → Leaves
        (λ t. (t.transaction ≡ s.transaction) × IsUntouched s.connection t)
        (λ t. t ≡ s)
        (send_packet channel header encode s)
unfolding send_packet
send_packet-Leaves {P} channel header encode s =
    acquired (channel.acquire_message ((3 + (header s.packet).remaining_length) % 2 ^ 64))
  where
    Sent : Outcome (Attempt P) (Unit {0}) → Type 0
    Sent o =
        Leaves (λ t. (t.transaction ≡ s.transaction) × IsUntouched s.connection t) (λ t. t ≡ s) o

    given :
        (filled : ByteBuf) (b : Bool)
        → Sent (
            ok tt (
              if b
              then record s { connection = emit (send_message filled.buffer) s.connection }
              else s))
    given filled true = (refl, refl)
    given filled false = (refl, refl)

    encoded :
        (o : Outcome ByteBuf (Unit {0}))
        → Sent (elim o as (λ _. Outcome (Attempt P) (Unit {0})) [
          | err e _ ↦ err e s
          | ok _ filled ↦ ok tt (
              if channel.can_send filled.buffer
              then record s { connection = emit (send_message filled.buffer) s.connection }
              else s)
        ])
    encoded (err e _) = refl
    encoded (ok _ filled) = given filled (channel.can_send filled.buffer)

    acquired :
        (m : Option ByteBuf)
        → Sent (elim m as (λ _. Outcome (Attempt P) (Unit {0})) [
          | none ↦ err raised_elsewhere s
          | some message ↦ elim (encode s.packet message) as (λ _. Outcome (Attempt P) (Unit {0})) [
            | err e _ ↦ err e s
            | ok _ filled ↦ ok tt (
                if channel.can_send filled.buffer
                then record s { connection = emit (send_message filled.buffer) s.connection }
                else s)
          ]
        ])
    acquired none = refl
    acquired (some message) = encoded (encode s.packet message)
