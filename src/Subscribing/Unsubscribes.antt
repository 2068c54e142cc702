-- ===== src/Subscribing/Unsubscribes.antt =====
-- What an unsubscribe (`s_unsubscribe_send` of source/client.c) makes of the topic tree.
use aws_c_mqtt.Base.{
  ℕ, ◌≡◌, ◌≢◌, refl, sym, ap, subst, ◌∙◌, Bool, true, false, not, List, [], ◌∷◌, none,
  if◌then◌else◌, ◌==◌, arith,
}
use aws_c_mqtt.Bytes.{Op, Outcome, ok, err, ◌>>◌}
use aws_c_mqtt.Packets.Unsubscribe.{UnsubscribePacket, unsubscribe_encode}
use aws_c_mqtt.Topics.{slash}
use aws_c_mqtt.TopicTree.{Part, TopicTree}
use aws_c_mqtt.TopicTree.Action.{
  Transaction, IsStatic, transaction_remove, transaction_remove_parts, remove_action,
}
use aws_c_mqtt.TopicTree.Commit.{action_roll_back}
use aws_c_mqtt.TopicTree.Transaction.{commit_all, roll_back_all, transaction_commit}
use aws_c_mqtt.TopicTree.Fields.{path_eq}
use aws_c_mqtt.TopicTree.Subscriptions.{subscription_at}
use aws_c_mqtt.TopicTree.Owners.{IsRemovable}
use aws_c_mqtt.TopicTree.Remove.{transaction_remove_lem, commit_remove_action}
use aws_c_mqtt.Client.{Connection}
use aws_c_mqtt.Client.Tasks.{UnsubscribeTask, write_unsubscribe}
use aws_c_mqtt.Requests.{RequestState, request_ongoing}
use aws_c_mqtt.Subscribing.{
  Attempt, Surroundings, on_packet, on_transaction, do_if, send_packet, start, empty_transaction,
  init_unsubscribe, unsubscribe_attempt, unsubscribe_settle, unsubscribe_send, tree_after,
}
use aws_c_mqtt.Subscribing.Attempts.{
  Leaves, Leaves->>, IsUndoable, IsUntouched, on_packet-Leaves, do_if-Leaves, on_transaction-ok,
  send_packet-Leaves,
}
use aws_c_mqtt.Subscribing.Outcomes.{Leaves-map, undone_tree, updated_tree}

-- The transaction of an attempt, with whether the tree was updated before.
abbrev transaction_of : Bool → List Part → TopicTree → Transaction
transaction_of true parts t = empty_transaction t
transaction_of false parts t = record { tree = t; actions = remove_action parts t.root ∷ [] }

abbrev IsRemoving : {P : Type 0} → Bool → List Part → Connection → Attempt P → Type 0
IsRemoving b parts c t =
    (t.connection ≡ c) × (t.transaction ≡ transaction_of b parts c.subscriptions)

transaction_of-undone :
    (b : Bool) (parts : List Part) (t u : TopicTree)
    → u.root ≡ (transaction_of b parts t).tree.root
    → (roll_back_all (transaction_of b parts t).actions u).root ≡ t.root
unfolding roll_back_all action_roll_back
transaction_of-undone true parts t u e = e
transaction_of-undone false parts t u e = e

removing-IsUndoable :
    {P : Type 0} (b : Bool) (parts : List Part) (c : Connection) (t : Attempt P)
    → IsRemoving b parts c t
    → IsUndoable c.subscriptions.root c t
removing-IsUndoable b parts c t v = record {
  undone =
      subst
        (λ (x : Transaction).
          (u : TopicTree)
          → u.root ≡ x.tree.root
          → (roll_back_all x.actions u).root ≡ c.subscriptions.root)
        (sym v.1) (transaction_of-undone b parts c.subscriptions);
  same_connection = v.0;
}

start-IsUndoable :
    {P : Type 0} (packet : P) (c : Connection) → IsUndoable c.subscriptions.root c (start packet c)
start-IsUndoable packet c = removing-IsUndoable true [] c (start packet c) (refl, refl)

module _ (around : Surroundings) (static : (n : ℕ) → IsStatic (around.actions n) n) where
  -- A filter without parts is refused.
  remove-Leaves :
      {P : Type 0} (b : Bool) (filter : List ℕ) (packet : P) (c : Connection)
      → Leaves
          (IsRemoving b (around.split.split filter slash) c)
          (IsUndoable c.subscriptions.root c)
          (do_if
            (not b)
            (on_transaction (transaction_remove (around.actions 1) around.split filter))
            (start packet c))
  unfolding transaction_remove transaction_remove_parts
  remove-Leaves true filter packet c = (refl, refl)
  remove-Leaves {P} false filter packet c = step (around.split.split filter slash)
    where
      step :
          (parts : List Part)
          → Leaves
              (IsRemoving false parts c)
              (IsUndoable c.subscriptions.root c)
              (on_transaction (transaction_remove_parts (around.actions 1) parts) (start packet c))
      step [] = start-IsUndoable packet c
      step (p ∷ ps) =
          subst (Leaves (IsRemoving false (p ∷ ps) c) (IsUndoable c.subscriptions.root c))
            (sym (
              on_transaction-ok (transaction_remove_parts (around.actions 1) (p ∷ ps))
                (start packet c) _
                (transaction_remove_lem (static 1) (p ∷ ps) (empty_transaction c.subscriptions)
                  (omega arith) (λ e. cc))))
            (refl, refl)

  IsRemoved : UnsubscribeTask → Connection → Attempt UnsubscribePacket → Type 0
  IsRemoved task c t =
      IsUntouched c t
      × (t.transaction
          ≡ transaction_of task.tree_updated (around.split.split task.filter slash) c.subscriptions)

  unsubscribe_attempt-Leaves :
      (id : ℕ) (task : UnsubscribeTask) (c : Connection)
      → Leaves
          (IsRemoved task c)
          (IsUndoable c.subscriptions.root c)
          (unsubscribe_attempt around id task (start task.unsubscribe c))
  unfolding unsubscribe_attempt IsRemoved
  unsubscribe_attempt-Leaves id task c =
      let parts : List Part = around.split.split task.filter slash in
      let Mid : Attempt UnsubscribePacket → Type 0 = IsRemoving task.tree_updated parts c in
      let Undoable : Attempt UnsubscribePacket → Type 0 = IsUndoable c.subscriptions.root c in
      let removing : Op (Attempt UnsubscribePacket) (Unit {0}) =
        do_if (not task.tree_updated)
          (on_transaction (transaction_remove (around.actions 1) around.split task.filter)) in
      let initing : Op (Attempt UnsubscribePacket) (Unit {0}) =
        do_if (task.unsubscribe.fixed_header.packet_type == 0)
          (on_packet (init_unsubscribe around id task.filter)) in
      let sending : Op (Attempt UnsubscribePacket) (Unit {0}) =
        send_packet around.channel (λ p. p.fixed_header) (unsubscribe_encode around.io) in
      Leaves->> Mid _ Undoable (removing >> initing) sending (start task.unsubscribe c)
        (Leaves->> Mid Mid Undoable removing initing (start task.unsubscribe c)
          (remove-Leaves task.tree_updated task.filter task.unsubscribe c)
          (λ t v.
            do_if-Leaves Mid Undoable (task.unsubscribe.fixed_header.packet_type == 0)
              (on_packet (init_unsubscribe around id task.filter)) t
              (λ _.
                on_packet-Leaves Mid c.subscriptions.root c (init_unsubscribe around id task.filter)
                  t (removing-IsUndoable task.tree_updated parts c t v) (λ packet. v))
              v))
        (λ t v.
          Leaves-map (sending t)
            (λ u h. (
              h.1 ∙ ap (λ (d : Connection). record d { events = u.connection.events }) v.0,
              h.0 ∙ v.1,
            ))
            (λ u h. subst Undoable (sym h) (removing-IsUndoable task.tree_updated parts c t v))
            (send_packet-Leaves around.channel (λ p. p.fixed_header) (unsubscribe_encode around.io)
              t))

  -- Where the tree was not updated before, its strings are in order and the node of the topic filter has
  -- the string of a subscription: an unsubscribe that succeeds leaves no subscription at the parts of its topic filter and every other one as it was, and notes in the task that the tree is updated;
  -- one that fails, at whichever of its calls, leaves the nodes of the tree as they were.
  pub unsubscribe_send-unsubscribes :
      (address id : ℕ) (first : Bool) (c : Connection)
      → (c.memory.unsubscribes address).tree_updated ≡ false
      → IsRemovable
          (around.split.split (c.memory.unsubscribes address).filter slash)
          c.subscriptions
      → ((unsubscribe_send around address id first c).0 ≡ request_ongoing
          → ((q : List Part)
              → subscription_at q (unsubscribe_send around address id first c).1.subscriptions.root
                ≡ (if path_eq (around.split.split (c.memory.unsubscribes address).filter slash) q
                    then none
                    else subscription_at q c.subscriptions.root))
            × (((unsubscribe_send around address id first c).1.memory.unsubscribes
                  address).tree_updated
                ≡ true))
        × ((unsubscribe_send around address id first c).0 ≢ request_ongoing
            → (unsubscribe_send around address id first c).1.subscriptions.root
              ≡ c.subscriptions.root)
  unfolding unsubscribe_send IsRemoved transaction_commit commit_all
  unsubscribe_send-unsubscribes address id first c fresh removable =
      settled (unsubscribe_attempt around id task (start task.unsubscribe c))
        (unsubscribe_attempt-Leaves id task c)
    where
      task : UnsubscribeTask
      task = c.memory.unsubscribes address

      parts : List Part
      parts = around.split.split task.filter slash

      committed :
          (b : Bool) (s : Attempt UnsubscribePacket) (q : List Part)
          → b ≡ false
          → s.transaction ≡ transaction_of b parts c.subscriptions
          → subscription_at q (tree_after b (ok tt s)).root
            ≡ (if path_eq parts q then none else subscription_at q c.subscriptions.root)
      committed true s q k h = absurd (cc k)
      committed false s q k h =
          ap (λ (x : Transaction). subscription_at q (transaction_commit x).tree.root) h
          ∙ commit_remove_action parts q c.subscriptions

      Settled : RequestState × Connection → Type 0
      Settled r =
          (r.0 ≡ request_ongoing
            → ((q : List Part)
                → subscription_at q r.1.subscriptions.root
                  ≡ (if path_eq parts q then none else subscription_at q c.subscriptions.root))
              × ((r.1.memory.unsubscribes address).tree_updated ≡ true))
          × (r.0 ≢ request_ongoing → r.1.subscriptions.root ≡ c.subscriptions.root)

      settled :
          (o : Outcome (Attempt UnsubscribePacket) (Unit {0}))
          → Leaves (IsRemoved task c) (IsUndoable c.subscriptions.root c) o
          → Settled (unsubscribe_settle around address task o)
      settled (ok _ s) v = (
        λ k. (λ q. committed task.tree_updated s q fresh v.1, ground arith),
        λ k. absurd (k refl),
      )
      settled (err e s) v = (λ k. absurd (cc k), λ k. undone_tree task.tree_updated e c s v)

  -- Where the tree was updated by an earlier attempt, an attempt leaves the tree alone.
  pub unsubscribe_send-updated :
      (address id : ℕ) (first : Bool) (c : Connection)
      → (c.memory.unsubscribes address).tree_updated ≡ true
      → (unsubscribe_send around address id first c).1.subscriptions ≡ c.subscriptions
  unfolding unsubscribe_send IsRemoved
  unsubscribe_send-updated address id first c updated =
      settled (unsubscribe_attempt around id task (start task.unsubscribe c))
        (unsubscribe_attempt-Leaves id task c)
    where
      task : UnsubscribeTask
      task = c.memory.unsubscribes address

      settled :
          (o : Outcome (Attempt UnsubscribePacket) (Unit {0}))
          → Leaves (IsRemoved task c) (IsUndoable c.subscriptions.root c) o
          → (unsubscribe_settle around address task o).1.subscriptions ≡ c.subscriptions
      settled (ok u s) v = updated_tree task.tree_updated (ok u s) c updated v.0
      settled (err e s) v = updated_tree task.tree_updated (err e s) c updated v

  -- An attempt changes nothing of the connection but its tree, the task, and the events.
  pub unsubscribe_send-rest :
      (address id : ℕ) (first : Bool) (c : Connection)
      → let d = (unsubscribe_send around address id first c).1 in
        d ≡ record c { subscriptions = d.subscriptions; memory = d.memory; events = d.events }
  unfolding unsubscribe_send IsRemoved
  unsubscribe_send-rest address id first c =
      settled (unsubscribe_attempt around id task (start task.unsubscribe c))
        (unsubscribe_attempt-Leaves id task c)
    where
      task : UnsubscribeTask
      task = c.memory.unsubscribes address

      Kept : Connection → Type 0
      Kept d =
          d ≡ record c { subscriptions = d.subscriptions; memory = d.memory; events = d.events }

      settled :
          (o : Outcome (Attempt UnsubscribePacket) (Unit {0}))
          → Leaves (IsRemoved task c) (IsUndoable c.subscriptions.root c) o
          → Kept (unsubscribe_settle around address task o).1
      settled (ok u s) v =
          ap
            (λ (d : Connection). record d {
              subscriptions = tree_after task.tree_updated (ok u s);
              memory =
                  write_unsubscribe address
                    (record task { unsubscribe = s.packet; tree_updated = true })
                    s.connection.memory;
            })
            v.0
      settled (err x s) v =
          ap
            (λ (d : Connection). record d {
              subscriptions = tree_after task.tree_updated (err x s);
              memory =
                  write_unsubscribe address (record task { unsubscribe = s.packet })
                    s.connection.memory;
              events = s.connection.events;
            })
            v.same_connection
