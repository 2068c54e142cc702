-- ===== src/TopicTree/Insert.antt =====
-- Inserting a topic filter into the topic tree, as a change of the subscriptions.
pub mod Loop
pub mod RollBack
pub mod Strings
use aws_c_mqtt.Base.{
  ◌<◌, ℕ, suc, ◌+◌, length, ◌≡◌, ◌≢◌, refl, sym, ap, subst, ◌∙◌, Bool, true, false, List, [], ◌∷◌,
  ◌++◌, Option, none, some, if◌then◌else◌, bytes_eq, bytes_eq_refl, bytes_eq→eq, arith, ◌&&◌, ◌==◌,
  ◌⊎◌, inl, inr, append_assoc, append-nil, Bool-cases,
}
use aws_c_mqtt.Bytes.{Op, Outcome, ok, err, >>=-ok, return}
use aws_c_mqtt.Packets.Filters.{ArrayOps, growing}
use aws_c_mqtt.Topics.{SplitOps, slash}
use aws_c_mqtt.TopicTree.{
  Part, NodeFields, Node, node, Subtopics, empty, entry, TopicTree, fields, subtopics, find, put,
  node_at, update_at, topic_node_new, clean_up_userdata, destroy_string,
}
use aws_c_mqtt.TopicTree.Action.{
  IsStatic, Mode, add, update, remove, Action, AString, Subscriber, Transaction, empty_action,
  note_created, is_update, insert_parts, give_string, push_action, last_start,
  transaction_insert_parts, transaction_insert, owns_at,
}
use aws_c_mqtt.TopicTree.Commit.{
  action_commit, action_roll_back, write_node, subscribe_fields, commit_remove,
}
use aws_c_mqtt.TopicTree.Transaction.{
  commit_all, transaction_commit, run_outcome, topic_tree_insert, transaction_insert_each,
}
use aws_c_mqtt.TopicTree.Fields.{
  path_eq, path_eq→eq, path_eq_refl, find-put, fields_at, map_fields, fields_at-update_at,
  node_at-fields_at,
}
use aws_c_mqtt.TopicTree.Subscriptions.{as_subscription, then_subscription, subscription_at}
use aws_c_mqtt.TopicTree.Insert.RollBack.{Undo, insert_parts-Undo, action_roll_back-Undo}
use aws_c_mqtt.TopicTree.Insert.Strings.{give_string-destroyed}
use aws_c_mqtt.TopicTree.Insert.Loop.{
  is_insert, IsInsert, insert_parts-IsInsert, insert_parts_found, subscription_at-insert_parts,
  fields_at-insert_parts,
}

-- What `commit` does with the action of an insertion.
pub commit_insert :
    (a : Action) (path : List Part) (t : TopicTree)
    → is_insert a.mode ≡ true
    → a.node_to_update ≡ some path
    → action_commit a t ≡ write_node path (subscribe_fields a) t
unfolding action_commit
commit_insert a path t h e = step a.mode h
  where
    written :
        (elim a.node_to_update [ none ↦ t | some q ↦ write_node q (subscribe_fields a) t ])
        ≡ write_node path (subscribe_fields a) t
    written = ground (arith, e)

    step :
        (m : Mode)
        → is_insert m ≡ true
        → (elim m [
          | add ↦ elim a.node_to_update [ none ↦ t | some q ↦ write_node q (subscribe_fields a) t ]
          | update ↦ elim a.node_to_update [
            | none ↦ t
            | some q ↦ write_node q (subscribe_fields a) t
          ]
          | remove ↦ elim a.node_to_update [ none ↦ t | some q ↦ commit_remove q t ]
        ])
          ≡ write_node path (subscribe_fields a) t
    step add k = written
    step update k = written
    step remove k = cc

-- The node is written.
pub write_node_root :
    (path : List Part) (g : NodeFields → NodeFields) (t : TopicTree) (m : Node)
    → node_at path t.root ≡ some m
    → (write_node path g t).root ≡ update_at path g t.root
unfolding write_node
write_node_root path g t m e = ground (arith, e)

subscribe_fields_lem :
    (a : Action) (f : NodeFields)
    → a.subscriber.callback ≢ 0
    → as_subscription (subscribe_fields a f) ≡ some a.subscriber
subscribe_fields_lem a f h = ground arith

-- A subscription is written at a node that is there.
write_node_subscription :
    (path q : List Part) (a : Action) (t : TopicTree) (f : NodeFields)
    → a.subscriber.callback ≢ 0
    → fields_at path t.root ≡ some f
    → subscription_at q (write_node path (subscribe_fields a) t).root
      ≡ (if path_eq path q then some a.subscriber else subscription_at q t.root)
unfolding subscription_at
write_node_subscription path q a t f h e =
    let (m, at, _) = node_at-fields_at path t.root f e in
    rw (write_node_root path (subscribe_fields a) t m at)
      (rw (fields_at-update_at path q (subscribe_fields a) t.root) (step (path_eq path q) refl))
  where
    step :
        (b : Bool)
        → path_eq path q ≡ b
        → then_subscription
            (if b then map_fields (subscribe_fields a) (fields_at q t.root) else fields_at q t.root)
          ≡ (if b then some a.subscriber else then_subscription (fields_at q t.root))
    step true eq =
        let here : fields_at q t.root ≡ some f =
          subst (λ (r : List Part). fields_at r t.root ≡ some f) (path_eq→eq path q eq) e in
        ap (λ (r : Option NodeFields). then_subscription (map_fields (subscribe_fields a) r)) here
        ∙ subscribe_fields_lem a f h
    step false eq = refl

abbrev insert_action : Subscriber → Action
insert_action s = record empty_action { mode = update; subscriber = s }

give_string_lem :
    (topic_filter : AString) (parts : List Part) (t : TopicTree) (a : Action)
    → ((give_string topic_filter parts t a).0.root ≡ t.root)
      × ((give_string topic_filter parts t a).1.mode ≡ a.mode)
      × ((give_string topic_filter parts t a).1.node_to_update ≡ a.node_to_update)
      × ((give_string topic_filter parts t a).1.subscriber ≡ a.subscriber)
      × ((give_string topic_filter parts t a).1.first_created ≡ a.first_created)
give_string_lem topic_filter parts t a = step (owns_at parts t.root)
  where
    step :
        (b : Bool)
        → let r : TopicTree × Action =
            (if b then (destroy_string topic_filter.pointer t, a) else (
              t,
              record a { topic_offset = last_start 0 parts; topic_filter = topic_filter.pointer },
            )) in
          (r.0.root ≡ t.root)
          × (r.1.mode ≡ a.mode)
          × (r.1.node_to_update ≡ a.node_to_update)
          × (r.1.subscriber ≡ a.subscriber)
          × (r.1.first_created ≡ a.first_created)
    step true = (refl, refl, refl, refl, refl)
    step false = (refl, refl, refl, refl, refl)

pub push_action_lem :
    {array : ArrayOps Action} {n : ℕ} (static : IsStatic array n) (t : TopicTree) (a : Action)
    (x : Transaction)
    → length x.actions < n
    → push_action array t a x ≡ ok tt (record { tree = t; actions = x.actions ++ (a ∷ []) })
unfolding push_action
push_action_lem static t a x h = ground (arith, static.fits x.actions a h)

-- What an insertion makes of a tree, and the action that it leaves.
pub record IsInserted (t t' : TopicTree) (b : Action) (parts : List Part) (s : Subscriber)
    : Type 0 where
  pub inserts : is_insert b.mode ≡ true
  pub to_update : b.node_to_update ≡ some parts
  pub subscribes : b.subscriber ≡ s
  pub found : (f : NodeFields) × (fields_at parts t'.root ≡ some f)
  pub kept :
      (q : List Part) (g : NodeFields) → fields_at q t.root ≡ some g → fields_at q t'.root ≡ some g
  pub same : (q : List Part) → subscription_at q t'.root ≡ subscription_at q t.root
  pub undone : (u : TopicTree) → u.root ≡ t'.root → (action_roll_back b u).root ≡ t.root
  pub undestroyed : owns_at parts t.root ≡ false → t'.destroyed ≡ t.destroyed

pub transaction_insert_lem :
    (ops : SplitOps) {array : ArrayOps Action} {n : ℕ}
    → IsStatic array n
    → (topic_filter : AString) (s : Subscriber) (x : Transaction) → length x.actions < n
    → (t' : TopicTree) × (b : Action) × (transaction_insert array ops topic_filter s x
        ≡ ok tt (record { tree = t'; actions = x.actions ++ (b ∷ []) }))
      × IsInserted x.tree t' b (ops.split topic_filter.bytes slash) s
unfolding transaction_insert transaction_insert_parts
transaction_insert_lem ops static topic_filter s x room =
    let string = topic_filter.pointer in
    let parts = ops.split topic_filter.bytes slash in
    let (root, a) = insert_parts string parts [] 0 x.tree.root (insert_action s) in
    let made = insert_parts-IsInsert string parts [] 0 x.tree.root (insert_action s) refl in
    let (f, found) = insert_parts_found string parts [] 0 x.tree.root (insert_action s) in
    let t1 : TopicTree = record (x.tree) { root = root } in
    let (t2, b) = give_string topic_filter parts t1 a in
    let (same_root, same_mode, same_node, same_subscriber, same_first) =
      give_string_lem topic_filter parts t1 a in
    (
      t2,
      b,
      push_action_lem static t2 b x room,
      record {
        inserts = ap is_insert same_mode ∙ made.inserts;
        to_update = same_node ∙ made.to_update;
        subscribes = same_subscriber ∙ made.same_subscriber;
        found = (f, ap (fields_at parts) same_root ∙ found);
        kept = λ q g e.
            ap (fields_at q) same_root
            ∙ fields_at-insert_parts string parts [] 0 x.tree.root (insert_action s) q g e;
        same = λ q.
            ap (subscription_at q) same_root
            ∙ subscription_at-insert_parts string parts [] 0 x.tree.root (insert_action s) q;
        undone = λ u e.
            action_roll_back-Undo x.tree.root u a b
              (subst (λ (r : Node). Undo x.tree.root [] r a) (sym (e ∙ same_root))
                (insert_parts-Undo string parts [] 0 x.tree.root (insert_action s) refl))
              same_mode same_first;
        undestroyed = λ free.
            give_string-destroyed topic_filter parts x.tree t1 (insert_action s) a refl free;
      },
    )

abbrev destroyed_by : Outcome Transaction (Unit {0}) → List ℕ
destroyed_by (ok _ x) = x.tree.destroyed
destroyed_by (err _ x) = x.tree.destroyed

-- One topic filter is inserted whose node owns no string: no string is destroyed.
pub insert_one-destroyed :
    (ops : SplitOps) {array : ArrayOps Action} {n : ℕ}
    → IsStatic array n
    → (topic_filter : AString) (s : Subscriber) (x y : Transaction) → length x.actions < n
    → owns_at (ops.split topic_filter.bytes slash) x.tree.root ≡ false
    → transaction_insert_each ops array ((topic_filter, s) ∷ []) x ≡ ok tt y
    → y.tree.destroyed ≡ x.tree.destroyed
unfolding transaction_insert_each
insert_one-destroyed ops {array} static topic_filter s x y room free run =
    let (t', b, inserted, v) = transaction_insert_lem ops static topic_filter s x room in
    ap destroyed_by
      (sym run ∙ >>=-ok (transaction_insert array ops topic_filter s) (λ _. return tt) inserted)
    ∙ v.undestroyed free

-- An inserted action is committed.
pub inserted_commit :
    (path q : List Part) (s : Subscriber) (t : TopicTree) (b : Action) (f : NodeFields)
    → s.callback ≢ 0
    → fields_at path t.root ≡ some f
    → is_insert b.mode ≡ true
    → b.node_to_update ≡ some path
    → b.subscriber ≡ s
    → subscription_at q (action_commit b t).root
      ≡ (if path_eq path q then some s else subscription_at q t.root)
inserted_commit path q s t b f h found inserts to_update subscriber =
    ap (λ (t' : TopicTree). subscription_at q t'.root) (commit_insert b path t inserts to_update)
    ∙ write_node_subscription path q b t f (λ e. h (sym (ap (λ x. x.callback) subscriber) ∙ e))
        found
    ∙ ap (λ (x : Subscriber). if path_eq path q then some x else subscription_at q t.root)
        subscriber

-- A topic filter is inserted through a transaction that has room for one action: the call succeeds,
-- the subscription at its parts is the one given, and every other subscription is what it was.
pub topic_tree_insert_lem :
    (ops : SplitOps) {array : ArrayOps Action}
    → IsStatic array 1
    → (topic_filter : AString) (s : Subscriber) (t : TopicTree) → s.callback ≢ 0
    → (t' : TopicTree) × (topic_tree_insert ops array topic_filter s t ≡ ok tt t')
      × ((q : List Part)
          → subscription_at q t'.root ≡ (
              if path_eq (ops.split topic_filter.bytes slash) q
              then some s
              else subscription_at q t.root))
unfolding topic_tree_insert transaction_commit commit_all
topic_tree_insert_lem ops static topic_filter s t h =
    let (t', b, run, v) =
      transaction_insert_lem ops static topic_filter s (record { tree = t; actions = [] })
        (omega arith) in
    let (f, found) = v.found in
    let parts = ops.split topic_filter.bytes slash in
    (
      action_commit b t',
      ap run_outcome run,
      λ q.
          inserted_commit parts q s t' b f h found v.inserts v.to_update v.subscribes
          ∙ ap (λ (r : Option Subscriber). if path_eq parts q then some s else r) (v.same q),
    )
