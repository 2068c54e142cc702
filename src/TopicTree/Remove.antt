-- ===== src/TopicTree/Remove.antt =====
-- Removing a topic filter from the topic tree (`s_topic_tree_action_commit` of source/topic_tree.c),
-- as a change of the subscriptions.
pub mod Nodes
pub mod Strings
use aws_c_mqtt.Base.{
  ◌<◌, ℕ, zero, suc, ◌+◌, ◌-◌, length, ◌≡◌, ◌≢◌, refl, sym, ap, subst, ◌∙◌, Bool, true, false, not,
  List, [], ◌∷◌, ◌++◌, Option, none, some, if◌then◌else◌, arith, ◌&&◌, ◌==◌, take,
}
use aws_c_mqtt.Bytes.{Outcome, ok, err}
use aws_c_mqtt.Packets.Filters.{ArrayOps}
use aws_c_mqtt.Topics.{SplitOps, slash}
use aws_c_mqtt.TopicTree.{
  Part, NodeFields, Node, node, Subtopics, empty, entry, TopicTree, fields, subtopics, is_empty,
  is_subscription, node_at, update_at, remove_at, topic_node_destroy, topic_nodes_destroy,
  topic_nodes_string_finder, clean_up_userdata, destroy_string,
}
use aws_c_mqtt.TopicTree.Action.{
  IsStatic, Action, Transaction, transaction_remove, transaction_remove_parts, push_action,
  remove_action,
}
use aws_c_mqtt.TopicTree.Commit.{
  action_commit, write_node, unsubscribe_fields, Purge, remove_node, is_bare, purge, Fixup, disown,
  find_string, use_string, replace_string, lower_offset, fix_strings, fix_pointers, start_offset,
  destroy_removed, commit_remove,
}
use aws_c_mqtt.TopicTree.Transaction.{
  commit_all, transaction_commit, run_outcome, topic_tree_remove,
}
use aws_c_mqtt.TopicTree.Fields.{
  path_eq, path_eq→eq, fields_at, map_fields, fields_at-update_at, node_at-fields_at,
}
use aws_c_mqtt.TopicTree.Subscriptions.{
  as_subscription, then_subscription, subscription_at, subscription_at-update_at,
  subscription_at-remove_at, IsBare,
}
use aws_c_mqtt.TopicTree.Insert.{write_node_root, push_action_lem}
use aws_c_mqtt.TopicTree.Owners.{IsRemovable}
use aws_c_mqtt.TopicTree.Remove.Nodes.{topic_node_destroy-root, subscription_at-purge}
use aws_c_mqtt.TopicTree.Remove.Strings.{subscription_at-fix_pointers}

destroy_removed-root : (m : Option Node) (x : Fixup) → (destroy_removed m x).root ≡ x.tree.root
unfolding destroy_removed
destroy_removed-root none x = refl
destroy_removed-root (some (node f subs)) x = topic_node_destroy-root _ x.tree

-- The node loses its subscription.
unsubscribed :
    (path q : List Part) (t : TopicTree) (m : Node)
    → node_at path t.root ≡ some m
    → subscription_at q (write_node path unsubscribe_fields t).root
      ≡ (if path_eq path q then none else subscription_at q t.root)
unfolding subscription_at
unsubscribed path q t m at = rw (write_node_root path unsubscribe_fields t m at) (
    rw (fields_at-update_at path q unsubscribe_fields t.root)
      (step (path_eq path q) (fields_at q t.root)))
  where
    step :
        (b : Bool) (r : Option NodeFields)
        → then_subscription (if b then map_fields unsubscribe_fields r else r)
          ≡ (if b then none else then_subscription r)
    step true none = refl
    step true (some f) = refl
    step false r = refl

no_fields_at : (ps : List Part) (n : Node) → node_at ps n ≡ none → fields_at ps n ≡ none
no_fields_at ps n e = step (fields_at ps n) refl
  where
    step : (r : Option NodeFields) → fields_at ps n ≡ r → r ≡ none
    step none h = refl
    step (some f) h = let (m, at, _) = node_at-fields_at ps n f h in absurd (cc (sym at ∙ e))

not_subscribed :
    (path q : List Part) (t : TopicTree)
    → node_at path t.root ≡ none
    → subscription_at q t.root ≡ (if path_eq path q then none else subscription_at q t.root)
not_subscribed path q t e = step (path_eq path q) refl
  where
    step :
        (b : Bool)
        → path_eq path q ≡ b
        → subscription_at q t.root ≡ (if b then none else subscription_at q t.root)
    step true h =
        subst (λ (r : List Part). subscription_at r t.root ≡ none) (path_eq→eq path q h)
          (unfold subscription_at in ap then_subscription (no_fields_at path t.root e))
    step false h = refl

-- A removal is committed.
pub commit_remove-subscription :
    (parts q : List Part) (t : TopicTree)
    → subscription_at q (commit_remove parts t).root
      ≡ (if path_eq parts q then none else subscription_at q t.root)
unfolding commit_remove
commit_remove-subscription parts q t = step (node_at parts t.root) refl
  where
    start : Purge
    start = record {
      tree = write_node parts unsubscribe_fields t;
      nodes_left = length parts;
      removed = none;
    }

    s : Purge
    s = purge (length parts) (length parts) parts start

    step :
        (m : Option Node)
        → node_at parts t.root ≡ m
        → subscription_at q
            (elim m as (λ _. TopicTree) [
              | none ↦ t
              | some current ↦ destroy_removed s.removed (
                  fix_pointers
                    (fields current).topic_filter
                    (fields current).owns_topic_filter
                    parts
                    s)
            ]).root
          ≡ (if path_eq parts q then none else subscription_at q t.root)
    step none e = not_subscribed parts q t e
    step (some current) e =
        let (string, owns) : ℕ × Bool =
          ((fields current).topic_filter, (fields current).owns_topic_filter) in
        ap (subscription_at q) (destroy_removed-root s.removed (fix_pointers string owns parts s))
        ∙ subscription_at-fix_pointers string owns parts q s
        ∙ subscription_at-purge (length parts) (length parts) parts q start
        ∙ unsubscribed parts q t current e

pub commit_remove_action :
    (parts q : List Part) (t : TopicTree)
    → subscription_at q (action_commit (remove_action parts t.root) t).root
      ≡ (if path_eq parts q then none else subscription_at q t.root)
unfolding action_commit
commit_remove_action parts q t = step (node_at parts t.root) refl
  where
    step :
        (m : Option Node)
        → node_at parts t.root ≡ m
        → subscription_at q
            (elim (elim m as (λ _. Option (List Part)) [ none ↦ none | some n ↦ some parts ])
              as (λ _. TopicTree) [ none ↦ t | some path ↦ commit_remove path t ]).root
          ≡ (if path_eq parts q then none else subscription_at q t.root)
    step none e = not_subscribed parts q t e
    step (some n) e = commit_remove-subscription parts q t

-- The parts lead to one action.
pub transaction_remove_lem :
    {array : ArrayOps Action} {n : ℕ}
    → IsStatic array n
    → (parts : List Part) (x : Transaction) → length x.actions < n
    → parts ≢ []
    → transaction_remove_parts array parts x
      ≡ ok tt
          (record { tree = x.tree; actions = x.actions ++ (remove_action parts x.tree.root ∷ []) })
unfolding transaction_remove_parts
transaction_remove_lem static [] x room h = absurd (h refl)
transaction_remove_lem static (p ∷ ps) x room h =
    ground (arith, push_action_lem static x.tree (remove_action (p ∷ ps) x.tree.root) x room)

-- A topic filter whose node has the string of a subscription, of at least one part, is removed from a
-- tree whose strings are in order, through a transaction that has room for one action: the call
-- succeeds, the tree has no subscription at its parts, and every other subscription is what it was.
-- Neither a filter without a node nor a node that was never subscribed to itself is one: the source
-- asserts that there is none, and without assertions destroys a string that is in use.
pub topic_tree_remove_lem :
    (ops : SplitOps) {array : ArrayOps Action}
    → IsStatic array 1
    → (topic_filter : List ℕ) (t : TopicTree) → ops.split topic_filter slash ≢ []
    → IsRemovable (ops.split topic_filter slash) t
    → (t' : TopicTree) × (topic_tree_remove ops array topic_filter t ≡ ok tt t')
      × ((q : List Part)
          → subscription_at q t'.root
            ≡ (if path_eq (ops.split topic_filter slash) q then none else subscription_at q t.root))
unfolding topic_tree_remove transaction_remove transaction_commit commit_all
topic_tree_remove_lem ops static topic_filter t h removable =
    let parts = ops.split topic_filter slash in
    (
      action_commit (remove_action parts t.root) t,
      ap run_outcome
          (transaction_remove_lem static parts (record { tree = t; actions = [] }) (omega arith) h),
      λ q. commit_remove_action parts q t,
    )
