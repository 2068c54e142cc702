-- ===== src/Tests/TopicTree.antt =====
-- The topic tree at the topic filters `a/b`, `a/+`, `a/#` and `a`.
use aws_c_mqtt.Base.{
  ℕ, ◌≡◌, ◌≢◌, ◌↔◌, refl, true, false, Bool, List, [], ◌∷◌, none, some, if◌then◌else◌, arith,
  bytes_eq, sym, ap, ◌∙◌,
}
use aws_c_mqtt.Bytes.{Outcome, ok, err}
use aws_c_mqtt.Packets.Filters.{growing}
use aws_c_mqtt.Tests.Topics.{simple_split}
use aws_c_mqtt.TopicTree.{
  Part, TopicTree, topic_tree_init, topic_tree_clean_up, node_at, find, put, remove_at,
  remove_entry, topic_node_destroy, topic_node_new, topic_nodes_string_finder, update_at,
}
use aws_c_mqtt.TopicTree.Action.{
  Action, AString, Subscriber, Transaction, IsStatic, transaction_remove, transaction_remove_parts,
  push_action, transaction_insert, transaction_insert_parts, insert_parts, found_parts,
}
use aws_c_mqtt.TopicTree.Commit.{
  action_commit, write_node, commit_remove, destroy_removed, fix_pointers, fix_strings, purge,
}
use aws_c_mqtt.TopicTree.Transaction.{
  commit_all, transaction_insert_each, transaction_commit, transaction_roll_back, topic_tree_insert,
  topic_tree_remove,
}
use aws_c_mqtt.TopicTree.Publish.{topic_tree_publish, publish_parts, multi_level_wildcard}
use aws_c_mqtt.TopicTree.Fields.{path_eq, path_eq→eq}
use aws_c_mqtt.TopicTree.Subscriptions.{subscription_at, bare_at, new_node-IsBare}
use aws_c_mqtt.TopicTree.Matching.{IsIn, Reached, delivery_of}
use aws_c_mqtt.TopicTree.Subscribe.{
  table_of, subscribe_each, by_parts, HaveCallbacks, callbacks_none, callbacks_more,
  transaction_subscribe_lem, transaction_subscribe_roll_back,
}
use aws_c_mqtt.TopicTree.Insert.{topic_tree_insert_lem}
use aws_c_mqtt.Topics.{slash}
use aws_c_mqtt.TopicTree.Owners.{
  IsInOrder, IsRemovable, owned, are_held, are_distinct, are_apart, is_among,
}
use aws_c_mqtt.TopicTree.Remove.{topic_tree_remove_lem}
use aws_c_mqtt.TopicTree.Deliveries.{topic_tree_publish_lem, topic_tree_publish_parent}

abbrev ab : AString
ab = record { pointer = 1; bytes = 97 ∷ 47 ∷ 98 ∷ [] }

abbrev a_plus : AString
a_plus = record { pointer = 2; bytes = 97 ∷ 47 ∷ 43 ∷ [] }

abbrev a_hash : AString
a_hash = record { pointer = 3; bytes = 97 ∷ 47 ∷ 35 ∷ [] }

abbrev first : Subscriber
first = record { qos = 1; callback = 7; cleanup = 8; userdata = 9 }

abbrev second : Subscriber
second = record { qos = 0; callback = 10; cleanup = 0; userdata = 11 }

abbrev pub tree_after : Outcome TopicTree (Unit {0}) → TopicTree
tree_after (ok _ t) = t
tree_after (err _ t) = t

abbrev with_ab : TopicTree
with_ab = tree_after (topic_tree_insert simple_split growing ab first topic_tree_init)

abbrev with_both : TopicTree
with_both = tree_after (topic_tree_insert simple_split growing a_plus second with_ab)

growing-IsStatic : (n : ℕ) → IsStatic {A = Action} growing n
growing-IsStatic n = record { fits = λ xs x h. refl }

first_called : first.callback ≢ 0
first_called = omega arith

second_called : second.callback ≢ 0
second_called = omega arith

-- `a/b` is published to both, `a/c` to the second, `a` to none.
publish_ab_test :
    topic_tree_publish simple_split with_both (97 ∷ 47 ∷ 98 ∷ [])
    ≡ delivery_of second ∷ (delivery_of first ∷ [])
unfolding topic_tree_remove transaction_remove transaction_remove_parts push_action
    transaction_commit commit_all action_commit node_at topic_tree_insert transaction_insert
    transaction_insert_parts insert_parts topic_tree_init find put bytes_eq write_node found_parts
    commit_remove destroy_removed fix_pointers fix_strings purge remove_at remove_entry
    topic_node_destroy topic_node_new topic_nodes_string_finder update_at topic_tree_clean_up
    topic_tree_publish publish_parts
publish_ab_test = refl

-- The removal of `a`, which is no subscription, destroys the string of `a/b`, which is one.
remove_inner_test :
    (tree_after (topic_tree_remove simple_split growing (97 ∷ []) with_ab)).destroyed ≡ 1 ∷ []
unfolding topic_tree_remove transaction_remove transaction_remove_parts push_action
    transaction_commit commit_all action_commit node_at topic_tree_insert transaction_insert
    transaction_insert_parts insert_parts topic_tree_init find put bytes_eq write_node found_parts
    commit_remove destroy_removed fix_pointers fix_strings purge remove_at remove_entry
    topic_node_destroy topic_node_new topic_nodes_string_finder update_at topic_tree_clean_up
    topic_tree_publish publish_parts
remove_inner_test = refl

-- The removal of `a/b` cleans up its user data and destroys its string, and the root is bare again.
remove_ab_test :
    tree_after (topic_tree_remove simple_split growing (97 ∷ 47 ∷ 98 ∷ []) with_ab)
    ≡ record topic_tree_init { destroyed = 1 ∷ []; cleaned_up = 9 ∷ [] }
unfolding topic_tree_remove transaction_remove transaction_remove_parts push_action
    transaction_commit commit_all action_commit node_at topic_tree_insert transaction_insert
    transaction_insert_parts insert_parts topic_tree_init find put bytes_eq write_node found_parts
    commit_remove destroy_removed fix_pointers fix_strings purge remove_at remove_entry
    topic_node_destroy topic_node_new topic_nodes_string_finder update_at topic_tree_clean_up
    topic_tree_publish publish_parts
remove_ab_test = refl

clean_up_test : topic_tree_clean_up with_both ≡ (1 ∷ (2 ∷ []), 9 ∷ [])
unfolding topic_tree_remove transaction_remove transaction_remove_parts push_action
    transaction_commit commit_all action_commit node_at topic_tree_insert transaction_insert
    transaction_insert_parts insert_parts topic_tree_init find put bytes_eq write_node found_parts
    commit_remove destroy_removed fix_pointers fix_strings purge remove_at remove_entry
    topic_node_destroy topic_node_new topic_nodes_string_finder update_at topic_tree_clean_up
    topic_tree_publish publish_parts
clean_up_test = refl

abbrev both_filters : List (AString × Subscriber)
both_filters = (ab, first) ∷ ((a_plus, second) ∷ [])

both_callbacks : HaveCallbacks both_filters
both_callbacks =
    callbacks_more ab first _ first_called
      (callbacks_more a_plus second [] second_called callbacks_none)

transaction_subscribe_lem_example :
    (x : Transaction) × (transaction_insert_each simple_split growing both_filters
        (record { tree = topic_tree_init; actions = [] })
      ≡ ok tt x)
    × ((q : List Part) → table_of x.tree q ≡ table_of topic_tree_init q)
    × ((q : List Part)
        → table_of (transaction_commit x).tree q
          ≡ subscribe_each (by_parts simple_split both_filters) (table_of topic_tree_init) q)
transaction_subscribe_lem_example =
    transaction_subscribe_lem simple_split (growing-IsStatic 2) both_filters topic_tree_init
      (omega arith) both_callbacks

transaction_subscribe_roll_back_example :
    (x : Transaction) × (transaction_insert_each simple_split growing both_filters
        (record { tree = topic_tree_init; actions = [] })
      ≡ ok tt x)
    × ((transaction_roll_back x).tree.root ≡ topic_tree_init.root)
transaction_subscribe_roll_back_example =
    transaction_subscribe_roll_back simple_split (growing-IsStatic 2) both_filters topic_tree_init
      (omega arith) both_callbacks

both-IsRemovable : IsRemovable (simple_split.split (97 ∷ 47 ∷ 98 ∷ []) slash) with_both
unfolding topic_tree_insert transaction_insert transaction_insert_parts insert_parts push_action
    transaction_commit commit_all action_commit write_node find put node_at update_at
    topic_tree_init topic_node_new bytes_eq owned are_held are_distinct are_apart is_among
both-IsRemovable = record {
  in_order = record { distinct = refl; alive = refl; held = refl };
  owner = refl;
}

-- Without `a/b` the strings of the tree are in order again: `a` uses the one of `a/+`.
abbrev without_ab : TopicTree
without_ab = tree_after (topic_tree_remove simple_split growing (97 ∷ 47 ∷ 98 ∷ []) with_both)

without_ab-IsInOrder : IsInOrder without_ab
unfolding topic_tree_remove transaction_remove transaction_remove_parts push_action
    transaction_commit commit_all action_commit node_at topic_tree_insert transaction_insert
    transaction_insert_parts insert_parts topic_tree_init find put bytes_eq write_node found_parts
    commit_remove destroy_removed fix_pointers fix_strings purge remove_at remove_entry
    topic_node_destroy topic_node_new topic_nodes_string_finder update_at owned are_held
    are_distinct are_apart is_among
without_ab-IsInOrder = record { distinct = refl; alive = refl; held = refl }

topic_tree_remove_lem_example :
    (t' : TopicTree) × (topic_tree_remove simple_split growing (97 ∷ 47 ∷ 98 ∷ []) with_both
      ≡ ok tt t')
    × ((q : List Part)
        → subscription_at q t'.root ≡ (
            if path_eq ((97 ∷ []) ∷ ((98 ∷ []) ∷ [])) q
            then none
            else subscription_at q with_both.root))
topic_tree_remove_lem_example =
    topic_tree_remove_lem simple_split (growing-IsStatic 1) (97 ∷ 47 ∷ 98 ∷ []) with_both (λ e. cc)
      both-IsRemovable

topic_tree_publish_lem_example :
    IsIn (delivery_of first) (topic_tree_publish simple_split with_both (97 ∷ 47 ∷ 98 ∷ []))
    ↔ Reached (delivery_of first) ((97 ∷ []) ∷ ((98 ∷ []) ∷ [])) with_both.root
topic_tree_publish_lem_example =
    topic_tree_publish_lem simple_split with_both (97 ∷ 47 ∷ 98 ∷ []) (delivery_of first)
      first_called

abbrev with_hash : TopicTree
with_hash = tree_after (topic_tree_insert simple_split growing a_hash first topic_tree_init)

new_tree_empty : (q : List Part) → subscription_at q topic_tree_init.root ≡ none
unfolding topic_tree_init
new_tree_empty q = bare_at q (topic_node_new 0 0) (new_node-IsBare 0 0)

only_hash :
    (q : List Part) (s : Subscriber)
    → subscription_at q with_hash.root ≡ some s
    → q ≡ (97 ∷ []) ∷ (multi_level_wildcard ∷ [])
only_hash q s e =
    let (t', run, at) =
      topic_tree_insert_lem simple_split (growing-IsStatic 1) a_hash first topic_tree_init
        first_called in
    step (path_eq filter q) refl
      (sym (at q) ∙ ap (λ o. subscription_at q (tree_after o).root) (sym run) ∙ e)
  where
    filter : List Part
    filter = (97 ∷ []) ∷ (multi_level_wildcard ∷ [])

    step :
        (b : Bool)
        → path_eq filter q ≡ b
        → (if b then some first else subscription_at q topic_tree_init.root) ≡ some s
        → q ≡ filter
    step true p h = sym (path_eq→eq filter q p)
    step false p h = absurd (cc (sym (new_tree_empty q) ∙ h))

topic_tree_publish_parent_example :
    ¬ IsIn (delivery_of first) (topic_tree_publish simple_split with_hash (97 ∷ []))
topic_tree_publish_parent_example =
    topic_tree_publish_parent simple_split with_hash (97 ∷ []) (delivery_of first) only_hash
      first_called
