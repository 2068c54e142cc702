-- ===== src/TopicTree/Commit.antt =====
-- An action on the topic tree (source/topic_tree.c) is committed or rolled back.
use aws_c_mqtt.Base.{
  ℕ, zero, suc, ◌+◌, ◌-◌, ◌%◌, ◌^◌, Bool, true, false, not, List, [], ◌∷◌, Option, none, some, ◌==◌,
  if◌then◌else◌, length, ◌&&◌, take,
}
use aws_c_mqtt.TopicTree.{
  Part, NodeFields, Node, node, TopicTree, fields, subtopics, is_subscription, is_empty, node_at,
  update_at, remove_at, clean_up_userdata, destroy_string, topic_node_destroy,
  topic_nodes_string_finder,
}
use aws_c_mqtt.TopicTree.Action.{add, update, remove, Action}

-- `node->callback = ...` and so on, for the update of a node.
abbrev pub subscribe_fields : Action → NodeFields → NodeFields
subscribe_fields a f =
    let g : NodeFields = record f {
      callback = a.subscriber.callback;
      cleanup = a.subscriber.cleanup;
      userdata = a.subscriber.userdata;
      qos = a.subscriber.qos;
    } in
    if a.topic_filter == 0 then g else record g {
      topic_offset = a.topic_offset;
      topic_filter = a.topic_filter;
      owns_topic_filter = true;
    }

abbrev pub unsubscribe_fields : NodeFields → NodeFields
unsubscribe_fields f = record f { callback = 0; cleanup = 0; userdata = 0 }

-- The node's user data is passed out, then its fields are written.
unfoldable pub write_node : List Part → (NodeFields → NodeFields) → TopicTree → TopicTree
write_node path g t = elim (node_at path t.root) [
  | none ↦ t
  | some n ↦
      let cleaned = clean_up_userdata (fields n) t in
      record cleaned { root = update_at path g cleaned.root }
]

-- What the loops of a removal carry: the tree, how many nodes of `to_remove` are left below the root,
-- and the node that was removed, off the tree and still to be destroyed.
pub record Purge : Type 0 where
  pub tree : TopicTree
  pub nodes_left : ℕ
  pub removed : Option Node

-- A node with no subscription and no children goes; the last one is destroyed later.
abbrev pub remove_node : Bool → List Part → Node → Purge → Purge
remove_node is_last path n s =
    let t : TopicTree = record (s.tree) { root = remove_at path s.tree.root } in
    record {
      tree = if is_last then t else topic_node_destroy n t;
      nodes_left = s.nodes_left - 1;
      removed = if is_last then some n else s.removed;
    }

abbrev pub is_bare : Node → Bool
is_bare n = not (is_subscription (fields n)) && is_empty (subtopics n)

-- From the last node of `to_remove` up to the first below the root, until one stays.
unfoldable pub purge : ℕ → ℕ → List Part → Purge → Purge
purge last zero parts s = s
purge last (suc i) parts s = elim (node_at (take (suc i) parts) s.tree.root) [
  | none ↦ s
  | some n ↦ elim (is_bare n) [
    | false ↦ s
    | true ↦ purge last i parts (remove_node (suc i == last) (take (suc i) parts) n s)
  ]
]

-- The second loop: whether the new string is there yet, and what it is; the running offset.
pub record Fixup : Type 0 where
  pub tree : TopicTree
  pub new_topic_filter : ℕ
  pub topic_offset : ℕ
  pub current_owns : Bool

abbrev pub disown : NodeFields → NodeFields
disown f = record f { owns_topic_filter = false }

-- A string is found once, and the old one destroyed, which the removed node owned. Where it owned none
-- the source asserts against it, and without assertions destroys a string that other nodes use: a key
-- here is its bytes and stays, so nothing is said of such a removal.
abbrev pub find_string : ℕ → List Part → Node → Fixup → Fixup
find_string old current parent x =
    if x.new_topic_filter == 0
    then record {
      tree = destroy_string old (record (x.tree) { root = update_at current disown x.tree.root });
      new_topic_filter = topic_nodes_string_finder old (subtopics parent);
      topic_offset = x.topic_offset;
      current_owns = false;
    }
    else x

abbrev pub use_string : Fixup → NodeFields → NodeFields
use_string x f = record f { topic_filter = x.new_topic_filter; topic_offset = x.topic_offset }

-- The length of the part at an index.
abbrev pub length_at : ℕ → List Part → ℕ
length_at i [] = 0
length_at zero (p ∷ ps) = length p
length_at (suc i) (p ∷ ps) = length_at i ps

abbrev pub replace_string : ℕ → List Part → List Part → Node → Fixup → Fixup
replace_string old current path parent x =
    let y = find_string old current parent x in
    record y { tree = record (y.tree) { root = update_at path (use_string y) y.tree.root } }

-- The part at index `i`, and the slash before it, come off the offset.
abbrev pub lower_offset : ℕ → List Part → Fixup → Fixup
lower_offset i parts x = record x {
  topic_offset = (x.topic_offset + 2 ^ 64 - (length_at i parts + 1)) % 2 ^ 64;
}

-- Every node on the way that uses the old string is given the new one.
unfoldable pub fix_strings : ℕ → ℕ → List Part → Fixup → Fixup
fix_strings old zero parts x = x
fix_strings old (suc i) parts x =
    let y = lower_offset i parts x in
    elim (node_at (take (suc i) parts) x.tree.root) [
      | none ↦ x
      | some parent ↦ fix_strings old i parts (
          if (fields parent).topic_filter == old
          then replace_string old parts (take (suc i) parts) parent y
          else y)
    ]

abbrev pub start_offset : ℕ → List Part → Node → ℕ
start_offset i parts root = elim (node_at (take i parts) root) [
  | none ↦ 0
  | some parent ↦ ((fields parent).topic_offset + length_at (i - 1) parts + 1) % 2 ^ 64
]

-- `if (nodes_left > 0) { ... }`
unfoldable pub fix_pointers : ℕ → Bool → List Part → Purge → Fixup
fix_pointers old owns parts s =
    let x : Fixup = record {
      tree = s.tree;
      new_topic_filter = 0;
      topic_offset = start_offset s.nodes_left parts s.tree.root;
      current_owns = owns;
    } in
    if s.nodes_left == 0 then x else fix_strings old s.nodes_left parts x

-- `if (destroy_current) { s_topic_node_destroy(current, ...); }`
unfoldable pub destroy_removed : Option Node → Fixup → TopicTree
destroy_removed none x = x.tree
destroy_removed (some (node f subs)) x =
    topic_node_destroy (node (record f { owns_topic_filter = x.current_owns }) subs) x.tree

-- A removal of the node that `parts` lead to.
unfoldable pub commit_remove : List Part → TopicTree → TopicTree
commit_remove parts t = elim (node_at parts t.root) [
  | none ↦ t
  | some current ↦
      let last = length parts in
      let s = purge last last parts (record {
        tree = write_node parts unsubscribe_fields t;
        nodes_left = last;
        removed = none;
      }) in
      destroy_removed s.removed
        (fix_pointers (fields current).topic_filter (fields current).owns_topic_filter parts s)
]

-- `s_topic_tree_action_commit`
unfoldable pub action_commit : Action → TopicTree → TopicTree
action_commit a t = elim a.mode [
  | add ↦ elim a.node_to_update [ none ↦ t | some path ↦ write_node path (subscribe_fields a) t ]
  | update ↦ elim a.node_to_update [ none ↦ t | some path ↦ write_node path (subscribe_fields a) t ]
  | remove ↦ elim a.node_to_update [ none ↦ t | some path ↦ commit_remove path t ]
]

-- `s_topic_tree_action_roll_back`
abbrev pub destroy_given : Action → TopicTree → TopicTree
destroy_given a t = if a.topic_filter == 0 then t else destroy_string a.topic_filter t

unfoldable pub action_roll_back : Action → TopicTree → TopicTree
action_roll_back a t = elim a.mode [
  | add ↦ elim (node_at a.first_created t.root) [
    | none ↦ t
    | some n ↦
        destroy_given a
          (topic_node_destroy n (record t { root = remove_at a.first_created t.root }))
  ]
  | update ↦ t
  | remove ↦ t
]
