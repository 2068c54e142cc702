-- ===== src/TopicTree.antt =====
-- The nodes of the topic tree (include/aws/mqtt/private/topic_tree.h, source/topic_tree.c). A hash
-- table of nodes is the list of its entries, in the order in which it is iterated; that order is of
-- no account. A pointer to a node is the path of parts that leads to it from the root. Other
-- pointers are numbers, and 0 is the null pointer. Memory is always there.
pub mod Action
pub mod Commit
pub mod Transaction
pub mod Publish
pub mod Fields
pub mod Subscriptions
pub mod Insert
pub mod Remove
pub mod Subscribe
pub mod Matching
pub mod Deliveries
pub mod Owners
use aws_c_mqtt.Base.{
  ℕ, suc, ◌+◌, Bool, true, false, not, List, [], ◌∷◌, ◌++◌, Option, none, some, ◌==◌, if◌then◌else◌,
  length, bytes_eq, ◌&&◌,
}

-- A part of a topic, between two slashes.
abbrev pub Part : Type 0
Part = List ℕ

-- `struct aws_mqtt_topic_node` but for its table. `topic` spans the bytes of the part from
-- `topic_offset` on in the string `topic_filter`.
pub record NodeFields : Type 0 where
  pub topic_offset : ℕ
  pub topic_filter : ℕ
  pub owns_topic_filter : Bool
  pub qos : ℕ
  pub callback : ℕ
  pub cleanup : ℕ
  pub userdata : ℕ

mutual
  pub data Node : Type 0 where
    node : NodeFields → Subtopics → Node

  -- The key of an entry is the bytes of `topic` of its node.
  pub data Subtopics : Type 0 where
    empty : Subtopics
    entry : Part → Node → Subtopics → Subtopics

abbrev pub fields : Node → NodeFields
fields (node f subs) = f

abbrev pub subtopics : Node → Subtopics
subtopics (node f subs) = subs

-- `struct aws_mqtt_topic_tree`, with the strings that were destroyed and the user data that was
-- passed to its cleanup, in order.
pub record TopicTree : Type 0 where
  pub root : Node
  pub destroyed : List ℕ
  pub cleaned_up : List ℕ

-- `s_topic_node_new`
abbrev pub new_fields : ℕ → ℕ → NodeFields
new_fields string offset = record {
  topic_offset = offset;
  topic_filter = string;
  owns_topic_filter = false;
  qos = 0;
  callback = 0;
  cleanup = 0;
  userdata = 0;
}

unfoldable pub topic_node_new : ℕ → ℕ → Node
topic_node_new string offset = node (new_fields string offset) empty

unfoldable pub topic_tree_init : TopicTree
unfolding topic_node_new
topic_tree_init = record { root = topic_node_new 0 0; destroyed = []; cleaned_up = [] }

-- `s_topic_node_is_subscription`
abbrev pub is_subscription : NodeFields → Bool
is_subscription f = not (f.callback == 0)

-- `0 == aws_hash_table_get_entry_count(...)`
abbrev pub is_empty : Subtopics → Bool
is_empty empty = true
is_empty (entry k n rest) = false

-- `aws_hash_table_find`
unfoldable pub find : Part → Subtopics → Option Node
find p empty = none
find p (entry k n rest) = let later = find p rest in if bytes_eq k p then some n else later

-- The entry that `aws_hash_table_create` finds or makes, with its value set.
unfoldable pub put : Part → Node → Subtopics → Subtopics
put p n empty = entry p n empty
put p n (entry k m rest) =
    let later = put p n rest in if bytes_eq k p then entry k n rest else entry k m later

-- `aws_hash_table_remove`: a table has at most one entry of a key.
unfoldable pub remove_entry : Part → Subtopics → Subtopics
remove_entry p empty = empty
remove_entry p (entry k m rest) =
    let later = remove_entry p rest in if bytes_eq k p then later else entry k m later

-- Through a pointer to a node: reading it, writing its fields, and taking it off its parent's table.
unfoldable pub node_at : List Part → Node → Option Node
node_at [] n = some n
node_at (p ∷ ps) (node f subs) = elim (find p subs) [ none ↦ none | some child ↦ node_at ps child ]

unfoldable pub update_at : List Part → (NodeFields → NodeFields) → Node → Node
update_at [] g (node f subs) = node (g f) subs
update_at (p ∷ ps) g (node f subs) = elim (find p subs) [
  | none ↦ node f subs
  | some child ↦ node f (put p (update_at ps g child) subs)
]

unfoldable pub remove_at : List Part → Node → Node
remove_at [] n = n
remove_at (p ∷ []) (node f subs) = node f (remove_entry p subs)
remove_at (p ∷ (q ∷ ps)) (node f subs) = elim (find p subs) [
  | none ↦ node f subs
  | some child ↦ node f (put p (remove_at (q ∷ ps) child) subs)
]

abbrev clean_up_userdata : NodeFields → TopicTree → TopicTree
clean_up_userdata f t =
    if not (f.cleanup == 0) && not (f.userdata == 0)
    then record t { cleaned_up = t.cleaned_up ++ (f.userdata ∷ []) }
    else t

abbrev pub destroy_string : ℕ → TopicTree → TopicTree
destroy_string s t = record t { destroyed = t.destroyed ++ (s ∷ []) }

-- `s_topic_node_destroy`: the children, the user data, the string.
unfoldable mutual
  pub topic_node_destroy : Node → TopicTree → TopicTree
  topic_node_destroy (node f subs) t =
      let cleaned = clean_up_userdata f (topic_nodes_destroy subs t) in
      if f.owns_topic_filter then destroy_string f.topic_filter cleaned else cleaned

  pub topic_nodes_destroy : Subtopics → TopicTree → TopicTree
  topic_nodes_destroy empty t = t
  topic_nodes_destroy (entry k n rest) t = topic_nodes_destroy rest (topic_node_destroy n t)

-- The tree is zeroed; what is left are the strings that were destroyed and the user data that was
-- passed to its cleanup.
unfoldable pub topic_tree_clean_up : TopicTree → List ℕ × List ℕ
topic_tree_clean_up t =
    let cleaned = topic_node_destroy t.root t in (cleaned.destroyed, cleaned.cleaned_up)

-- `s_topic_node_string_finder` over a table: the first string in it that is not `old`, or `old`.
unfoldable mutual
  pub topic_node_string_finder : ℕ → Node → ℕ
  topic_node_string_finder old (node f subs) =
      let below = topic_nodes_string_finder old subs in
      if f.topic_filter == old then below else f.topic_filter

  pub topic_nodes_string_finder : ℕ → Subtopics → ℕ
  topic_nodes_string_finder old empty = old
  topic_nodes_string_finder old (entry k n rest) =
      let found = topic_node_string_finder old n in
      let later = topic_nodes_string_finder old rest in if found == old then later else found
