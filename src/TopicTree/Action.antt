-- ===== src/TopicTree/Action.antt =====
-- The actions of a transaction on the topic tree (source/topic_tree.c): what inserting and removing a
-- topic filter leaves to be committed.
use aws_c_mqtt.Base.{
  ◌<◌, ◌≡◌, ℕ, ◌+◌, Bool, true, false, List, [], ◌∷◌, ◌++◌, Option, none, some, ◌==◌, if◌then◌else◌,
  length,
}
use aws_c_mqtt.Bytes.{Op, ok, err, raised_elsewhere}
use aws_c_mqtt.Packets.Filters.{ArrayOps}
use aws_c_mqtt.Topics.{SplitOps, slash}
use aws_c_mqtt.TopicTree.{
  Part, Node, node, TopicTree, fields, find, put, node_at, topic_node_new, destroy_string,
}

pub data Mode : Type 0 where
  add update remove : Mode

-- `struct aws_string`
pub record AString : Type 0 where
  pub pointer : ℕ
  pub bytes : List ℕ

-- What a subscription gives a node.
pub record Subscriber : Type 0 where
  pub qos : ℕ
  pub callback : ℕ
  pub cleanup : ℕ
  pub userdata : ℕ

-- `struct topic_tree_action`. The cursor `topic` is its offset in `topic_filter`, where that is not
-- null. `to_remove` lists the nodes on the way down `to_remove`, the root first: the node at index
-- `i` is reached by the first `i` parts.
pub record Action : Type 0 where
  pub mode : Mode
  pub node_to_update : Option (List Part)
  pub topic_offset : ℕ
  pub topic_filter : ℕ
  pub subscriber : Subscriber
  pub last_found : List Part
  pub first_created : List Part
  pub to_remove : List Part

abbrev pub no_subscriber : Subscriber
no_subscriber = record { qos = 0; callback = 0; cleanup = 0; userdata = 0 }

-- The zeroed action, whose mode is the first one.
abbrev pub empty_action : Action
empty_action = record {
  mode = add;
  node_to_update = none;
  topic_offset = 0;
  topic_filter = 0;
  subscriber = no_subscriber;
  last_found = [];
  first_created = [];
  to_remove = [];
}

-- `action->mode == AWS_MQTT_TOPIC_TREE_UPDATE`
abbrev pub is_update : Mode → Bool
is_update add = false
is_update update = true
is_update remove = false

-- A tree with the transaction on it.
pub record Transaction : Type 0 where
  pub tree : TopicTree
  pub actions : List Action

-- A node that is made: the first one is where a roll back cuts.
abbrev pub note_created : List Part → Part → Action → Action
note_created path p a =
    if is_update a.mode
    then record a { mode = add; last_found = path; first_created = path ++ (p ∷ []) }
    else a

-- The loop over the parts, at the node of a path: the node as it leaves it, and the action. There is
-- memory for every new node: the entry without a node that is left otherwise is not kept. `start`
-- is where the part that comes next starts in the topic filter.
unfoldable pub insert_parts : ℕ → List Part → List Part → ℕ → Node → Action → Node × Action
insert_parts string [] path start n a = (n, record a { node_to_update = some path })
insert_parts string (p ∷ ps) path start (node f subs) a = elim (find p subs) [
  | none ↦
      let (child, b) =
        insert_parts string ps (path ++ (p ∷ [])) (start + length p + 1)
          (topic_node_new string start) (note_created path p a) in
      (node f (put p child subs), b)
  | some m ↦
      let (child, b) = insert_parts string ps (path ++ (p ∷ [])) (start + length p + 1) m a in
      (node f (put p child subs), b)
]

-- Where the last part starts.
abbrev pub last_start : ℕ → List Part → ℕ
last_start start [] = start
last_start start (p ∷ []) = start
last_start start (p ∷ (q ∷ ps)) = last_start (start + length p + 1) (q ∷ ps)

abbrev pub owns_at : List Part → Node → Bool
owns_at path root = elim (node_at path root) [
  | none ↦ false
  | some n ↦ (fields n).owns_topic_filter
]

-- The inserted node keeps the string that it has, or is given the new one.
abbrev pub give_string : AString → List Part → TopicTree → Action → TopicTree × Action
give_string topic_filter parts t a =
    if owns_at parts t.root
    then (destroy_string topic_filter.pointer t, a)
    else (t, record a { topic_offset = last_start 0 parts; topic_filter = topic_filter.pointer })

-- The parts that lead to nodes.
unfoldable pub found_parts : List Part → Node → List Part
found_parts [] n = []
found_parts (p ∷ ps) (node f subs) = elim (find p subs) [
  | none ↦ []
  | some child ↦ p ∷ found_parts ps child
]

abbrev pub remove_action : List Part → Node → Action
remove_action parts root = record empty_action {
  mode = remove;
  node_to_update = elim (node_at parts root) [ none ↦ none | some n ↦ some parts ];
  to_remove = found_parts parts root;
}

-- A list over a static buffer for so many items, as `aws_array_list_init_static` makes it.
pub record IsStatic {A : Type 0} (array : ArrayOps A) (capacity : ℕ) : Type 0 where
  pub fits :
      (xs : List A) (x : A) → length xs < capacity → array.push_back xs x ≡ some (xs ++ (x ∷ []))

module _ (array : ArrayOps Action) where
  -- The action is in the transaction from the start, and is complete at the end.
  unfoldable pub push_action : TopicTree → Action → Op Transaction (Unit {0})
  push_action t a s = elim (array.push_back s.actions a) [
    | none ↦ err raised_elsewhere s
    | some actions ↦ ok tt (record { tree = t; actions = actions })
  ]

  unfoldable pub transaction_insert_parts :
      AString → Subscriber → List Part → Op Transaction (Unit {0})
  transaction_insert_parts topic_filter subscriber parts s =
      let (root, a) =
        insert_parts topic_filter.pointer parts [] 0 s.tree.root
          (record empty_action { mode = update; subscriber = subscriber }) in
      let (t, b) = give_string topic_filter parts (record (s.tree) { root = root }) a in
      push_action t b s

  unfoldable pub transaction_insert : SplitOps → AString → Subscriber → Op Transaction (Unit {0})
  transaction_insert ops topic_filter subscriber =
      transaction_insert_parts topic_filter subscriber (ops.split topic_filter.bytes slash)

  unfoldable pub transaction_remove_parts : List Part → Op Transaction (Unit {0})
  transaction_remove_parts parts s =
      if length parts == 0
      then err raised_elsewhere s
      else push_action s.tree (remove_action parts s.tree.root) s

  unfoldable pub transaction_remove : SplitOps → List ℕ → Op Transaction (Unit {0})
  transaction_remove ops topic_filter = transaction_remove_parts (ops.split topic_filter slash)
