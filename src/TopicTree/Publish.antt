-- ===== src/TopicTree/Publish.antt =====
-- `aws_mqtt_topic_tree_publish` (source/topic_tree.c).
use aws_c_mqtt.Base.{List, [], ◌∷◌, ◌++◌, none, some, ℕ, if◌then◌else◌}
use aws_c_mqtt.Topics.{SplitOps, slash, plus, hash}
use aws_c_mqtt.TopicTree.{
  Part, NodeFields, Node, TopicTree, fields, subtopics, is_subscription, find,
}

-- A call of `node->callback`, which may be null, with the user data.
pub record Delivery : Type 0 where
  pub callback : ℕ
  pub userdata : ℕ

abbrev pub delivery : NodeFields → Delivery
delivery f = record { callback = f.callback; userdata = f.userdata }

abbrev pub multi_level_wildcard : Part
multi_level_wildcard = hash ∷ []

abbrev pub single_level_wildcard : Part
single_level_wildcard = plus ∷ []

-- `s_topic_tree_publish_do_recurse`, on the parts that are left of the topic.
unfoldable pub publish_parts : List Part → Node → List Delivery
publish_parts [] current =
    if is_subscription (fields current) then delivery (fields current) ∷ [] else []
publish_parts (p ∷ ps) current =
    (elim (find multi_level_wildcard (subtopics current)) [
      | none ↦ []
      | some n ↦ delivery (fields n) ∷ []
    ])
    ++ ((elim (find single_level_wildcard (subtopics current)) [
      | none ↦ []
      | some n ↦ publish_parts ps n
    ])
        ++ (elim (find p (subtopics current)) [ none ↦ [] | some n ↦ publish_parts ps n ]))

unfoldable pub topic_tree_publish : SplitOps → TopicTree → List ℕ → List Delivery
topic_tree_publish ops t topic_name = publish_parts (ops.split topic_name slash) t.root
