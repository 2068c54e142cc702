-- ===== src/TopicTree/Owners.antt =====
-- The trees whose strings are in order: the source keeps the keys and the topics of nodes as cursors
-- into the strings of the tree (source/topic_tree.c), so it must not destroy one that a node uses.
use aws_c_mqtt.Base.{
  ℕ, ◌≡◌, Bool, true, false, not, List, [], ◌∷◌, ◌++◌, if◌then◌else◌, ◌==◌, ◌&&◌, ◌||◌,
}
use aws_c_mqtt.TopicTree.{Part, Node, node, Subtopics, empty, entry, TopicTree, subtopics}
use aws_c_mqtt.TopicTree.Action.{owns_at}

unfoldable pub is_among : ℕ → List ℕ → Bool
is_among s [] = false
is_among s (x ∷ xs) = let later = is_among s xs in x == s || later

unfoldable pub are_distinct : List ℕ → Bool
are_distinct [] = true
are_distinct (x ∷ xs) = let later = are_distinct xs in not (is_among x xs) && later

-- The first list has nothing of the second one.
unfoldable pub are_apart : List ℕ → List ℕ → Bool
are_apart [] ys = true
are_apart (x ∷ xs) ys = let later = are_apart xs ys in not (is_among x ys) && later

-- The strings that a node and the nodes below it own.
unfoldable mutual
  pub owned : Node → List ℕ
  owned (node f subs) =
      let below = owned_below subs in if f.owns_topic_filter then f.topic_filter ∷ below else below

  pub owned_below : Subtopics → List ℕ
  owned_below empty = []
  owned_below (entry k n rest) = owned n ++ owned_below rest

-- Every node uses a string that it owns, or that a node below it owns.
unfoldable mutual
  pub is_held : Node → Bool
  is_held (node f subs) =
      let below = are_held subs in is_among f.topic_filter (owned (node f subs)) && below

  pub are_held : Subtopics → Bool
  are_held empty = true
  are_held (entry k n rest) = is_held n && are_held rest

-- No string has two owners, or was destroyed, and every node below the root uses one that is owned there or
-- below.
pub record IsInOrder (t : TopicTree) : Type 0 where
  pub distinct : are_distinct (owned t.root) ≡ true
  pub alive : are_apart (owned t.root) t.destroyed ≡ true
  pub held : are_held (subtopics t.root) ≡ true

-- A topic filter that can be removed: the tree is in order, and the node at the parts has the string of a
-- subscription.
pub record IsRemovable (path : List Part) (t : TopicTree) : Type 0 where
  pub in_order : IsInOrder t
  pub owner : owns_at path t.root ≡ true

-- A topic filter that is new: the tree is in order, and no node at the parts has a string of its own.
pub record IsNew (path : List Part) (t : TopicTree) : Type 0 where
  pub in_order : IsInOrder t
  pub no_owner : owns_at path t.root ≡ false
