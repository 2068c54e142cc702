-- ===== src/TopicTree/Remove/Nodes.antt =====
-- Nodes that are taken off the topic tree and destroyed (`s_topic_node_destroy` and the first loop of
-- a removal in source/topic_tree.c), as a change of the subscriptions.
use aws_c_mqtt.Base.{
  ℕ, zero, suc, ◌≡◌, refl, ap, ◌∙◌, Bool, true, false, not, List, [], ◌∷◌, ◌++◌, Option, none, some,
  if◌then◌else◌, arith, ◌&&◌, ◌==◌, take,
}
use aws_c_mqtt.TopicTree.{
  Part, NodeFields, Node, node, Subtopics, empty, entry, TopicTree, node_at, remove_at,
  topic_node_destroy, topic_nodes_destroy, clean_up_userdata, destroy_string,
}
use aws_c_mqtt.TopicTree.Commit.{Purge, remove_node, is_bare, purge}
use aws_c_mqtt.TopicTree.Subscriptions.{subscription_at, subscription_at-remove_at, IsBare}

-- Destroying nodes that are off the tree leaves the tree.
clean_up_userdata-root : (f : NodeFields) (t : TopicTree) → (clean_up_userdata f t).root ≡ t.root
clean_up_userdata-root f t = step (not (f.cleanup == 0) && not (f.userdata == 0))
  where
    step :
        (b : Bool)
        → (if b then record t { cleaned_up = t.cleaned_up ++ (f.userdata ∷ []) } else t).root
          ≡ t.root
    step true = refl
    step false = refl

destroy_string_if-root :
    (b : Bool) (s : ℕ) (t : TopicTree) → (if b then destroy_string s t else t).root ≡ t.root
destroy_string_if-root true s t = refl
destroy_string_if-root false s t = refl

mutual
  unfolding topic_node_destroy topic_nodes_destroy

  pub topic_node_destroy-root : (n : Node) (t : TopicTree) → (topic_node_destroy n t).root ≡ t.root
  topic_node_destroy-root (node f subs) t =
      destroy_string_if-root f.owns_topic_filter f.topic_filter _
      ∙ clean_up_userdata-root f (topic_nodes_destroy subs t)
      ∙ topic_nodes_destroy-root subs t

  topic_nodes_destroy-root :
      (ns : Subtopics) (t : TopicTree) → (topic_nodes_destroy ns t).root ≡ t.root
  topic_nodes_destroy-root empty t = refl
  topic_nodes_destroy-root (entry k n rest) t =
      topic_nodes_destroy-root rest (topic_node_destroy n t) ∙ topic_node_destroy-root n t

is_bare-IsBare : (n : Node) → is_bare n ≡ true → IsBare n
is_bare-IsBare (node f empty) h = (ground arith, refl)
is_bare-IsBare (node f (entry k n rest)) h = absurd (ground arith)

subscription_at-remove_bare :
    (ps qs : List Part) (n b : Node)
    → node_at ps n ≡ some b
    → is_bare b ≡ true
    → subscription_at qs (remove_at ps n) ≡ subscription_at qs n
subscription_at-remove_bare [] qs n b e h = unfold remove_at in refl
subscription_at-remove_bare (p ∷ ps) qs n b e h =
    subscription_at-remove_at p ps qs n b e (is_bare-IsBare b h)

remove_node-root :
    (last : Bool) (path : List Part) (n : Node) (s : Purge)
    → (remove_node last path n s).tree.root ≡ remove_at path s.tree.root
remove_node-root true path n s = refl
remove_node-root false path n s = topic_node_destroy-root n _

-- The loop that takes bare nodes off changes no subscription.
pub subscription_at-purge :
    (last i : ℕ) (parts q : List Part) (s : Purge)
    → subscription_at q (purge last i parts s).tree.root ≡ subscription_at q s.tree.root
unfolding purge
subscription_at-purge last zero parts q s = refl
subscription_at-purge last (suc i) parts q s =
    step (node_at (take (suc i) parts) s.tree.root) refl (subscription_at-purge last i parts q)
  where
    path : List Part
    path = take (suc i) parts

    Same : Purge → Type 0
    Same r = subscription_at q r.tree.root ≡ subscription_at q s.tree.root

    bare :
        (n : Node) (b : Bool)
        → node_at path s.tree.root ≡ some n
        → is_bare n ≡ b
        → ((r : Purge)
            → subscription_at q (purge last i parts r).tree.root ≡ subscription_at q r.tree.root)
        → Same (elim b [
          | false ↦ s
          | true ↦ purge last i parts (remove_node (suc i == last) path n s)
        ])
    bare n false at e ih = refl
    bare n true at e ih =
        ih (remove_node (suc i == last) path n s)
        ∙ ap (subscription_at q) (remove_node-root (suc i == last) path n s)
        ∙ subscription_at-remove_bare path q s.tree.root n at e

    step :
        (m : Option Node)
        → node_at path s.tree.root ≡ m
        → ((r : Purge)
            → subscription_at q (purge last i parts r).tree.root ≡ subscription_at q r.tree.root)
        → Same (elim m [
          | none ↦ s
          | some n ↦ elim (is_bare n) [
            | false ↦ s
            | true ↦ purge last i parts (remove_node (suc i == last) path n s)
          ]
        ])
    step none e ih = refl
    step (some n) e ih = bare n (is_bare n) e refl ih
