-- ===== src/TopicTree/Remove/Strings.antt =====
-- The second loop of a removal in source/topic_tree.c, which replaces the strings of nodes, as a change
-- of the subscriptions.
use aws_c_mqtt.Base.{
  ℕ, zero, suc, ◌≡◌, refl, ◌∙◌, Bool, true, false, List, Option, none, some, if◌then◌else◌, ◌==◌,
  take,
}
use aws_c_mqtt.TopicTree.{
  Part, NodeFields, Node, fields, subtopics, node_at, update_at, topic_nodes_string_finder,
  destroy_string,
}
use aws_c_mqtt.TopicTree.Commit.{
  Purge, Fixup, disown, find_string, use_string, replace_string, lower_offset, fix_strings,
  fix_pointers, start_offset,
}
use aws_c_mqtt.TopicTree.Subscriptions.{as_subscription, subscription_at, subscription_at-update_at}

-- What the change of a node's strings keeps.
use_string-subscription :
    (x : Fixup) (f : NodeFields) → as_subscription (use_string x f) ≡ as_subscription f
use_string-subscription x f = refl

find_string-subscription :
    (old : ℕ) (current q : List Part) (parent : Node) (x : Fixup)
    → subscription_at q (find_string old current parent x).tree.root ≡ subscription_at q x.tree.root
find_string-subscription old current q parent x = step (x.new_topic_filter == 0)
  where
    step :
        (b : Bool)
        → subscription_at q
            (if b
              then record {
                tree =
                    destroy_string old
                      (record (x.tree) { root = update_at current disown x.tree.root });
                new_topic_filter = topic_nodes_string_finder old (subtopics parent);
                topic_offset = x.topic_offset;
                current_owns = false;
              }
              else x).tree.root
          ≡ subscription_at q x.tree.root
    step true = subscription_at-update_at current q disown x.tree.root (λ f. refl)
    step false = refl

replace_string-subscription :
    (old : ℕ) (current path q : List Part) (parent : Node) (x : Fixup)
    → subscription_at q (replace_string old current path parent x).tree.root
      ≡ subscription_at q x.tree.root
replace_string-subscription old current path q parent x =
    let y = find_string old current parent x in
    subscription_at-update_at path q (use_string y) y.tree.root (λ f. refl)
    ∙ find_string-subscription old current q parent x

-- The loop that replaces the strings changes no subscription.
subscription_at-fix_strings :
    (old i : ℕ) (parts q : List Part) (x : Fixup)
    → subscription_at q (fix_strings old i parts x).tree.root ≡ subscription_at q x.tree.root
unfolding fix_strings
subscription_at-fix_strings old zero parts q x = refl
subscription_at-fix_strings old (suc i) parts q x =
    step (node_at (take (suc i) parts) x.tree.root) (subscription_at-fix_strings old i parts q)
  where
    y : Fixup
    y = lower_offset i parts x

    chosen :
        (parent : Node) (b : Bool)
        → subscription_at q
            (if b then replace_string old parts (take (suc i) parts) parent y else y).tree.root
          ≡ subscription_at q x.tree.root
    chosen parent true = replace_string-subscription old parts (take (suc i) parts) q parent y
    chosen parent false = refl

    step :
        (m : Option Node)
        → ((z : Fixup)
            → subscription_at q (fix_strings old i parts z).tree.root
              ≡ subscription_at q z.tree.root)
        → subscription_at q
            (elim m as (λ _. Fixup) [
              | none ↦ x
              | some parent ↦ fix_strings old i parts (
                  if (fields parent).topic_filter == old
                  then replace_string old parts (take (suc i) parts) parent y
                  else y)
            ]).tree.root
          ≡ subscription_at q x.tree.root
    step none ih = refl
    step (some parent) ih =
        ih (
          if (fields parent).topic_filter == old
          then replace_string old parts (take (suc i) parts) parent y
          else y)
        ∙ chosen parent ((fields parent).topic_filter == old)

pub subscription_at-fix_pointers :
    (old : ℕ) (owns : Bool) (parts q : List Part) (s : Purge)
    → subscription_at q (fix_pointers old owns parts s).tree.root ≡ subscription_at q s.tree.root
unfolding fix_pointers
subscription_at-fix_pointers old owns parts q s = step (s.nodes_left == 0)
  where
    x : Fixup
    x = record {
      tree = s.tree;
      new_topic_filter = 0;
      topic_offset = start_offset s.nodes_left parts s.tree.root;
      current_owns = owns;
    }

    step :
        (b : Bool)
        → subscription_at q (if b then x else fix_strings old s.nodes_left parts x).tree.root
          ≡ subscription_at q s.tree.root
    step true = refl
    step false = subscription_at-fix_strings old s.nodes_left parts q x
