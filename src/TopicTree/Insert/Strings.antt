-- ===== src/TopicTree/Insert/Strings.antt =====
-- The strings that an insertion (`aws_mqtt_topic_tree_transaction_insert` of source/topic_tree.c)
-- destroys.
use aws_c_mqtt.Base.{
  ℕ, ◌+◌, length, ◌≡◌, refl, sym, ap, ◌∙◌, Bool, true, false, List, [], ◌∷◌, ◌++◌, Option, none,
  some, if◌then◌else◌, bytes_eq_refl, arith,
}
use aws_c_mqtt.TopicTree.{
  Part, NodeFields, Node, node, Subtopics, TopicTree, fields, find, put, node_at, topic_node_new,
  destroy_string,
}
use aws_c_mqtt.TopicTree.Action.{
  Action, AString, note_created, insert_parts, owns_at, give_string, last_start,
}
use aws_c_mqtt.TopicTree.Fields.{find-put}
use aws_c_mqtt.TopicTree.Insert.Loop.{insert_parts-found, insert_parts-made}

-- Whether a node is there and owns its string.
abbrev owns : Option Node → Bool
owns none = false
owns (some n) = (fields n).owns_topic_filter

new_node-owns :
    (ps : List Part) (string start : ℕ) → owns (node_at ps (topic_node_new string start)) ≡ false
unfolding node_at topic_node_new find
new_node-owns [] string start = refl
new_node-owns (p ∷ ps) string start = refl

put-owns :
    (p : Part) (ps : List Part) (f : NodeFields) (subs : Subtopics) (child : Node)
    → owns (node_at (p ∷ ps) (node f (put p child subs))) ≡ owns (node_at ps child)
unfolding node_at
put-owns p ps f subs child = ground (arith, find-put p p child subs, bytes_eq_refl p)

-- The loop of an insertion gives no string to the node that it leads to.
insert_parts-owns :
    (string : ℕ) (ps path : List Part) (start : ℕ) (n : Node) (a : Action)
    → owns (node_at ps (insert_parts string ps path start n a).0) ≡ owns (node_at ps n)
insert_parts-owns string [] path start n a = unfold insert_parts in refl
insert_parts-owns string (p ∷ ps) path start (node f subs) a =
    step (find p subs) refl
      (λ n b. insert_parts-owns string ps (path ++ (p ∷ [])) (start + length p + 1) n b)
  where
    below : Option Node → Bool
    below none = false
    below (some n) = owns (node_at ps n)

    before : owns (node_at (p ∷ ps) (node f subs)) ≡ below (find p subs)
    before = unfold node_at in split (find p subs)
      where
        split :
            (m : Option Node)
            → owns (elim m [ none ↦ none | some child ↦ node_at ps child ]) ≡ below m
        split none = refl
        split (some n) = refl

    step :
        (m : Option Node)
        → find p subs ≡ m
        → ((n : Node) (b : Action)
            → owns (
                node_at ps (insert_parts string ps (path ++ (p ∷ [])) (start + length p + 1) n b).0)
              ≡ owns (node_at ps n))
        → owns (node_at (p ∷ ps) (insert_parts string (p ∷ ps) path start (node f subs) a).0)
          ≡ owns (node_at (p ∷ ps) (node f subs))
    step none e ih = rw (insert_parts-made string p ps path start f subs a e) (
        put-owns p ps f subs _
        ∙ ih (topic_node_new string start) (note_created path p a)
        ∙ new_node-owns ps string start
        ∙ sym (before ∙ ap below e))
    step (some m) e ih =
        rw (insert_parts-found string p ps path start f subs a m e)
          (put-owns p ps f subs _ ∙ ih m a ∙ sym (before ∙ ap below e))

owns_at-owns : (ps : List Part) (n : Node) → owns_at ps n ≡ owns (node_at ps n)
owns_at-owns ps n = step (node_at ps n)
  where
    step :
        (m : Option Node)
        → (elim m as (λ _. Bool) [ none ↦ false | some k ↦ (fields k).owns_topic_filter ]) ≡ owns m
    step none = refl
    step (some k) = refl

-- Where the node of a topic filter owns no string, the insertion destroys none.
pub give_string-destroyed :
    (topic_filter : AString) (ps : List Part) (t t1 : TopicTree) (a b : Action)
    → t1.root ≡ (insert_parts topic_filter.pointer ps [] 0 t.root a).0
    → owns_at ps t.root ≡ false
    → (give_string topic_filter ps t1 b).0.destroyed ≡ t1.destroyed
give_string-destroyed topic_filter ps t t1 a b made free = step (owns_at ps t1.root) (
    ap (owns_at ps) made
    ∙ owns_at-owns ps _
    ∙ insert_parts-owns topic_filter.pointer ps [] 0 t.root a
    ∙ sym (owns_at-owns ps t.root)
    ∙ free)
  where
    step :
        (c : Bool)
        → c ≡ false
        → let r : TopicTree × Action =
            (if c then (destroy_string topic_filter.pointer t1, b) else (
              t1,
              record b { topic_offset = last_start 0 ps; topic_filter = topic_filter.pointer },
            )) in
          r.0.destroyed ≡ t1.destroyed
    step true e = absurd (cc e)
    step false e = refl
