-- ===== src/TopicTree/Insert/RollBack.antt =====
-- Rolling back the insertion of a topic filter (`s_topic_tree_action_roll_back` of
-- source/topic_tree.c) gives the nodes back as they were.
use aws_c_mqtt.Base.{
  ℕ, ◌+◌, length, ◌≡◌, refl, ap, ◌∙◌, Bool, true, false, List, [], ◌∷◌, ◌++◌, Option, none, some,
  if◌then◌else◌, bytes_eq_refl, arith, ◌==◌, append_assoc,
}
use aws_c_mqtt.TopicTree.{
  Part, NodeFields, Node, node, Subtopics, empty, entry, TopicTree, find, put, remove_entry,
  node_at, remove_at, topic_node_new, topic_node_destroy, destroy_string,
}
use aws_c_mqtt.TopicTree.Action.{Mode, add, update, remove, Action, note_created, insert_parts}
use aws_c_mqtt.TopicTree.Commit.{action_roll_back, destroy_given}
use aws_c_mqtt.TopicTree.Fields.{find-put}
use aws_c_mqtt.TopicTree.Remove.Nodes.{topic_node_destroy-root}
use aws_c_mqtt.TopicTree.Insert.Loop.{insert_parts-found, insert_parts-made}

put_same : (p : Part) (n : Node) (subs : Subtopics) → find p subs ≡ some n → put p n subs ≡ subs
unfolding find put
put_same p n empty h = cc
put_same p n (entry k m rest) h = ground (arith, put_same p n rest)

put-put : (p : Part) (m n : Node) (subs : Subtopics) → put p m (put p n subs) ≡ put p m subs
unfolding put
put-put p m n empty = ground (arith, bytes_eq_refl p)
put-put p m n (entry k l rest) = ground (arith, put-put p m n rest)

remove_entry-put :
    (p : Part) (n : Node) (subs : Subtopics)
    → find p subs ≡ none
    → remove_entry p (put p n subs) ≡ subs
unfolding find put remove_entry
remove_entry-put p n empty h = ground (arith, bytes_eq_refl p)
remove_entry-put p n (entry k m rest) h = ground (arith, remove_entry-put p n rest)

-- Once a node is made, the action does not change in what a roll back needs.
insert_parts_made :
    (string : ℕ) (ps path : List Part) (start : ℕ) (n : Node) (a : Action)
    → a.mode ≡ add
    → ((insert_parts string ps path start n a).1.mode ≡ add)
      × ((insert_parts string ps path start n a).1.first_created ≡ a.first_created)
insert_parts_made string [] path start n a h = unfold insert_parts in (h, refl)
insert_parts_made string (p ∷ ps) path start (node f subs) a h =
    step (find p subs) refl
      (λ n b. insert_parts_made string ps (path ++ (p ∷ [])) (start + length p + 1) n b)
  where
    noted : note_created path p a ≡ a
    noted = ground arith

    step :
        (m : Option Node)
        → find p subs ≡ m
        → ((n : Node) (b : Action)
            → b.mode ≡ add
            → let r = insert_parts string ps (path ++ (p ∷ [])) (start + length p + 1) n b in
              (r.1.mode ≡ add) × (r.1.first_created ≡ b.first_created))
        → let r = insert_parts string (p ∷ ps) path start (node f subs) a in
          (r.1.mode ≡ add) × (r.1.first_created ≡ a.first_created)
    step none at ih =
        rw (insert_parts-made string p ps path start f subs a at)
          (rw noted (ih (topic_node_new string start) a h))
    step (some m) at ih = rw (insert_parts-found string p ps path start f subs a m at) (ih m a h)

-- How the loop of an insertion can be undone: it made no node, or the first that it made is cut off.
pub data Undo (n : Node) (path : List Part) (n' : Node) (b : Action) : Type 0 where
  undo_nothing : b.mode ≡ update → n' ≡ n → Undo n path n' b
  undo_first :
      (p : Part) (r : List Part) (m : Node)
      → b.mode ≡ add
      → b.first_created ≡ path ++ (p ∷ r)
      → node_at (p ∷ r) n' ≡ some m
      → remove_at (p ∷ r) n' ≡ n
      → Undo n path n' b

found_put : (p : Part) (n : Node) (subs : Subtopics) → find p (put p n subs) ≡ some n
found_put p n subs = ground (arith, find-put p p n subs, bytes_eq_refl p)

node_at-child :
    (p : Part) (q : List Part) (f : NodeFields) (subs : Subtopics) (c : Node)
    → find p subs ≡ some c
    → node_at (p ∷ q) (node f subs) ≡ node_at q c
unfolding node_at
node_at-child p q f subs c e = rw (node_at, e) refl

remove_at-child :
    (p q : Part) (r : List Part) (f : NodeFields) (subs : Subtopics) (c : Node)
    → find p subs ≡ some c
    → remove_at (p ∷ (q ∷ r)) (node f subs) ≡ node f (put p (remove_at (q ∷ r) c) subs)
unfolding remove_at
remove_at-child p q r f subs c e = rw (remove_at, e) refl

Undo-child :
    (p : Part) (path : List Part) (f : NodeFields) (subs : Subtopics) (m child : Node) (b : Action)
    → find p subs ≡ some m
    → Undo m (path ++ (p ∷ [])) child b
    → Undo (node f subs) path (node f (put p child subs)) b
Undo-child p path f subs m child b e (undo_nothing u same) =
    undo_nothing u
      (ap (λ (c : Node). node f (put p c subs)) same ∙ ap (node f) (put_same p m subs e))
Undo-child p path f subs m child b e (undo_first q r k u first at back) =
    undo_first p (q ∷ r) k u (first ∙ append_assoc path (p ∷ []) (q ∷ r))
      (node_at-child p (q ∷ r) f (put p child subs) child (found_put p child subs) ∙ at)
      (remove_at-child p q r f (put p child subs) child (found_put p child subs)
        ∙ ap (λ (c : Node). node f (put p c (put p child subs))) back
        ∙ ap (node f) (put-put p m child subs ∙ put_same p m subs e))

Undo-new :
    (string start : ℕ) (p : Part) (ps path : List Part) (f : NodeFields) (subs : Subtopics)
    (a : Action)
    → a.mode ≡ update
    → find p subs ≡ none
    → let r =
        insert_parts string ps
          (path ++ (p ∷ []))
          (start + length p + 1)
          (topic_node_new string start)
          (note_created path p a) in
      Undo (node f subs) path (node f (put p r.0 subs)) r.1
Undo-new string start p ps path f subs a u e =
    let (mode, first) =
      insert_parts_made string ps (path ++ (p ∷ [])) (start + length p + 1)
        (topic_node_new string start) (note_created path p a) (ground arith) in
    let child =
      (insert_parts string ps (path ++ (p ∷ [])) (start + length p + 1)
        (topic_node_new string start) (note_created path p a)).0 in
    undo_first p [] child mode (first ∙ ground arith)
      (node_at-child p [] f (put p child subs) child (found_put p child subs)
        ∙ unfold node_at in refl)
      (unfold remove_at in ap (node f) (remove_entry-put p child subs e))

pub insert_parts-Undo :
    (string : ℕ) (ps path : List Part) (start : ℕ) (n : Node) (a : Action)
    → a.mode ≡ update
    → Undo n path
        (insert_parts string ps path start n a).0
        (insert_parts string ps path start n a).1
insert_parts-Undo string [] path start n a h = unfold insert_parts in undo_nothing h refl
insert_parts-Undo string (p ∷ ps) path start (node f subs) a h =
    step (find p subs) refl
      (λ n. insert_parts-Undo string ps (path ++ (p ∷ [])) (start + length p + 1) n a h)
  where
    step :
        (m : Option Node)
        → find p subs ≡ m
        → ((n : Node)
            → let r = insert_parts string ps (path ++ (p ∷ [])) (start + length p + 1) n a in
              Undo n (path ++ (p ∷ [])) r.0 r.1)
        → let r = insert_parts string (p ∷ ps) path start (node f subs) a in
          Undo (node f subs) path r.0 r.1
    step none at ih =
        rw (insert_parts-made string p ps path start f subs a at)
          (Undo-new string start p ps path f subs a h at)
    step (some m) at ih =
        rw (insert_parts-found string p ps path start f subs a m at)
          (Undo-child p path f subs m _ _ at (ih m))

destroy_given-root : (a : Action) (t : TopicTree) → (destroy_given a t).root ≡ t.root
destroy_given-root a t = step (a.topic_filter == 0)
  where
    step : (b : Bool) → (if b then t else destroy_string a.topic_filter t).root ≡ t.root
    step true = refl
    step false = refl

abbrev cut : Action → TopicTree → Option Node → TopicTree
cut b t m = elim m [
  | none ↦ t
  | some n ↦
      destroy_given b (topic_node_destroy n (record t { root = remove_at b.first_created t.root }))
]

-- The roll back undoes it.
pub action_roll_back-Undo :
    (n : Node) (t : TopicTree) (a b : Action)
    → Undo n [] t.root a
    → b.mode ≡ a.mode
    → b.first_created ≡ a.first_created
    → (action_roll_back b t).root ≡ n
unfolding action_roll_back
action_roll_back-Undo n t a b (undo_nothing u same) mode first = step b.mode (mode ∙ u)
  where
    step :
        (m : Mode)
        → m ≡ update
        → (elim m as (λ _. TopicTree) [
          | add ↦ cut b t (node_at b.first_created t.root)
          | update ↦ t
          | remove ↦ t
        ]).root
          ≡ n
    step add e = ground arith
    step update e = same
    step remove e = same
action_roll_back-Undo n t a b (undo_first p r m u made at back) mode first = step b.mode (mode ∙ u)
  where
    back_to : (cut b t (some m)).root ≡ n
    back_to =
        destroy_given-root b _
        ∙ topic_node_destroy-root m _
        ∙ ap (λ (c : List Part). remove_at c t.root) (first ∙ made)
        ∙ back

    step :
        (m : Mode)
        → m ≡ add
        → (elim m as (λ _. TopicTree) [
          | add ↦ cut b t (node_at b.first_created t.root)
          | update ↦ t
          | remove ↦ t
        ]).root
          ≡ n
    step add e =
        ap (λ (o : Option Node). (cut b t o).root)
          (ap (λ (c : List Part). node_at c t.root) (first ∙ made) ∙ at)
        ∙ back_to
    step update e = ground arith
    step remove e = ground arith
