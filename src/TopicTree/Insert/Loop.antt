-- ===== src/TopicTree/Insert/Loop.antt =====
-- The loop over the parts in `s_topic_tree_transaction_insert` (source/topic_tree.c): what it makes of
-- its action, and that it leaves a node.
use aws_c_mqtt.Base.{
  bytes_eq→eq, ℕ, ◌+◌, length, ◌≡◌, refl, sym, ap, ◌∙◌, Bool, true, false, List, [], ◌∷◌, ◌++◌,
  Option, none, some, bytes_eq_refl, arith, append_assoc, append-nil,
}
use aws_c_mqtt.TopicTree.{Subtopics, Part, NodeFields, Node, node, find, put, topic_node_new}
use aws_c_mqtt.TopicTree.Action.{Mode, add, update, remove, Action, note_created, insert_parts}
use aws_c_mqtt.TopicTree.Fields.{find-put, fields_at}
use aws_c_mqtt.TopicTree.Subscriptions.{
  subscription_at, subscription_at-put, subscription_at-put_new, bare_at, new_node-IsBare,
}

abbrev pub is_insert : Mode → Bool
is_insert add = true
is_insert update = true
is_insert remove = false

abbrev below_at : List Part → Option Node → Option NodeFields
below_at rs none = none
below_at rs (some n) = fields_at rs n

-- One round of the loop, where the child is there and where it is made.
pub insert_parts-found :
    (string : ℕ) (p : Part) (ps path : List Part) (start : ℕ) (f : NodeFields) (subs : Subtopics)
    (a : Action) (m : Node)
    → find p subs ≡ some m
    → let r = insert_parts string ps (path ++ (p ∷ [])) (start + length p + 1) m a in
      insert_parts string (p ∷ ps) path start (node f subs) a ≡ (node f (put p r.0 subs), r.1)
unfolding insert_parts
insert_parts-found string p ps path start f subs a m e = rw (insert_parts, e) refl

pub insert_parts-made :
    (string : ℕ) (p : Part) (ps path : List Part) (start : ℕ) (f : NodeFields) (subs : Subtopics)
    (a : Action)
    → find p subs ≡ none
    → let r : Node × Action =
        insert_parts string ps
          (path ++ (p ∷ []))
          (start + length p + 1)
          (topic_node_new string start)
          (note_created path p a) in
      insert_parts string (p ∷ ps) path start (node f subs) a ≡ (node f (put p r.0 subs), r.1)
unfolding insert_parts
insert_parts-made string p ps path start f subs a e = rw (insert_parts, e) refl

-- What the loop of an insertion makes of its action.
pub record IsInsert (a b : Action) (path : List Part) : Type 0 where
  pub to_update : b.node_to_update ≡ some path
  pub inserts : is_insert b.mode ≡ true
  pub same_subscriber : b.subscriber ≡ a.subscriber
  pub same_string : b.topic_filter ≡ a.topic_filter

note_created_insert :
    (path : List Part) (p : Part) (a : Action)
    → is_insert a.mode ≡ true
    → (is_insert (note_created path p a).mode ≡ true)
      × ((note_created path p a).subscriber ≡ a.subscriber)
      × ((note_created path p a).topic_filter ≡ a.topic_filter)
note_created_insert path p a h = ground arith

pub insert_parts-IsInsert :
    (string : ℕ) (ps path : List Part) (start : ℕ) (n : Node) (a : Action)
    → is_insert a.mode ≡ true
    → IsInsert a (insert_parts string ps path start n a).1 (path ++ ps)
unfolding insert_parts
insert_parts-IsInsert string [] path start n a h = record {
  to_update = ap some (sym (append-nil path));
  inserts = h;
  same_subscriber = refl;
  same_string = refl;
}
insert_parts-IsInsert string (p ∷ ps) path start (node f subs) a h =
    step (find p subs) refl
      (λ n b hb. insert_parts-IsInsert string ps (path ++ (p ∷ [])) (start + length p + 1) n b hb)
  where
    regroup :
        (a b : Action) → IsInsert a b ((path ++ (p ∷ [])) ++ ps) → IsInsert a b (path ++ (p ∷ ps))
    regroup a b v = record {
      to_update = v.to_update ∙ ap some (append_assoc path (p ∷ []) ps);
      inserts = v.inserts;
      same_subscriber = v.same_subscriber;
      same_string = v.same_string;
    }

    noted :
        (b : Action)
        → IsInsert (note_created path p a) b (path ++ (p ∷ ps))
        → IsInsert a b (path ++ (p ∷ ps))
    noted b v = record {
      to_update = v.to_update;
      inserts = v.inserts;
      same_subscriber = v.same_subscriber ∙ (note_created_insert path p a h).1;
      same_string = v.same_string ∙ (note_created_insert path p a h).2;
    }

    step :
        (m : Option Node)
        → find p subs ≡ m
        → ((n : Node) (b : Action)
            → is_insert b.mode ≡ true
            → IsInsert b
                (insert_parts string ps (path ++ (p ∷ [])) (start + length p + 1) n b).1
                ((path ++ (p ∷ [])) ++ ps))
        → IsInsert a (insert_parts string (p ∷ ps) path start (node f subs) a).1 (path ++ (p ∷ ps))
    step none at ih = rw (insert_parts-made string p ps path start f subs a at) (
        noted _ (
          regroup (note_created path p a) _ (
            ih (topic_node_new string start) (note_created path p a)
              (note_created_insert path p a h).0)))
    step (some m) at ih =
        rw (insert_parts-found string p ps path start f subs a m at) (regroup a _ (ih m a h))

-- The node is there afterwards.
pub insert_parts_found :
    (string : ℕ) (ps path : List Part) (start : ℕ) (n : Node) (a : Action)
    → (f : NodeFields) × (fields_at ps (insert_parts string ps path start n a).0 ≡ some f)
unfolding insert_parts fields_at
insert_parts_found string [] path start (node f subs) a = (f, refl)
insert_parts_found string (p ∷ ps) path start (node f subs) a =
    step (find p subs) refl
      (λ n b. insert_parts_found string ps (path ++ (p ∷ [])) (start + length p + 1) n b)
  where
    there :
        (child : Node) (g : NodeFields)
        → fields_at ps child ≡ some g
        → (elim (find p (put p child subs)) [ none ↦ none | some n ↦ fields_at ps n ]) ≡ some g
    there child g e = ground (arith, find-put p p child subs, bytes_eq_refl p)

    step :
        (m : Option Node)
        → find p subs ≡ m
        → ((n : Node) (b : Action)
            → (g : NodeFields) × (fields_at ps
                  (insert_parts string ps (path ++ (p ∷ [])) (start + length p + 1) n b).0
                ≡ some g))
        → (g : NodeFields) × (fields_at
              (p ∷ ps)
              (insert_parts string (p ∷ ps) path start (node f subs) a).0
            ≡ some g)
    step none at ih =
        let (g, e) = ih (topic_node_new string start) (note_created path p a) in
        (g, rw (insert_parts-made string p ps path start f subs a at) (there _ g e))
    step (some m) at ih =
        let (g, e) = ih m a in
        (g, rw (insert_parts-found string p ps path start f subs a m at) (there _ g e))

-- A node keeps its fields when a child is put.
fields_at-put :
    (p : Part) (qs : List Part) (f : NodeFields) (subs : Subtopics) (child : Node) (g : NodeFields)
    → ((rs : List Part) (h : NodeFields)
        → below_at rs (find p subs) ≡ some h
        → fields_at rs child ≡ some h)
    → fields_at qs (node f subs) ≡ some g
    → fields_at qs (node f (put p child subs)) ≡ some g
unfolding fields_at
fields_at-put p [] f subs child g kept e = e
fields_at-put p (q ∷ qs) f subs child g kept e =
    ground (arith, find-put p q child subs, bytes_eq→eq p q, kept qs g)

-- Every node that was there is there with its fields.
pub fields_at-insert_parts :
    (string : ℕ) (ps path : List Part) (start : ℕ) (n : Node) (a : Action) (qs : List Part)
    (g : NodeFields)
    → fields_at qs n ≡ some g
    → fields_at qs (insert_parts string ps path start n a).0 ≡ some g
fields_at-insert_parts string [] path start n a qs g e = unfold insert_parts in e
fields_at-insert_parts string (p ∷ ps) path start (node f subs) a qs g e =
    step (find p subs) refl
      (λ n b. fields_at-insert_parts string ps (path ++ (p ∷ [])) (start + length p + 1) n b)
  where
    step :
        (m : Option Node)
        → find p subs ≡ m
        → ((n : Node) (b : Action) (rs : List Part) (h : NodeFields)
            → fields_at rs n ≡ some h
            → fields_at rs (insert_parts string ps (path ++ (p ∷ [])) (start + length p + 1) n b).0
              ≡ some h)
        → fields_at qs (insert_parts string (p ∷ ps) path start (node f subs) a).0 ≡ some g
    step none at ih =
        rw (insert_parts-made string p ps path start f subs a at)
          (fields_at-put p qs f subs _ g (λ rs h k. ground arith) e)
    step (some m) at ih =
        rw (insert_parts-found string p ps path start f subs a m at)
          (fields_at-put p qs f subs _ g (λ rs h k. ih m a rs h (sym (ap (below_at rs) at) ∙ k)) e)

-- The loop of an insertion changes no subscription.
pub subscription_at-insert_parts :
    (string : ℕ) (ps path : List Part) (start : ℕ) (n : Node) (a : Action) (qs : List Part)
    → subscription_at qs (insert_parts string ps path start n a).0 ≡ subscription_at qs n
subscription_at-insert_parts string [] path start n a qs = unfold insert_parts in refl
subscription_at-insert_parts string (p ∷ ps) path start (node f subs) a qs =
    step (find p subs) refl (λ n b rs.
      subscription_at-insert_parts string ps (path ++ (p ∷ [])) (start + length p + 1) n b rs)
  where
    step :
        (m : Option Node)
        → find p subs ≡ m
        → ((n : Node) (b : Action) (rs : List Part)
            → subscription_at rs
                (insert_parts string ps (path ++ (p ∷ [])) (start + length p + 1) n b).0
              ≡ subscription_at rs n)
        → subscription_at qs (insert_parts string (p ∷ ps) path start (node f subs) a).0
          ≡ subscription_at qs (node f subs)
    step none e ih = rw (insert_parts-made string p ps path start f subs a e) (
        subscription_at-put_new p qs f subs _ e (λ rs.
          ih (topic_node_new string start) (note_created path p a) rs
          ∙ bare_at rs (topic_node_new string start) (new_node-IsBare string start)))
    step (some m) e ih =
        rw (insert_parts-found string p ps path start f subs a m e)
          (subscription_at-put p qs f subs m _ e (λ rs. ih m a rs))
