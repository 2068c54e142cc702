-- ===== src/TopicTree/Subscriptions.antt =====
-- The subscriptions of a tree, and the changes of nodes that keep them.
use aws_c_mqtt.Base.{
  ℕ, ◌≡◌, refl, Bool, true, false, List, [], ◌∷◌, Option, none, some, if◌then◌else◌, bytes_eq→eq,
  arith, ◌==◌,
}
use aws_c_mqtt.TopicTree.{
  Part, NodeFields, Node, node, Subtopics, empty, fields, subtopics, find, put, remove_entry,
  node_at, update_at, remove_at, topic_node_new,
}
use aws_c_mqtt.TopicTree.Action.{Subscriber}
use aws_c_mqtt.TopicTree.Fields.{
  path_eq, find-put, find-remove_entry, fields_at, map_fields, fields_at-update_at,
}

-- A subscription is a node with a callback.
abbrev pub as_subscription : NodeFields → Option Subscriber
as_subscription f =
    if f.callback == 0
    then none
    else some
        (record { qos = f.qos; callback = f.callback; cleanup = f.cleanup; userdata = f.userdata })

abbrev pub then_subscription : Option NodeFields → Option Subscriber
then_subscription none = none
then_subscription (some f) = as_subscription f

-- What a tree promises: the subscription to a topic filter, by its parts.
unfoldable pub subscription_at : List Part → Node → Option Subscriber
subscription_at q n = then_subscription (fields_at q n)

pub fields_at-node_at :
    (ps : List Part) (n m : Node) → node_at ps n ≡ some m → fields_at ps n ≡ some (fields m)
unfolding fields_at node_at
fields_at-node_at [] (node f subs) m e = ground arith
fields_at-node_at (p ∷ ps) (node f subs) m e =
    step (find p subs) refl (λ n. fields_at-node_at ps n m) e
  where
    step :
        (r : Option Node)
        → find p subs ≡ r
        → ((n : Node) → node_at ps n ≡ some m → fields_at ps n ≡ some (fields m))
        → (elim r [ none ↦ none | some child ↦ node_at ps child ]) ≡ some m
        → (elim r [ none ↦ none | some child ↦ fields_at ps child ]) ≡ some (fields m)
    step none e ih h = cc
    step (some child) e ih h = ih child h

-- An update that changes no subscription.
pub subscription_at-update_at :
    (ps qs : List Part) (g : NodeFields → NodeFields) (n : Node)
    → ((f : NodeFields) → as_subscription (g f) ≡ as_subscription f)
    → subscription_at qs (update_at ps g n) ≡ subscription_at qs n
unfolding subscription_at
subscription_at-update_at ps qs g n same =
    rw (fields_at-update_at ps qs g n) (kept (path_eq ps qs) (fields_at qs n))
  where
    kept :
        (b : Bool) (m : Option NodeFields)
        → then_subscription (if b then map_fields g m else m) ≡ then_subscription m
    kept true none = refl
    kept true (some f) = same f
    kept false m = refl

-- No subscription, no children.
abbrev pub IsBare : Node → Type 0
IsBare n = (as_subscription (fields n) ≡ none) × (subtopics n ≡ empty)

bare_below : (q : Part) (qs : List Part) (n : Node) → IsBare n → subscription_at (q ∷ qs) n ≡ none
unfolding subscription_at fields_at find
bare_below q qs (node f subs) (a, b) = ground arith

pub bare_at : (qs : List Part) (n : Node) → IsBare n → subscription_at qs n ≡ none
unfolding subscription_at fields_at
bare_at [] (node f subs) b = b.0
bare_at (q ∷ qs) n b = bare_below q qs n b

abbrev below : List Part → Option Node → Option Subscriber
below qs none = none
below qs (some n) = subscription_at qs n

subscription_at-cons :
    (q : Part) (qs : List Part) (f : NodeFields) (subs : Subtopics)
    → subscription_at (q ∷ qs) (node f subs) ≡ below qs (find q subs)
unfolding subscription_at fields_at
subscription_at-cons q qs f subs = step (find q subs)
  where
    step :
        (m : Option Node)
        → then_subscription (elim m [ none ↦ none | some n ↦ fields_at qs n ]) ≡ below qs m
    step none = refl
    step (some n) = refl

node_at-one :
    (p : Part) (f : NodeFields) (subs : Subtopics) (b : Node)
    → node_at (p ∷ []) (node f subs) ≡ some b
    → find p subs ≡ some b
unfolding node_at
node_at-one p f subs b e = ground arith

-- A child is replaced by one with the same subscriptions.
pub subscription_at-put :
    (p : Part) (qs : List Part) (f : NodeFields) (subs : Subtopics) (child child' : Node)
    → find p subs ≡ some child
    → ((rs : List Part) → subscription_at rs child' ≡ subscription_at rs child)
    → subscription_at qs (node f (put p child' subs)) ≡ subscription_at qs (node f subs)
subscription_at-put p [] f subs child child' e ih = unfold subscription_at fields_at in refl
subscription_at-put p (q ∷ qs) f subs child child' e ih = ground (
  arith,
  subscription_at-cons q qs f (put p child' subs),
  subscription_at-cons q qs f subs,
  find-put p q child' subs,
  bytes_eq→eq p q,
  ih qs,
)

-- A bare node is taken off: no subscription changes.
pub subscription_at-remove_at :
    (p : Part) (ps qs : List Part) (n b : Node)
    → node_at (p ∷ ps) n ≡ some b
    → IsBare b
    → subscription_at qs (remove_at (p ∷ ps) n) ≡ subscription_at qs n
unfolding remove_at
subscription_at-remove_at p [] [] (node f subs) b e bare = unfold subscription_at fields_at in refl
subscription_at-remove_at p [] (q ∷ qs) (node f subs) b e bare = ground (
  arith,
  subscription_at-cons q qs f (remove_entry p subs),
  subscription_at-cons q qs f subs,
  find-remove_entry p q subs,
  bytes_eq→eq p q,
  bare_at qs b bare,
  node_at-one p f subs b e,
)
subscription_at-remove_at p (r ∷ ps) qs (node f subs) b e bare =
    step (find p subs) refl (unfold node_at in e)
      (λ child h rs. subscription_at-remove_at r ps rs child b h bare)
  where
    step :
        (m : Option Node)
        → find p subs ≡ m
        → (elim m [ none ↦ none | some child ↦ node_at (r ∷ ps) child ]) ≡ some b
        → ((child : Node)
            → node_at (r ∷ ps) child ≡ some b
            → (rs : List Part)
            → subscription_at rs (remove_at (r ∷ ps) child) ≡ subscription_at rs child)
        → subscription_at qs (elim m [
          | none ↦ node f subs
          | some child ↦ node f (put p (remove_at (r ∷ ps) child) subs)
        ])
          ≡ subscription_at qs (node f subs)
    step none q h ih = refl
    step (some child) q h ih =
        subscription_at-put p qs f subs child (remove_at (r ∷ ps) child) q (ih child h)

-- A new child has no subscriptions.
pub subscription_at-put_new :
    (p : Part) (qs : List Part) (f : NodeFields) (subs : Subtopics) (child : Node)
    → find p subs ≡ none
    → ((rs : List Part) → subscription_at rs child ≡ none)
    → subscription_at qs (node f (put p child subs)) ≡ subscription_at qs (node f subs)
subscription_at-put_new p [] f subs child e ih = unfold subscription_at fields_at in refl
subscription_at-put_new p (q ∷ qs) f subs child e ih = ground (
  arith,
  subscription_at-cons q qs f (put p child subs),
  subscription_at-cons q qs f subs,
  find-put p q child subs,
  bytes_eq→eq p q,
  ih qs,
)

pub new_node-IsBare : (string start : ℕ) → IsBare (topic_node_new string start)
unfolding topic_node_new
new_node-IsBare string start = (refl, refl)
