-- ===== src/TopicTree/Matching.antt =====
-- Which subscriptions a published message reaches (`s_topic_tree_publish_do_recurse` of
-- source/topic_tree.c), by an independent relation of topic filters and topic names.
use aws_c_mqtt.Base.{
  not, ◌≡◌, ◌≢◌, refl, sym, ap, ◌∙◌, Bool, true, false, List, [], ◌∷◌, ◌++◌, Option, none, some,
  if◌then◌else◌, arith, ◌==◌, ◌⊎◌, inl, inr,
}
use aws_c_mqtt.TopicTree.{Part, NodeFields, Node, node, fields, subtopics, is_subscription, find}
use aws_c_mqtt.TopicTree.Action.{Subscriber}
use aws_c_mqtt.TopicTree.Publish.{
  Delivery, delivery, multi_level_wildcard, single_level_wildcard, publish_parts,
}
use aws_c_mqtt.TopicTree.Fields.{fields_at}
use aws_c_mqtt.TopicTree.Subscriptions.{subscription_at, then_subscription, as_subscription}

-- The parts of a topic filter match those of a topic name.
pub data Matches : List Part → List Part → Type 0 where
  matches_end : Matches [] []
  matches_rest : (t : Part) (ts : List Part) → Matches (multi_level_wildcard ∷ []) (t ∷ ts)
  matches_any :
      (t : Part) (fs ts : List Part) → Matches fs ts → Matches (single_level_wildcard ∷ fs) (t ∷ ts)
  matches_same : (t : Part) (fs ts : List Part) → Matches fs ts → Matches (t ∷ fs) (t ∷ ts)

-- A member of a list.
pub data IsIn (d : Delivery) : List Delivery → Type 0 where
  here : (ds : List Delivery) → IsIn d (d ∷ ds)
  there : (e : Delivery) (ds : List Delivery) → IsIn d ds → IsIn d (e ∷ ds)

IsIn-left : (d : Delivery) (xs ys : List Delivery) → IsIn d xs → IsIn d (xs ++ ys)
IsIn-left d _ ys (here xs) = here (xs ++ ys)
IsIn-left d _ ys (there e xs h) = there e (xs ++ ys) (IsIn-left d xs ys h)

IsIn-right : (d : Delivery) (xs ys : List Delivery) → IsIn d ys → IsIn d (xs ++ ys)
IsIn-right d [] ys h = h
IsIn-right d (x ∷ xs) ys h = there x (xs ++ ys) (IsIn-right d xs ys h)

IsIn-append : (d : Delivery) (xs ys : List Delivery) → IsIn d (xs ++ ys) → (IsIn d xs) ⊎ (IsIn d ys)
IsIn-append d [] ys h = inr h
IsIn-append d (x ∷ xs) ys (here _) = inl (here xs)
IsIn-append d (x ∷ xs) ys (there _ _ h) = elim (IsIn-append d xs ys h) [
  | inl l ↦ inl (there x xs l)
  | inr r ↦ inr r
]

-- The subscription whose callback and user data a delivery has.
pub record Reached (d : Delivery) (ts : List Part) (n : Node) : Type 0 where
  pub filter : List Part
  pub subscriber : Subscriber
  pub subscribed : subscription_at filter n ≡ some subscriber
  pub matches : Matches filter ts
  pub callback_is : subscriber.callback ≡ d.callback
  pub userdata_is : subscriber.userdata ≡ d.userdata

-- What a publish delivers for `#`, and for a child that it finds.
abbrev rest_of : Option Node → List Delivery
rest_of m = elim m [ none ↦ [] | some n ↦ delivery (fields n) ∷ [] ]

abbrev found_of : List Part → Option Node → List Delivery
found_of ts m = elim m [ none ↦ [] | some n ↦ publish_parts ts n ]

-- A subscription below a child is one of the node.
subscribed_below :
    (p : Part) (q : List Part) (n m : Node) (s : Subscriber)
    → find p (subtopics n) ≡ some m
    → subscription_at q m ≡ some s
    → subscription_at (p ∷ q) n ≡ some s
unfolding subscription_at fields_at
subscribed_below p q (node f subs) m s e h = ground arith

Reached-below :
    (d : Delivery) (p : Part) (t : Part) (ts : List Part) (n m : Node)
    → find p (subtopics n) ≡ some m
    → ((fs : List Part) → Matches fs ts → Matches (p ∷ fs) (t ∷ ts))
    → Reached d ts m
    → Reached d (t ∷ ts) n
Reached-below d p t ts n m e matching r = record {
  filter = p ∷ r.filter;
  subscriber = r.subscriber;
  subscribed = subscribed_below p r.filter n m r.subscriber e r.subscribed;
  matches = matching r.filter r.matches;
  callback_is = r.callback_is;
  userdata_is = r.userdata_is;
}

subscriber_of : NodeFields → Subscriber
subscriber_of f = record {
  qos = f.qos;
  callback = f.callback;
  cleanup = f.cleanup;
  userdata = f.userdata;
}

in_one : (d e : Delivery) → IsIn d (e ∷ []) → e ≡ d
in_one d _ (here _) = refl
in_one d e (there _ _ h) = elim h [ ]

is_subscribed : (f : NodeFields) → f.callback ≢ 0 → as_subscription f ≡ some (subscriber_of f)
unfolding subscriber_of
is_subscribed f h = ground arith

subscribed_here :
    (d : Delivery) (n : Node)
    → d.callback ≢ 0
    → delivery (fields n) ≡ d
    → subscription_at [] n ≡ some (subscriber_of (fields n))
unfolding subscription_at fields_at
subscribed_here d (node f subs) h e = is_subscribed f (λ z. h (sym (ap (λ x. x.callback) e) ∙ z))

-- A node's own delivery.
Reached-here : (d : Delivery) (n : Node) → d.callback ≢ 0 → delivery (fields n) ≡ d → Reached d [] n
unfolding subscriber_of
Reached-here d n h e = record {
  filter = [];
  subscriber = subscriber_of (fields n);
  subscribed = subscribed_here d n h e;
  matches = matches_end;
  callback_is = ap (λ x. x.callback) e;
  userdata_is = ap (λ x. x.userdata) e;
}

-- The delivery of a child for the rest of the topic.
Reached-rest :
    (d : Delivery) (t : Part) (ts : List Part) (n m : Node)
    → find multi_level_wildcard (subtopics n) ≡ some m
    → d.callback ≢ 0
    → delivery (fields m) ≡ d
    → Reached d (t ∷ ts) n
unfolding subscriber_of
Reached-rest d t ts n m e h same = record {
  filter = multi_level_wildcard ∷ [];
  subscriber = subscriber_of (fields m);
  subscribed = subscribed_below multi_level_wildcard [] n m _ e (subscribed_here d m h same);
  matches = matches_rest t ts;
  callback_is = ap (λ x. x.callback) same;
  userdata_is = ap (λ x. x.userdata) same;
}

-- What a publish delivers to is subscribed.
pub publish_parts-Reached :
    (d : Delivery) (ts : List Part) (n : Node)
    → d.callback ≢ 0
    → IsIn d (publish_parts ts n)
    → Reached d ts n
unfolding publish_parts
publish_parts-Reached d [] n h i = own (is_subscription (fields n)) i
  where
    own : (b : Bool) → IsIn d (if b then delivery (fields n) ∷ [] else []) → Reached d [] n
    own true i = Reached-here d n h (in_one d (delivery (fields n)) i)
    own false i = elim i [ ]
publish_parts-Reached d (t ∷ ts) n h i =
    elim (IsIn-append d (rest_of (find multi_level_wildcard (subtopics n))) _ i) [
      | inl l ↦ rest (find multi_level_wildcard (subtopics n)) refl l
      | inr r ↦ elim (IsIn-append d (found_of ts (find single_level_wildcard (subtopics n))) _ r) [
        | inl l ↦
            child (λ m. publish_parts-Reached d ts m h) single_level_wildcard (matches_any t)
              (find single_level_wildcard (subtopics n)) refl l
        | inr l ↦
            child (λ m. publish_parts-Reached d ts m h) t (matches_same t) (find t (subtopics n))
              refl l
      ]
    ]
  where
    rest :
        (m : Option Node)
        → find multi_level_wildcard (subtopics n) ≡ m
        → IsIn d (rest_of m)
        → Reached d (t ∷ ts) n
    rest none e i = elim i [ ]
    rest (some m) e i = Reached-rest d t ts n m e h (in_one d (delivery (fields m)) i)

    child :
        ((m : Node) → IsIn d (publish_parts ts m) → Reached d ts m)
        → (p : Part)
        → ((fs : List Part) (us : List Part) → Matches fs us → Matches (p ∷ fs) (t ∷ us))
        → (m : Option Node) → find p (subtopics n) ≡ m
        → IsIn d (found_of ts m)
        → Reached d (t ∷ ts) n
    child ih p matching none e i = elim i [ ]
    child ih p matching (some m) e i = Reached-below d p t ts n m e (λ fs. matching fs ts) (ih m i)

-- The other way round: where a node has a subscription, its part is found.
found_below :
    (p : Part) (q : List Part) (n : Node) (s : Subscriber)
    → subscription_at (p ∷ q) n ≡ some s
    → (m : Node) × (find p (subtopics n) ≡ some m) × (subscription_at q m ≡ some s)
unfolding subscription_at fields_at
found_below p q (node f subs) s e = step (find p subs) e
  where
    step :
        (r : Option Node)
        → then_subscription (elim r [ none ↦ none | some child ↦ fields_at q child ]) ≡ some s
        → (m : Node) × (r ≡ some m) × (then_subscription (fields_at q m) ≡ some s)
    step none h = absurd (cc h)
    step (some child) h = (child, refl, h)

abbrev pub delivery_of : Subscriber → Delivery
delivery_of s = record { callback = s.callback; userdata = s.userdata }

delivers_own :
    (n : Node) (s : Subscriber)
    → subscription_at [] n ≡ some s
    → (delivery (fields n) ≡ delivery_of s) × (is_subscription (fields n) ≡ true)
unfolding subscription_at fields_at
delivers_own (node f subs) s e = step (f.callback == 0) e
  where
    step :
        (b : Bool)
        → (if b
            then none
            else some (record {
              qos = f.qos;
              callback = f.callback;
              cleanup = f.cleanup;
              userdata = f.userdata;
            }))
          ≡ some s
        → (delivery f ≡ delivery_of s) × (not b ≡ true)
    step true h = absurd (cc h)
    step false h = (ground arith, refl)

-- Every subscription that matches is delivered to.
pub publish_parts_complete :
    (fs ts : List Part) (n : Node) (s : Subscriber)
    → Matches fs ts
    → subscription_at fs n ≡ some s
    → IsIn (delivery_of s) (publish_parts ts n)
unfolding publish_parts
publish_parts_complete _ _ n s matches_end e =
    let (same, subscribed) = delivers_own n s e in rw subscribed (rw same (here []))
publish_parts_complete _ _ n s (matches_rest t ts) e =
    let (m, at, sub) = found_below multi_level_wildcard [] n s e in
    IsIn-left (delivery_of s) (rest_of (find multi_level_wildcard (subtopics n)))
      (found_of ts (find single_level_wildcard (subtopics n)) ++ found_of ts (find t (subtopics n)))
      (rw at (rw (delivers_own m s sub).0 (here [])))
publish_parts_complete _ _ n s (matches_any t fs ts h) e =
    let (m, at, sub) = found_below single_level_wildcard fs n s e in
    IsIn-right (delivery_of s) (rest_of (find multi_level_wildcard (subtopics n)))
      (found_of ts (find single_level_wildcard (subtopics n)) ++ found_of ts (find t (subtopics n)))
      (IsIn-left (delivery_of s) (found_of ts (find single_level_wildcard (subtopics n)))
        (found_of ts (find t (subtopics n))) (rw at (publish_parts_complete fs ts m s h sub)))
publish_parts_complete _ _ n s (matches_same t fs ts h) e =
    let (m, at, sub) = found_below t fs n s e in
    IsIn-right (delivery_of s) (rest_of (find multi_level_wildcard (subtopics n)))
      (found_of ts (find single_level_wildcard (subtopics n)) ++ found_of ts (find t (subtopics n)))
      (IsIn-right (delivery_of s) (found_of ts (find single_level_wildcard (subtopics n)))
        (found_of ts (find t (subtopics n))) (rw at (publish_parts_complete fs ts m s h sub)))
