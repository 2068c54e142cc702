-- ===== src/TopicTree/Deliveries.antt =====
-- What `aws_mqtt_topic_tree_publish` (source/topic_tree.c) delivers to.
use aws_c_mqtt.Base.{
  ℕ, suc, ◌≤◌, length, ◌≡◌, ◌≢◌, refl, ap, subst, ◌∙◌, List, [], ◌∷◌, ◌++◌, some, arith, ◌↔◌,
}
use aws_c_mqtt.Bytes.{ok}
use aws_c_mqtt.Packets.Filters.{ArrayOps}
use aws_c_mqtt.Topics.{SplitOps, slash}
use aws_c_mqtt.TopicTree.{Part, TopicTree}
use aws_c_mqtt.TopicTree.Action.{Action, IsStatic, AString, Subscriber}
use aws_c_mqtt.TopicTree.Transaction.{topic_tree_insert}
use aws_c_mqtt.TopicTree.Publish.{Delivery, publish_parts, topic_tree_publish, multi_level_wildcard}
use aws_c_mqtt.TopicTree.Subscriptions.{subscription_at}
use aws_c_mqtt.TopicTree.Insert.{topic_tree_insert_lem}
use aws_c_mqtt.TopicTree.Fields.{path_eq_refl}
use aws_c_mqtt.TopicTree.Matching.{
  Matches, matches_end, matches_rest, matches_any, matches_same, IsIn, Reached, delivery_of,
  publish_parts-Reached, publish_parts_complete,
}

-- A publish calls a callback (one that is not null) with user data just when the tree has a
-- subscription with that callback and that user data whose topic filter matches the topic name.
pub topic_tree_publish_lem :
    (ops : SplitOps) (t : TopicTree) (topic_name : List ℕ) (d : Delivery)
    → d.callback ≢ 0
    → IsIn d (topic_tree_publish ops t topic_name) ↔ Reached d (ops.split topic_name slash) t.root
unfolding topic_tree_publish
topic_tree_publish_lem ops t topic_name d h = (
  publish_parts-Reached d (ops.split topic_name slash) t.root h,
  λ r.
      subst (λ (e : Delivery). IsIn e (publish_parts (ops.split topic_name slash) t.root))
        (ground (arith, r.callback_is, r.userdata_is))
        (publish_parts_complete r.filter (ops.split topic_name slash) t.root r.subscriber r.matches
          r.subscribed),
)

-- A topic filter has no more parts than a topic name that it matches.
Matches-length : (fs ts : List Part) → Matches fs ts → length fs ≤ length ts
Matches-length _ _ matches_end = omega arith
Matches-length _ _ (matches_rest t ts) = omega arith
Matches-length _ _ (matches_any t fs ts h) = omega (arith, Matches-length fs ts h)
Matches-length _ _ (matches_same t fs ts h) = omega (arith, Matches-length fs ts h)

length_snoc : (ps : List Part) (p : Part) → length (ps ++ (p ∷ [])) ≡ suc (length ps)
length_snoc [] p = refl
length_snoc (q ∷ ps) p = ap suc (length_snoc ps p)

-- Where every subscription of the tree is to the topic name's parts followed by `#`, a publish of
-- that topic name calls no callback: `#` does not match its parent level.
pub topic_tree_publish_parent :
    (ops : SplitOps) (t : TopicTree) (topic_name : List ℕ) (d : Delivery)
    → ((q : List Part) (s : Subscriber)
        → subscription_at q t.root ≡ some s
        → q ≡ ops.split topic_name slash ++ (multi_level_wildcard ∷ []))
    → d.callback ≢ 0
    → ¬ IsIn d (topic_tree_publish ops t topic_name)
topic_tree_publish_parent ops t topic_name d only h i =
    let r = (topic_tree_publish_lem ops t topic_name d h).0 i in
    let parts = ops.split topic_name slash in
    omega (
      arith,
      Matches-length r.filter parts r.matches,
      ap length (only r.filter r.subscriber r.subscribed),
      length_snoc parts multi_level_wildcard,
    )

-- After a topic filter is inserted through a transaction that has room for one action, a publish of any topic name that it matches calls the callback of
-- the subscription with its user data.
pub topic_tree_insert-publish :
    (ops : SplitOps) {array : ArrayOps Action}
    → IsStatic array 1
    → (topic_filter : AString) (s : Subscriber) (t : TopicTree) → s.callback ≢ 0
    → (t' : TopicTree) × (topic_tree_insert ops array topic_filter s t ≡ ok tt t')
      × ((topic_name : List ℕ)
          → Matches (ops.split topic_filter.bytes slash) (ops.split topic_name slash)
          → IsIn (delivery_of s) (topic_tree_publish ops t' topic_name))
unfolding topic_tree_publish
topic_tree_insert-publish ops static topic_filter s t h =
    let (t', run, at) = topic_tree_insert_lem ops static topic_filter s t h in
    let filter = ops.split topic_filter.bytes slash in
    (
      t',
      run,
      λ topic_name m.
          publish_parts_complete filter (ops.split topic_name slash) t'.root s m
            (at filter ∙ ground (arith, path_eq_refl filter)),
    )
