-- ===== src/Tests/Topics.antt =====
-- Topics and topic filters, over a split that keeps its promise.
use aws_c_mqtt.Base.{
  ℕ, ◌≡◌, ◌≤◌, ◌<◌, ◌↔◌, refl, true, false, List, [], ◌∷◌, ◌==◌, if◌then◌else◌, length, arith,
}
use aws_c_mqtt.Topics.{
  SplitOps, IsSplitOps, join, is_valid_topic, is_valid_topic_filter, valid_parts, is_valid,
  contains, part_ok,
}
use aws_c_mqtt.Topics.Wildcards.{IsFree, IsFilter, is_valid_topic_filter_lem}

abbrev push_front : ℕ → List (List ℕ) → List (List ℕ)
push_front x [] = (x ∷ []) ∷ []
push_front x (p ∷ ps) = (x ∷ p) ∷ ps

abbrev split_bytes : List ℕ → ℕ → List (List ℕ)
split_bytes [] c = [] ∷ []
split_bytes (x ∷ bs) c =
    let rest = split_bytes bs c in if x == c then [] ∷ rest else push_front x rest

abbrev pub simple_split : SplitOps
simple_split = record { split = split_bytes }

join-push_front : (c x : ℕ) (ps : List (List ℕ)) → join c (push_front x ps) ≡ x ∷ join c ps
join-push_front c x [] = refl
join-push_front c x (p ∷ []) = refl
join-push_front c x (p ∷ (q ∷ ps)) = refl

split_nonempty : (bs : List ℕ) (c : ℕ) → 1 ≤ length (split_bytes bs c)
split_nonempty [] c = omega arith
split_nonempty (x ∷ bs) c = ground (arith, split_nonempty bs c, pushed (split_bytes bs c))
  where
    pushed : (ps : List (List ℕ)) → 1 ≤ length (push_front x ps)
    pushed [] = omega arith
    pushed (p ∷ ps) = omega arith

join_empty : (c : ℕ) (ps : List (List ℕ)) → 1 ≤ length ps → join c ([] ∷ ps) ≡ c ∷ join c ps
join_empty c [] h = absurd (omega arith)
join_empty c (p ∷ ps) h = refl

join-split : (bs : List ℕ) (c : ℕ) → join c (split_bytes bs c) ≡ bs
join-split [] c = refl
join-split (x ∷ bs) c = ground (
  arith,
  join-split bs c,
  join-push_front c x (split_bytes bs c),
  join_empty c (split_bytes bs c) (split_nonempty bs c),
)

pub simple_split-IsSplitOps : IsSplitOps simple_split
simple_split-IsSplitOps = record { split_lem = join-split }

is_valid_topic_filter_lem_example :
    (is_valid_topic_filter simple_split (97 ∷ 47 ∷ 35 ∷ []) ≡ true)
    ↔ ((1 ≤ 3) × (3 < 65536) × IsFree 0 (97 ∷ 47 ∷ 35 ∷ []) × IsFilter ((97 ∷ []) ∷ (35 ∷ []) ∷ []))
is_valid_topic_filter_lem_example =
    is_valid_topic_filter_lem simple_split simple_split-IsSplitOps (97 ∷ 47 ∷ 35 ∷ [])

-- a/# is a filter, a/#/b and a+ are none, and a/+ is no topic.
filters_taken :
    (is_valid_topic_filter simple_split (97 ∷ 47 ∷ 35 ∷ []) ≡ true)
    × (is_valid_topic_filter simple_split (97 ∷ 47 ∷ 35 ∷ 47 ∷ 98 ∷ []) ≡ false)
    × (is_valid_topic_filter simple_split (97 ∷ 43 ∷ []) ≡ false)
    × (is_valid_topic simple_split (97 ∷ 47 ∷ 43 ∷ []) ≡ false)
unfolding is_valid_topic is_valid_topic_filter is_valid valid_parts part_ok contains
filters_taken = (refl, refl, refl, refl)
