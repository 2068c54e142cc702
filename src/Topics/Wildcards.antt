-- ===== src/Topics/Wildcards.antt =====
-- The topics and topic filters that the validation takes, without the loop [MQTT-4.7].
use aws_c_mqtt.Base.{
  ℕ, ◌≡◌, ◌≢◌, ◌≤◌, ◌<◌, ◌↔◌, ◌⊎◌, subst, true, false, List, [], ◌∷◌, ◌++◌, length, All, All-append,
  arith,
}
use aws_c_mqtt.Topics.{
  slash, plus, hash, join, SplitOps, IsSplitOps, contains, part_ok, valid_parts, is_valid,
  is_valid_topic, is_valid_topic_filter,
}

abbrev pub IsFree : ℕ → List ℕ → Type 0
IsFree c = All (λ x. x ≢ c)

-- No wildcard.
abbrev pub IsPlain : List ℕ → Type 0
IsPlain part = IsFree plus part × IsFree hash part

-- The parts of a filter: a part is plain, or + alone, or # alone and the last.
abbrev pub IsFilter : List (List ℕ) → Type 0
IsFilter [] = Unit
IsFilter (p ∷ ps) =
    (IsPlain p × IsFilter ps) ⊎ (((p ≡ plus ∷ []) × IsFilter ps) ⊎ ((p ≡ hash ∷ []) × (ps ≡ [])))

contains-IsFree : (c : ℕ) (bs : List ℕ) → (contains c bs ≡ false) ↔ IsFree c bs
unfolding contains
contains-IsFree c [] = ground arith
contains-IsFree c (x ∷ bs) = ground (arith, contains-IsFree c bs)

-- A topic.
valid_parts-All : (ps : List (List ℕ)) → (valid_parts false false ps ≡ true) ↔ All IsPlain ps
unfolding valid_parts part_ok contains
valid_parts-All [] = ground arith
valid_parts-All ([] ∷ ps) = ground (arith, valid_parts-All ps)
valid_parts-All ((x ∷ p) ∷ ps) =
    ground (arith, valid_parts-All ps, contains-IsFree plus (x ∷ p), contains-IsFree hash (x ∷ p))

-- Nothing may stand behind a #.
saw_hash_end : (ps : List (List ℕ)) → (valid_parts true true ps ≡ true) ↔ (ps ≡ [])
unfolding valid_parts
saw_hash_end [] = ground arith
saw_hash_end (p ∷ ps) = ground arith

valid_parts-IsFilter : (ps : List (List ℕ)) → (valid_parts true false ps ≡ true) ↔ IsFilter ps
unfolding valid_parts part_ok contains
valid_parts-IsFilter [] = ground arith
valid_parts-IsFilter ([] ∷ ps) = ground (arith, valid_parts-IsFilter ps)
valid_parts-IsFilter ((x ∷ []) ∷ ps) = ground (arith, valid_parts-IsFilter ps, saw_hash_end ps)
valid_parts-IsFilter ((x ∷ (y ∷ p)) ∷ ps) = ground (
  arith,
  valid_parts-IsFilter ps,
  contains-IsFree plus (x ∷ y ∷ p),
  contains-IsFree hash (x ∷ y ∷ p),
)

All-append_inv : (c : ℕ) (xs ys : List ℕ) → IsFree c (xs ++ ys) → IsFree c xs × IsFree c ys
All-append_inv c [] ys h = (tt, h)
All-append_inv c (x ∷ xs) ys h = let (a, b) = All-append_inv c xs ys h.1 in ((h.0, a), b)

-- The wildcards of a topic are those of its parts.
join-IsFree : (c d : ℕ) (ps : List (List ℕ)) → d ≢ c → IsFree c (join d ps) ↔ All (IsFree c) ps
join-IsFree c d [] n = ground arith
join-IsFree c d (p ∷ []) n = ground arith
join-IsFree c d (p ∷ (q ∷ ps)) n = ground (
  arith,
  join-IsFree c d (q ∷ ps) n,
  All-append_inv c p (d ∷ join d (q ∷ ps)),
  All-append (λ (x : ℕ). x ≢ c) p (d ∷ join d (q ∷ ps)),
)

no_wildcards_inside :
    (ps : List (List ℕ)) → All IsPlain ps ↔ (All (IsFree plus) ps × All (IsFree hash) ps)
no_wildcards_inside [] = ground arith
no_wildcards_inside (p ∷ ps) = ground (arith, no_wildcards_inside ps)

module _ (ops : SplitOps) (law : IsSplitOps ops) where
  -- A topic is valid just when it has 1 to 65535 bytes and none of them is 0, + or #.
  pub is_valid_topic_lem :
      (topic : List ℕ)
      → (is_valid_topic ops topic ≡ true) ↔ (
          (1 ≤ length topic)
          × (length topic < 65536)
          × IsFree 0 topic
          × IsFree plus topic
          × IsFree hash topic)
  unfolding is_valid_topic is_valid
  is_valid_topic_lem topic =
      let ps = ops.split topic slash in
      let e : join slash ps ≡ topic = law.split_lem topic slash in
      let free : (c : ℕ) → slash ≢ c → IsFree c topic ↔ All (IsFree c) ps = λ c n.
        subst (λ (t : List ℕ). IsFree c t ↔ All (IsFree c) ps) e (join-IsFree c slash ps n) in
      ground (
        arith,
        contains-IsFree 0 topic,
        valid_parts-All ps,
        no_wildcards_inside ps,
        free plus (omega arith),
        free hash (omega arith),
      )

  -- A topic filter is valid just when it has 1 to 65535 bytes, none of them 0, and each of its parts
  -- between slashes has no wildcard, or is + alone, or is # alone and the last.
  pub is_valid_topic_filter_lem :
      (topic_filter : List ℕ)
      → (is_valid_topic_filter ops topic_filter ≡ true) ↔ (
          (1 ≤ length topic_filter)
          × (length topic_filter < 65536)
          × IsFree 0 topic_filter
          × IsFilter (ops.split topic_filter slash))
  unfolding is_valid_topic_filter is_valid
  is_valid_topic_filter_lem topic_filter =
      ground
        (arith, contains-IsFree 0 topic_filter, valid_parts-IsFilter (ops.split topic_filter slash))
