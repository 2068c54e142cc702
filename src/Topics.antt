-- ===== src/Topics.antt =====
-- Topic validation (source/mqtt.c): `aws_mqtt_is_valid_topic` and `aws_mqtt_is_valid_topic_filter`.
-- A cursor with a null pointer is the empty one.
pub mod Wildcards
use aws_c_mqtt.Base.{
  ℕ, ◌≡◌, Bool, true, false, not, List, [], ◌∷◌, ◌++◌, ◌==◌, ltb, if◌then◌else◌, length, ◌&&◌, ◌||◌,
}

abbrev pub slash : ℕ
slash = 47

abbrev pub plus : ℕ
plus = 43

abbrev pub hash : ℕ
hash = 35

-- The parts with a separator between each two.
abbrev pub join : ℕ → List (List ℕ) → List ℕ
join c [] = []
join c (p ∷ []) = p
join c (p ∷ (q ∷ ps)) = p ++ (c ∷ join c (q ∷ ps))

-- `aws_byte_cursor_next_split` of aws-c-common: the parts that its calls deliver, in order, until it
-- answers false.
pub record SplitOps : Type 0 where
  pub split : List ℕ → ℕ → List (List ℕ)

-- The parts are what stands between the separators.
pub record IsSplitOps (ops : SplitOps) : Type 0 where
  pub split_lem : (bs : List ℕ) (c : ℕ) → join c (ops.split bs c) ≡ bs

-- `memchr(bs, c, len) != NULL`
unfoldable pub contains : ℕ → List ℕ → Bool
contains c [] = false
contains c (x ∷ bs) = let rest = contains c bs in (x == c) || rest

-- The two wildcard checks on a part that is not empty: whether the loop goes on.
unfoldable pub part_ok : Bool → List ℕ → Bool
part_ok is_filter part =
    if contains plus part && (not is_filter || ltb 1 (length part))
    then false
    else not (contains hash part && (not is_filter || ltb 1 (length part)))

-- `while (aws_byte_cursor_next_split(topic, '/', &topic_part)) { ... }`
unfoldable pub valid_parts : Bool → Bool → List (List ℕ) → Bool
valid_parts is_filter saw_hash [] = true
valid_parts is_filter saw_hash (part ∷ parts) =
    let rest = valid_parts is_filter (saw_hash || contains hash part) parts in
    if saw_hash
    then false
    else (if length part == 0 then rest else (if part_ok is_filter part then rest else false))

module _ (ops : SplitOps) where
  unfoldable pub is_valid : List ℕ → Bool → Bool
  is_valid topic is_filter =
      if length topic == 0
      then false
      else (if contains 0 topic
          then false
          else (if ltb 65535 (length topic)
              then false
              else valid_parts is_filter false (ops.split topic slash)))

  unfoldable pub is_valid_topic : List ℕ → Bool
  is_valid_topic topic = is_valid topic false

  unfoldable pub is_valid_topic_filter : List ℕ → Bool
  is_valid_topic_filter topic_filter = is_valid topic_filter true
