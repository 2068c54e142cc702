-- ===== src/TopicTree/Fields.antt =====
-- What is found at a path, after each change of the nodes.
use aws_c_mqtt.Base.{
  ◌≡◌, refl, Bool, true, false, List, [], ◌∷◌, Option, none, some, if◌then◌else◌, bytes_eq,
  bytes_eq_refl, bytes_eq→eq, arith, ◌&&◌,
}
use aws_c_mqtt.TopicTree.{
  Part, NodeFields, Node, node, Subtopics, empty, entry, fields, find, put, remove_entry, node_at,
  update_at,
}

unfoldable pub path_eq : List Part → List Part → Bool
path_eq [] [] = true
path_eq [] (q ∷ qs) = false
path_eq (p ∷ ps) [] = false
path_eq (p ∷ ps) (q ∷ qs) = let rest = path_eq ps qs in bytes_eq p q && rest

pub find-put :
    (p q : Part) (n : Node) (subs : Subtopics)
    → find q (put p n subs) ≡ (if bytes_eq p q then some n else find q subs)
unfolding find put
find-put p q n empty = refl
find-put p q n (entry k m rest) = ground (
  arith,
  bytes_eq→eq k p,
  bytes_eq→eq k q,
  bytes_eq→eq p q,
  bytes_eq_refl k,
  bytes_eq_refl p,
  bytes_eq_refl q,
  find-put p q n rest,
)

-- The fields of the node at a path.
unfoldable pub fields_at : List Part → Node → Option NodeFields
fields_at [] (node f subs) = some f
fields_at (p ∷ ps) (node f subs) = elim (find p subs) [ none ↦ none | some n ↦ fields_at ps n ]

abbrev pub map_fields : (NodeFields → NodeFields) → Option NodeFields → Option NodeFields
map_fields g none = none
map_fields g (some f) = some (g f)

pub fields_at-update_at :
    (ps qs : List Part) (g : NodeFields → NodeFields) (n : Node)
    → fields_at qs (update_at ps g n)
      ≡ (if path_eq ps qs then map_fields g (fields_at qs n) else fields_at qs n)
unfolding fields_at update_at path_eq
fields_at-update_at [] [] g (node f subs) = refl
fields_at-update_at [] (q ∷ qs) g (node f subs) = refl
fields_at-update_at (p ∷ ps) [] g (node f subs) = ground arith
fields_at-update_at (p ∷ ps) (q ∷ qs) g (node f subs) =
    step (find p subs) refl (λ n. fields_at-update_at ps qs g n)
  where
    step :
        (m : Option Node)
        → find p subs ≡ m
        → ((n : Node)
            → fields_at qs (update_at ps g n)
              ≡ (if path_eq ps qs then map_fields g (fields_at qs n) else fields_at qs n))
        → fields_at (q ∷ qs) (elim m [
          | none ↦ node f subs
          | some child ↦ node f (put p (update_at ps g child) subs)
        ])
          ≡ (if path_eq (p ∷ ps) (q ∷ qs)
              then map_fields g (fields_at (q ∷ qs) (node f subs))
              else fields_at (q ∷ qs) (node f subs))
    step none e ih = ground (arith, bytes_eq→eq p q)
    step (some child) e ih =
        ground (arith, bytes_eq→eq p q, find-put p q (update_at ps g child) subs, ih child)

pub find-remove_entry :
    (p q : Part) (subs : Subtopics)
    → find q (remove_entry p subs) ≡ (if bytes_eq p q then none else find q subs)
unfolding find remove_entry
find-remove_entry p q empty = ground arith
find-remove_entry p q (entry k m rest) = ground (
  arith,
  bytes_eq→eq k p,
  bytes_eq→eq k q,
  bytes_eq→eq p q,
  bytes_eq_refl k,
  bytes_eq_refl p,
  bytes_eq_refl q,
  find-remove_entry p q rest,
)

pub path_eq→eq : (ps qs : List Part) → path_eq ps qs ≡ true → ps ≡ qs
unfolding path_eq
path_eq→eq [] [] h = refl
path_eq→eq [] (q ∷ qs) h = cc
path_eq→eq (p ∷ ps) [] h = cc
path_eq→eq (p ∷ ps) (q ∷ qs) h = ground (arith, bytes_eq→eq p q, path_eq→eq ps qs)

pub path_eq_refl : (ps : List Part) → path_eq ps ps ≡ true
unfolding path_eq
path_eq_refl [] = refl
path_eq_refl (p ∷ ps) = ground (arith, bytes_eq_refl p, path_eq_refl ps)

-- Where there are fields there is a node.
pub node_at-fields_at :
    (ps : List Part) (n : Node) (f : NodeFields)
    → fields_at ps n ≡ some f
    → (m : Node) × (node_at ps n ≡ some m) × (fields m ≡ f)
unfolding fields_at node_at
node_at-fields_at [] (node g subs) f e = (node g subs, refl, ground arith)
node_at-fields_at (p ∷ ps) (node g subs) f e =
    step (find p subs) (λ n h. node_at-fields_at ps n f h) e
  where
    step :
        (r : Option Node)
        → ((n : Node)
            → fields_at ps n ≡ some f
            → (m : Node) × (node_at ps n ≡ some m) × (fields m ≡ f))
        → (elim r [ none ↦ none | some child ↦ fields_at ps child ]) ≡ some f
        → (m : Node) × ((elim r [ none ↦ none | some child ↦ node_at ps child ]) ≡ some m)
          × (fields m ≡ f)
    step none ih h = absurd (cc h)
    step (some child) ih h = ih child h
