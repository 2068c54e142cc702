-- ===== src/Requests/Ids.antt =====
-- The message ids that `mqtt_create_request` (source/client_channel_handler.c) chooses.
use aws_c_mqtt.Base.{
  ℕ, zero, suc, ◌+◌, ◌%◌, ◌^◌, ◌≤◌, ◌<◌, length, ◌≡◌, ◌≢◌, refl, ap, ◌∙◌, List, [], ◌∷◌, Option,
  none, some, arith, ◌⊎◌, inl, inr,
}
use aws_c_mqtt.Client.{Request, find_request}
use aws_c_mqtt.Requests.{remove_request, free_id}

length-remove_request :
    (id : ℕ) (rs : List Request)
    → find_request id rs ≢ none
    → suc (length (remove_request id rs)) ≡ length rs
unfolding find_request remove_request
length-remove_request id [] h = absurd (h refl)
length-remove_request id (r ∷ rs) h = ground (arith, length-remove_request id rs)

find_request-remove_request :
    (id other : ℕ) (rs : List Request)
    → id ≢ other
    → find_request other rs ≢ none
    → find_request other (remove_request id rs) ≢ none
unfolding find_request remove_request
find_request-remove_request id other [] n h = h
find_request-remove_request id other (r ∷ rs) n h =
    ground (arith, find_request-remove_request id other rs n)

-- As many ids in a row as are taken, so many requests are there.
taken_length :
    (n start : ℕ) (rs : List Request)
    → ((i : ℕ) → start < i → i ≤ start + n → find_request i rs ≢ none)
    → n ≤ length rs
taken_length zero start rs taken = omega arith
taken_length (suc n) start rs taken =
    let last = start + suc n in
    let there = taken last (omega arith) (omega arith) in
    omega (
      arith,
      length-remove_request last rs there,
      taken_length n start (remove_request last rs)
          (λ i a b. find_request-remove_request last i rs (omega arith) (taken i a (omega arith))),
    )

-- One round of the loop.
free_id_here :
    (fuel start : ℕ) (rs : List Request)
    → start + 1 < 2 ^ 16
    → find_request (start + 1) rs ≡ none
    → free_id (suc fuel) start rs ≡ some (start + 1)
unfolding free_id
free_id_here fuel start rs lt e =
    let next : (start + 1) % 2 ^ 16 ≡ start + 1 = omega arith in
    ground (arith, ap (λ i. find_request i rs) next)

free_id_next :
    (fuel start : ℕ) (rs : List Request) (r : Request)
    → start + 1 < 2 ^ 16
    → find_request (start + 1) rs ≡ some r
    → free_id (suc fuel) start rs ≡ free_id fuel (start + 1) rs
unfolding free_id
free_id_next fuel start rs r lt e =
    let next : (start + 1) % 2 ^ 16 ≡ start + 1 = omega arith in
    ground (arith, ap (λ i. find_request i rs) next, ap (λ i. free_id fuel i rs) next)

-- An id that the loop finds among the next `n`.
record Found (fuel start n : ℕ) (rs : List Request) : Type 0 where
  id : ℕ
  found : free_id fuel start rs ≡ some id
  above : start < id
  below : id ≤ start + n
  free : find_request id rs ≡ none

search_ids :
    (n fuel start : ℕ) (rs : List Request)
    → n ≤ fuel
    → start + n < 2 ^ 16
    → (Found fuel start n rs) ⊎ ((i : ℕ) → start < i → i ≤ start + n → find_request i rs ≢ none)
search_ids zero fuel start rs le lt = inr (λ i a b. absurd (omega arith))
search_ids (suc n) zero start rs le lt = absurd (omega arith)
search_ids (suc n) (suc fuel) start rs le lt =
    step (find_request (start + 1) rs) refl
      (search_ids n fuel (start + 1) rs (omega arith) (omega arith))
  where
    step :
        (m : Option Request)
        → find_request (start + 1) rs ≡ m
        → (Found fuel (start + 1) n rs)
          ⊎ ((i : ℕ) → start + 1 < i → i ≤ start + 1 + n → find_request i rs ≢ none)
        → (Found (suc fuel) start (suc n) rs)
          ⊎ ((i : ℕ) → start < i → i ≤ start + suc n → find_request i rs ≢ none)
    step none e ih = inl (record {
      id = start + 1;
      found = free_id_here fuel start rs (omega arith) e;
      above = omega arith;
      below = omega arith;
      free = e;
    })
    step (some r) e (inl f) = inl (record {
      id = f.id;
      found = free_id_next fuel start rs r (omega arith) e ∙ f.found;
      above = omega (arith, f.above);
      below = omega (arith, f.below);
      free = f.free;
    })
    step (some r) e (inr taken) = inr (λ i a b none_there. ground (arith, taken i))

-- With fewer than 65535 requests outstanding, the loop that looks for a message id ends, and finds
-- one that is not 0, fits 16 bits and has no request.
pub free_id_lem :
    (rs : List Request)
    → length rs < 65535
    → (id : ℕ) × (free_id (2 ^ 16) 0 rs ≡ some id)
      × (0 < id)
      × (id < 2 ^ 16)
      × (find_request id rs ≡ none)
free_id_lem rs few = elim (search_ids 65535 (2 ^ 16) 0 rs (omega arith) (omega arith)) [
  | inl f ↦ (f.id, f.found, f.above, omega (arith, f.below), f.free)
  | inr taken ↦ absurd (omega (arith, taken_length 65535 0 rs taken))
]
