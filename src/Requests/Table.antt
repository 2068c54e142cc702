-- ===== src/Requests/Table.antt =====
-- The table of outstanding requests (source/client_channel_handler.c): what is found after each
-- change, and that no two requests have the same message id.
use aws_c_mqtt.Base.{
  ℕ, zero, suc, ◌+◌, ◌%◌, ◌^◌, ◌≡◌, ◌≢◌, refl, ap, ◌∙◌, Bool, true, false, List, [], ◌∷◌, Option,
  none, some, if◌then◌else◌, ◌==◌, arith,
}
use aws_c_mqtt.Client.{Request, find_request}
use aws_c_mqtt.Requests.{update_request, remove_request, free_id}

abbrev pub map_request : (Request → Request) → Option Request → Option Request
map_request g none = none
map_request g (some r) = some (g r)

-- The message ids are distinct.
pub data IsDistinct : List Request → Type 0 where
  distinct_none : IsDistinct []
  distinct_more :
      (r : Request) (rs : List Request)
      → find_request r.message_id rs ≡ none
      → IsDistinct rs
      → IsDistinct (r ∷ rs)

pub find_request-message_id :
    (id : ℕ) (rs : List Request) (r : Request) → find_request id rs ≡ some r → r.message_id ≡ id
unfolding find_request
find_request-message_id id [] r h = absurd (cc h)
find_request-message_id id (x ∷ rs) r h = ground (arith, find_request-message_id id rs r)

pub find_request-update_request :
    (id other : ℕ) (g : Request → Request) (rs : List Request)
    → ((r : Request) → (g r).message_id ≡ r.message_id)
    → find_request other (update_request id g rs)
      ≡ (if id == other then map_request g (find_request other rs) else find_request other rs)
unfolding find_request update_request
find_request-update_request id other g [] same = ground arith
find_request-update_request id other g (r ∷ rs) same =
    ground (arith, same r, find_request-update_request id other g rs same)

pub find_request-remove_other :
    (id other : ℕ) (rs : List Request)
    → id ≢ other
    → find_request other (remove_request id rs) ≡ find_request other rs
unfolding find_request remove_request
find_request-remove_other id other [] n = refl
find_request-remove_other id other (r ∷ rs) n =
    ground (arith, find_request-remove_other id other rs n)

pub find_request-remove_same :
    (id : ℕ) (rs : List Request) → IsDistinct rs → find_request id (remove_request id rs) ≡ none
unfolding find_request remove_request
find_request-remove_same id _ distinct_none = refl
find_request-remove_same id _ (distinct_more r rs n d) =
    ground (arith, n, find_request-remove_same id rs d)

pub update_request-IsDistinct :
    (id : ℕ) (g : Request → Request) (rs : List Request)
    → ((r : Request) → (g r).message_id ≡ r.message_id)
    → IsDistinct rs
    → IsDistinct (update_request id g rs)
unfolding update_request
update_request-IsDistinct id g _ same distinct_none = distinct_none
update_request-IsDistinct id g _ same (distinct_more r rs n d) =
    step (r.message_id == id) (update_request-IsDistinct id g rs same d)
  where
    still : find_request r.message_id (update_request id g rs) ≡ none
    still = ground (arith, n, find_request-update_request id r.message_id g rs same)

    step :
        (b : Bool)
        → IsDistinct (update_request id g rs)
        → IsDistinct (if b then g r ∷ rs else r ∷ update_request id g rs)
    step true ih = distinct_more (g r) rs (ap (λ i. find_request i rs) (same r) ∙ n) d
    step false ih = distinct_more r _ still ih

pub remove_request-IsDistinct :
    (id : ℕ) (rs : List Request) → IsDistinct rs → IsDistinct (remove_request id rs)
unfolding remove_request
remove_request-IsDistinct id _ distinct_none = distinct_none
remove_request-IsDistinct id _ (distinct_more r rs n d) =
    step (r.message_id == id) refl (remove_request-IsDistinct id rs d)
  where
    step :
        (b : Bool)
        → (r.message_id == id) ≡ b
        → IsDistinct (remove_request id rs)
        → IsDistinct (if b then rs else r ∷ remove_request id rs)
    step true e ih = d
    step false e ih =
        distinct_more r _ (find_request-remove_other id r.message_id rs (λ q. ground arith) ∙ n) ih

-- An id that the loop finds has no request.
pub find_request-free_id :
    (fuel start : ℕ) (rs : List Request) (id : ℕ)
    → free_id fuel start rs ≡ some id
    → find_request id rs ≡ none
unfolding free_id
find_request-free_id zero start rs id h = absurd (cc h)
find_request-free_id (suc fuel) start rs id h =
    step (find_request ((start + 1) % 2 ^ 16) rs) refl
      (find_request-free_id fuel ((start + 1) % 2 ^ 16) rs id) h
  where
    step :
        (m : Option Request)
        → find_request ((start + 1) % 2 ^ 16) rs ≡ m
        → (free_id fuel ((start + 1) % 2 ^ 16) rs ≡ some id → find_request id rs ≡ none)
        → (elim m [
          | none ↦ some ((start + 1) % 2 ^ 16)
          | some r ↦ free_id fuel ((start + 1) % 2 ^ 16) rs
        ])
          ≡ some id
        → find_request id rs ≡ none
    step none e ih k = ground arith
    step (some r) e ih k = ih k
