-- ===== src/Packets/Filters.antt =====
-- The loops over the topic filters of a SUBSCRIBE and an UNSUBSCRIBE, and the array list that holds
-- the filters.
pub mod Laws
use aws_c_mqtt.Base.{
  ℕ, zero, suc, length, ◌+◌, ◌-◌, ◌%◌, ◌^◌, ◌≡◌, ◌⊎◌, Bool, List, [], ◌∷◌, ◌++◌, Option, none, some,
  ◌==◌, if◌then◌else◌,
}
use aws_c_mqtt.Bytes.{
  Encoder, Op, ok, err, ◌>>=◌, ◌>>◌, return, raise, out_of_fuel, raised_elsewhere,
}
use aws_c_mqtt.Bytes.Decoder.{Decoder}
use aws_c_mqtt.FixedHeader.{FixedHeader}

-- `aws_array_list_push_back` of aws-c-common: `none` where it cannot grow the list.
pub record ArrayOps (A : Type 0) : Type 0 where
  pub push_back : List A → A → Option (List A)

-- It appends the item, or fails.
pub record IsArrayOps {A : Type 0} (array : ArrayOps A) : Type 0 where
  pub push_back_lem :
      (xs : List A) (x : A)
      → (array.push_back xs x ≡ none) ⊎ (array.push_back xs x ≡ some (xs ++ (x ∷ [])))

-- A list that can always grow.
abbrev pub growing : {A : Type 0} → ArrayOps A
growing = record { push_back = λ xs x. some (xs ++ (x ∷ [])) }

-- A call whose result is dropped.
abbrev pub ignoring {ℓ} : {S : Type ℓ} → Op S (Unit {0}) → Op S (Unit {0})
ignoring m s = elim (m s) [ ok _ t ↦ ok tt t | err _ t ↦ ok tt t ]

module _ {A : Type 0} where
  -- `for (size_t i = 0; i < num_filters; ++i) { ... }`
  unfoldable pub encode_each : (A → Encoder) → List A → Encoder
  encode_each f [] = return tt
  encode_each f (x ∷ xs) = f x >> encode_each f xs

  -- `aws_array_list_push_back(...)` with its result dropped.
  unfoldable pub push_or_keep : ArrayOps A → List A → A → List A
  push_or_keep array xs x = elim (array.push_back xs x) [ none ↦ xs | some ys ↦ ys ]

  -- `while (remaining_length) { read; push_back; remaining_length -= size; }`, where the remaining
  -- length is a `size_t`.
  unfoldable pub decode_each : ArrayOps A → Decoder A → (A → ℕ) → ℕ → ℕ → List A → Decoder (List A)
  decode_each array read size zero remaining xs =
      if remaining == 0 then return xs else raise out_of_fuel
  decode_each array read size (suc fuel) remaining xs =
      if remaining == 0
      then return xs
      else (read >>= λ x.
          decode_each array read size fuel ((remaining + 2 ^ 64 - size x) % 2 ^ 64)
            (push_or_keep array xs x))

  -- The rest of a packet behind its identifier. A round takes a byte at least or fails, so there
  -- is fuel for one round more than there are bytes.
  unfoldable pub decode_filters :
      ArrayOps A → Decoder A → (A → ℕ) → FixedHeader → List A → Decoder (List A)
  decode_filters array read size header xs cur =
      decode_each array read size (suc (length cur))
        ((header.remaining_length + 2 ^ 64 - 2) % 2 ^ 64) xs cur
