-- ===== src/Bytes.antt =====
-- The byte buffers and byte cursors of aws-c-common as the code uses them, and the errors that it
-- raises. aws-c-common is not part of the repository: its functions are the fields of `ByteOps`,
-- and `IsByteOps` states what their documentation promises.
pub mod Simple
pub mod Encoder
pub mod Decoder
use aws_c_mqtt.Base.{
  ℕ, suc, ◌+◌, ◌*◌, ◌/◌, ◌%◌, ◌^◌, ◌≤◌, ◌<◌, ◌≡◌, ◌≢◌, ◌∙◌, refl, List, [], ◌∷◌, ◌++◌, Option, none,
  some, length, take, drop, leb, if◌then◌else◌, Bool, true, false,
}

-- AWS_ERROR_SHORT_BUFFER of aws-c-common, AWS_OP_ERR with an error that another library raised,
-- and `enum aws_mqtt_error`. `out_of_fuel` is no error of the code: a loop of the model ended early.
-- `null_dereference` and `use_after_free` are no errors of the code either: it reads through a null
-- pointer, or what was released.
pub data Error : Type 0 where
  out_of_fuel : Error
  null_dereference : Error
  use_after_free : Error
  short_buffer : Error
  raised_elsewhere : Error
  invalid_reserved_bits : Error
  buffer_too_big : Error
  invalid_remaining_length : Error
  unsupported_protocol_name : Error
  unsupported_protocol_level : Error
  invalid_credentials : Error
  invalid_qos : Error
  invalid_packet_type : Error
  invalid_topic : Error
  timeout : Error
  protocol_error : Error
  not_connected : Error
  already_connected : Error

-- `struct aws_byte_buf`: the bytes written, and the room in all.
pub record ByteBuf : Type 0 where
  pub buffer : List ℕ
  pub capacity : ℕ

-- `struct aws_byte_cursor`: the bytes that it spans.
abbrev pub Cursor : Type 0
Cursor = List ℕ

abbrev pub IsByte : ℕ → Type 0
IsByte b = b < 256

abbrev pub append : ByteBuf → List ℕ → ByteBuf
append b bs = record b { buffer = b.buffer ++ bs }

-- The big-endian bytes of a `uint16_t`.
abbrev pub be16 : ℕ → List ℕ
be16 n = (n / 256) ∷ (n % 256) ∷ []

-- `none` is the answer `false`, which leaves the buffer or cursor as it was.
pub record ByteOps : Type 0 where
  pub write_u8 : ByteBuf → ℕ → Option ByteBuf
  pub write_be16 : ByteBuf → ℕ → Option ByteBuf
  pub write : ByteBuf → List ℕ → Option ByteBuf
  pub read_u8 : Cursor → Option (ℕ × Cursor)
  pub read_be16 : Cursor → Option (ℕ × Cursor)
  -- The cursor that is returned, and what `*cur` is afterwards.
  pub advance : Cursor → ℕ → Cursor × Cursor

abbrev pub write_if_room : ByteBuf → List ℕ → Option ByteBuf
write_if_room b bs =
    if leb (length b.buffer + length bs) b.capacity then some (append b bs) else none

-- What aws-c-common documents. `advance` answers an empty cursor, with no error, when the bytes
-- are not there or `len` exceeds half of `size_t`.
pub record IsByteOps (io : ByteOps) : Type 0 where
  pub write_u8_lem : (b : ByteBuf) (x : ℕ) → x < 256 → io.write_u8 b x ≡ write_if_room b (x ∷ [])
  pub write_be16_lem :
      (b : ByteBuf) (x : ℕ) → x < 65536 → io.write_be16 b x ≡ write_if_room b (be16 x)
  pub write_lem : (b : ByteBuf) (bs : List ℕ) → io.write b bs ≡ write_if_room b bs
  pub read_u8_nil : io.read_u8 [] ≡ none
  pub read_u8_cons : (x : ℕ) (cur : Cursor) → io.read_u8 (x ∷ cur) ≡ some (x, cur)
  pub read_be16_nil : io.read_be16 [] ≡ none
  pub read_be16_one : (x : ℕ) → io.read_be16 (x ∷ []) ≡ none
  pub read_be16_cons :
      (x y : ℕ) (cur : Cursor) → io.read_be16 (x ∷ y ∷ cur) ≡ some (x * 256 + y, cur)
  pub advance_lem :
      (cur : Cursor) (n : ℕ)
      → n ≤ length cur
      → n < 2 ^ 63
      → io.advance cur n ≡ (take n cur, drop n cur)
  pub advance_short : (cur : Cursor) (n : ℕ) → length cur < n → io.advance cur n ≡ ([], cur)

-- A C function that returns AWS_OP_SUCCESS or AWS_OP_ERR, over the state that it changes. On an
-- error the state is what the function left behind.
pub data Outcome {ℓ κ} (S : Type ℓ) (A : Type κ) : Type (ℓ ⊔ κ) where
  ok : A → S → Outcome S A
  err : Error → S → Outcome S A

abbrev pub Op {ℓ κ} : Type ℓ → Type κ → Type (ℓ ⊔ κ)
Op S A = S → Outcome S A

infixl 5 ◌>>=◌ ◌>>◌
abbrev pub ◌>>=◌ {ℓ κ μ} : {S : Type ℓ} {A : Type κ} {B : Type μ} → Op S A → (A → Op S B) → Op S B
◌>>=◌ m f s = elim (m s) [ ok a s' ↦ f a s' | err e s' ↦ err e s' ]

abbrev pub ◌>>◌ {ℓ μ} : {S : Type ℓ} {B : Type μ} → Op S (Unit {0}) → Op S B → Op S B
m >> k = m >>= λ _. k

abbrev pub return {ℓ κ} : {S : Type ℓ} {A : Type κ} → A → Op S A
return a s = ok a s

abbrev pub raise {ℓ κ} : {S : Type ℓ} {A : Type κ} → Error → Op S A
raise e s = err e s

-- `if (test) { return aws_raise_error(e); }`
abbrev pub raise_if {ℓ} : {S : Type ℓ} → Bool → Error → Op S (Unit {0})
raise_if true e s = err e s
raise_if false e s = ok tt s

abbrev pub Encoder : Type 0
Encoder = Op ByteBuf (Unit {0})

-- The two ways a chain goes on.
module _ {ℓ κ μ} {S : Type ℓ} {A : Type κ} {B : Type μ} (m : Op S A) (f : A → Op S B) where
  pub >>=-ok : {s s' : S} {a : A} → m s ≡ ok a s' → (m >>= f) s ≡ f a s'
  >>=-ok e = rw (e, ◌>>=◌)

  pub >>=-err : {s s' : S} {x : Error} → m s ≡ err x s' → (m >>= f) s ≡ err x s'
  >>=-err e = rw (e, ◌>>=◌)

  -- Inversion of a chain that succeeded.
  pub >>=-eq-ok :
      (s : S) {b : B} {t : S}
      → (m >>= f) s ≡ ok b t
      → (a : A) × (s' : S) × (m s ≡ ok a s') × (f a s' ≡ ok b t)
  >>=-eq-ok s {b} {t} h = go (m s) refl h
    where
      go :
          (r : Outcome S A)
          → m s ≡ r
          → (elim r [ ok a s' ↦ f a s' | err e s' ↦ err e s' ]) ≡ ok b t
          → (a : A) × (s' : S) × (m s ≡ ok a s') × (f a s' ≡ ok b t)
      go (ok a s') e k = (a, s', e, k)
      go (err x s') e k = cc

  -- A chain meets an error only where one of its parts does.
  pub >>=-ne-err :
      (s : S) (x : Error) {t : S}
      → m s ≢ err x t
      → ((a : A) (s' : S) → m s ≡ ok a s' → f a s' ≢ err x t)
      → (m >>= f) s ≢ err x t
  >>=-ne-err s x {t} hm hf e = go (m s) refl e
    where
      go :
          (r : Outcome S A)
          → m s ≡ r
          → (elim r [ ok a s' ↦ f a s' | err e s' ↦ err e s' ]) ≡ err x t
          → ⊥
      go (ok a s') h k = hf a s' h k
      go (err y s') h k = hm (h ∙ cc)

-- No loop of `m` ran out of fuel.
abbrev pub IsTotal {ℓ κ} : {S : Type ℓ} {A : Type κ} → Op S A → Type (ℓ ⊔ κ)
IsTotal {S} m = (s t : S) → m s ≢ err out_of_fuel t

pub IsTotal->>= {ℓ κ μ} :
    {S : Type ℓ} {A : Type κ} {B : Type μ} (m : Op S A) (f : A → Op S B)
    → IsTotal m
    → ((a : A) → IsTotal (f a))
    → IsTotal (m >>= f)
IsTotal->>= m f hm hf s t = >>=-ne-err m f s out_of_fuel (hm s t) (λ a s' _. hf a s' t)

pub IsTotal-if {ℓ κ} :
    {S : Type ℓ} {A : Type κ} (c : Bool) (m k : Op S A)
    → IsTotal m
    → IsTotal k
    → IsTotal (if c then m else k)
IsTotal-if true m k hm hk = hm
IsTotal-if false m k hm hk = hk

pub IsTotal-return {ℓ κ} : {S : Type ℓ} {A : Type κ} (a : A) → IsTotal (return {S = S} a)
IsTotal-return a s t e = cc

pub IsTotal-raise {ℓ κ} :
    {S : Type ℓ} {A : Type κ} (x : Error) → x ≢ out_of_fuel → IsTotal (raise {S = S} {A = A} x)
IsTotal-raise x h s t e = h cc
