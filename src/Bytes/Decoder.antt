-- ===== src/Bytes/Decoder.antt =====
-- The read calls as the decoders make them, and what a chain of them reads.
use aws_c_mqtt.Base.{
  ℕ, ◌+◌, ◌*◌, ◌/◌, ◌%◌, ◌^◌, ◌≤◌, ◌<◌, ◌≡◌, refl, sym, ◌∙◌, List, [], ◌∷◌, ◌++◌, none, some,
  length, append_assoc, arith, Bool, true, false, if◌then◌else◌, take, drop, length-append,
  take-append-drop, take-append_length, drop-append_length, inl, inr, leb_cases,
}
use aws_c_mqtt.Bytes.{
  ByteOps, IsByteOps, IsTotal, Cursor, Outcome, Op, ok, err, Error, raise_if, short_buffer, be16,
  ◌>>=◌, ◌>>◌, return, >>=-ok,
}

abbrev pub Decoder : Type 0 → Type 0
Decoder A = Op Cursor A

module _ (io : ByteOps) where
  -- `if (!aws_byte_cursor_read_u8(cur, &x)) { return aws_raise_error(AWS_ERROR_SHORT_BUFFER); }`
  unfoldable pub get_u8 : Decoder ℕ
  get_u8 cur = elim (io.read_u8 cur) [ none ↦ err short_buffer cur | some (x, rest) ↦ ok x rest ]

  unfoldable pub get_be16 : Decoder ℕ
  get_be16 cur = elim (io.read_be16 cur) [
    | none ↦ err short_buffer cur
    | some (x, rest) ↦ ok x rest
  ]

  -- `aws_byte_cursor_advance(cur, len)`, which raises no error.
  unfoldable pub get_slice : ℕ → Decoder (List ℕ)
  get_slice len cur = let (slice, rest) = io.advance cur len in ok slice rest

pub get_be16-IsTotal : (io : ByteOps) → IsTotal (get_be16 io)
unfolding get_be16
get_be16-IsTotal io s t e = ground arith

-- `m` takes exactly `bs` off the front of the cursor, and answers `a`.
abbrev pub Reads : {A : Type 0} → Decoder A → List ℕ → A → Type 0
Reads m bs a = (rest : List ℕ) → m (bs ++ rest) ≡ ok a rest

pub Reads->>= :
    {A B : Type 0} (m : Decoder A) (f : A → Decoder B) (bs cs : List ℕ) (a : A) (b : B)
    → Reads m bs a
    → Reads (f a) cs b
    → Reads (m >>= f) (bs ++ cs) b
Reads->>= m f bs cs a b rm rf rest =
    rw (append_assoc bs cs rest) (>>=-ok m f (rm (cs ++ rest)) ∙ rf rest)

pub Reads-return : {A : Type 0} (a : A) → Reads (return a) [] a
Reads-return a rest = refl

-- The last read of a chain, and a check that passes.
pub Reads-map :
    {A B : Type 0} (m : Decoder A) (f : A → B) (bs : List ℕ) (a : A)
    → Reads m bs a
    → Reads (m >>= λ x. return (f x)) bs (f a)
Reads-map m f bs a rm rest = >>=-ok m (λ x. return (f x)) (rm rest)

pub Reads-last :
    {A B : Type 0} (m : Decoder A) (f : A → Decoder B) (bs : List ℕ) (a : A) (b : B)
    → Reads m bs a
    → Reads (f a) [] b
    → Reads (m >>= f) bs b
Reads-last m f bs a b rm rf rest = >>=-ok m f (rm rest) ∙ rf rest

-- `if (c) { x = m; }`, where `old` is what `x` was.
unfoldable pub get_if : {A : Type 0} → Bool → Decoder A → A → Decoder A
get_if c m old = if c then m else return old

pub get_if-Reads :
    {A : Type 0} (c : Bool) (m : Decoder A) (old : A) (bs : List ℕ) (a : A)
    → Reads m bs a
    → Reads (get_if c m old) (if c then bs else []) (if c then a else old)
unfolding get_if
get_if-Reads true m old bs a r = r
get_if-Reads false m old bs a r = Reads-return old

pub raise_if-Reads : (c : Bool) (e : Error) → c ≡ false → Reads (raise_if c e) [] tt
raise_if-Reads true e h = cc
raise_if-Reads false e h = Reads-return tt

-- A check that passes, and the end of the decoder.
pub checked-Reads :
    {A : Type 0} (c : Bool) (e : Error) (a : A) → c ≡ false → Reads (raise_if c e >> return a) [] a
checked-Reads true e a h = cc
checked-Reads false e a h = Reads-return a

ok_eq : {a b : ℕ} (rest : Cursor) → a ≡ b → ◌≡◌ {A = Outcome Cursor ℕ} (ok a rest) (ok b rest)
ok_eq rest e = cc

ok_parts :
    {a b : List ℕ} {s t : Cursor}
    → ◌≡◌ {A = Outcome Cursor (List ℕ)} (ok a s) (ok b t)
    → (a ≡ b) × (s ≡ t)
ok_parts e = (cc, cc)

module _ (io : ByteOps) (law : IsByteOps io) where
  pub get_u8-cons : (x : ℕ) (cur : Cursor) → get_u8 io (x ∷ cur) ≡ ok x cur
  unfolding get_u8
  get_u8-cons x cur = rw (law.read_u8_cons x cur, get_u8)

  pub get_u8-nil : get_u8 io [] ≡ err short_buffer []
  unfolding get_u8
  get_u8-nil = rw (law.read_u8_nil, get_u8)

  pub get_u8-Reads : (x : ℕ) → Reads (get_u8 io) (x ∷ []) x
  get_u8-Reads x rest = get_u8-cons x rest

  pub get_be16-cons : (x y : ℕ) (cur : Cursor) → get_be16 io (x ∷ y ∷ cur) ≡ ok (x * 256 + y) cur
  unfolding get_be16
  get_be16-cons x y cur = rw (law.read_be16_cons x y cur, get_be16)

  pub get_be16-nil : get_be16 io [] ≡ err short_buffer []
  unfolding get_be16
  get_be16-nil = rw (law.read_be16_nil, get_be16)

  pub get_be16-one : (x : ℕ) → get_be16 io (x ∷ []) ≡ err short_buffer (x ∷ [])
  unfolding get_be16
  get_be16-one x = rw (law.read_be16_one x, get_be16)

  pub get_be16-Reads : (x : ℕ) → Reads (get_be16 io) (be16 x) x
  get_be16-Reads x rest = get_be16-cons (x / 256) (x % 256) rest ∙ ok_eq rest (omega arith)

  pub get_slice_fits :
      (n : ℕ) (cur : Cursor)
      → n ≤ length cur
      → n < 2 ^ 63
      → get_slice io n cur ≡ ok (take n cur) (drop n cur)
  unfolding get_slice
  get_slice_fits n cur h l = rw (law.advance_lem cur n h l, get_slice)

  pub get_slice_short : (n : ℕ) (cur : Cursor) → length cur < n → get_slice io n cur ≡ ok [] cur
  unfolding get_slice
  get_slice_short n cur h = rw (law.advance_short cur n h, get_slice)

  pub get_slice-Reads : (bs : List ℕ) → length bs < 2 ^ 63 → Reads (get_slice io (length bs)) bs bs
  get_slice-Reads bs h rest =
      get_slice_fits (length bs) (bs ++ rest) (omega (arith, length-append bs rest)) h
      ∙ rw (take-append_length bs rest, drop-append_length bs rest)

  -- What a successful read says of the cursor.
  pub get_u8_inv :
      (cur : Cursor) (x : ℕ) (rest : Cursor) → get_u8 io cur ≡ ok x rest → cur ≡ x ∷ rest
  get_u8_inv [] x rest e = cc get_u8-nil
  get_u8_inv (y ∷ cur) x rest e = cc (get_u8-cons y cur)

  pub get_be16_inv :
      (cur : Cursor) (n : ℕ) (rest : Cursor)
      → get_be16 io cur ≡ ok n rest
      → (x : ℕ) × (y : ℕ) × (cur ≡ x ∷ y ∷ rest) × (n ≡ x * 256 + y)
  get_be16_inv [] n rest e = cc get_be16-nil
  get_be16_inv (x ∷ []) n rest e = cc (get_be16-one x)
  get_be16_inv (x ∷ y ∷ cur) n rest e =
      (x, y, cc (get_be16-cons x y cur), cc (get_be16-cons x y cur))

  pub get_slice_inv :
      (n : ℕ) (cur bs rest : List ℕ)
      → get_slice io n cur ≡ ok bs rest
      → length cur < 2 ^ 63
      → cur ≡ bs ++ rest
  get_slice_inv n cur bs rest e h = elim (leb_cases n (length cur)) [
    | inl fits ↦
        let (a, b) = ok_parts (sym (get_slice_fits n cur fits (omega arith)) ∙ e) in
        rw (← a, ← b) (sym (take-append-drop n cur))
    | inr short ↦
        let (a, b) = ok_parts (sym (get_slice_short n cur short) ∙ e) in rw (← a, ← b) refl
  ]
