-- ===== src/Packets/Filters/Laws.antt =====
-- What the two loops do: the writing loop, and the reading loop on any bytes.
use aws_c_mqtt.Base.{
  ℕ, zero, suc, ◌+◌, ◌-◌, ◌%◌, ◌^◌, ◌≤◌, ◌<◌, ◌≡◌, ◌≢◌, refl, sym, ap, ◌∙◌, inl, inr, List, [], ◌∷◌,
  ◌++◌, length, length-append, append_assoc, append-nil, arith, ℕ_discrete, All, ◌⊎◌,
}
use aws_c_mqtt.Bytes.{
  ByteBuf, Encoder, Cursor, Outcome, Error, ok, err, ◌>>◌, append, >>=-ok, out_of_fuel,
}
use aws_c_mqtt.Bytes.Encoder.{Writes, append_twice, append-nil_lem}
use aws_c_mqtt.Bytes.Decoder.{Decoder, Reads}
use aws_c_mqtt.FixedHeader.{FixedHeader}
use aws_c_mqtt.Packets.Filters.{
  ArrayOps, ignoring, growing, encode_each, decode_each, push_or_keep, decode_filters,
}

-- The first half of `Writes`: what a call does where there is room.
abbrev pub Emits : Encoder → List ℕ → Type 0
Emits m bs = (b : ByteBuf) → length b.buffer + length bs ≤ b.capacity → m b ≡ ok tt (append b bs)

pub Writes→Emits : (m : Encoder) (bs : List ℕ) → Writes m bs → Emits m bs
Writes→Emits m bs w b h = (w b (omega arith)).0 h

pub Emits->> :
    (m k : Encoder) (bs cs : List ℕ) → Emits m bs → Emits k cs → Emits (m >> k) (bs ++ cs)
Emits->> m k bs cs em ek b h =
    >>=-ok m (λ _. k) (em b (omega (arith, length-append bs cs)))
    ∙ ek (append b bs) (omega (arith, length-append bs cs, length-append b.buffer bs))
    ∙ ap (ok tt) (append_twice b bs cs)

pub Emits-ignoring : (m : Encoder) (bs : List ℕ) → Emits m bs → Emits (ignoring m) bs
Emits-ignoring m bs e b h = rw (e b h, ignoring)

abbrev pub wire_all : {A : Type 0} → (A → List ℕ) → List A → List ℕ
wire_all wire [] = []
wire_all wire (x ∷ xs) = wire x ++ wire_all wire xs

pub length-wire_all_snoc :
    {A : Type 0} (wire : A → List ℕ) (xs : List A) (x : A)
    → length (wire_all wire (xs ++ (x ∷ []))) ≡ length (wire_all wire xs) + length (wire x)
length-wire_all_snoc wire [] x = omega (arith, length-append (wire x) [])
length-wire_all_snoc wire (y ∷ xs) x = omega (
  arith,
  length-wire_all_snoc wire xs x,
  length-append (wire y) (wire_all wire (xs ++ (x ∷ []))),
  length-append (wire y) (wire_all wire xs),
)

module _ {A : Type 0} (f : A → Encoder) (wire : A → List ℕ) where
  pub encode_each-Emits :
      (xs : List A)
      → All (λ x. Emits (f x) (wire x)) xs
      → Emits (encode_each f xs) (wire_all wire xs)
  unfolding encode_each
  encode_each-Emits [] h b room = ap (ok tt) (sym (append-nil_lem b))
  encode_each-Emits (x ∷ xs) h b room =
      Emits->> (f x) (encode_each f xs) (wire x) (wire_all wire xs) h.0 (encode_each-Emits xs h.1) b
        room

-- What the reading loop relies on: a successful read takes `size` bytes, at least one.
pub record IsSized {A : Type 0} (read : Decoder A) (size : A → ℕ) : Type 0 where
  pub takes :
      (cur : Cursor) (a : A) (rest : Cursor)
      → read cur ≡ ok a rest
      → length cur < 2 ^ 63
      → (length cur ≡ length rest + size a) × (1 ≤ size a)
  pub has_fuel : (cur rest : Cursor) → read cur ≢ err out_of_fuel rest

pub Outcome-cases {ℓ κ} :
    {S : Type ℓ} {A : Type κ} (r : Outcome S A)
    → ((a : A) × (s : S) × (r ≡ ok a s)) ⊎ ((e : Error) × (s : S) × (r ≡ err e s))
Outcome-cases (ok a s) = inl (a, s, refl)
Outcome-cases (err e s) = inr (e, s, refl)

module _ {A : Type 0} (array : ArrayOps A) (read : Decoder A) (size : A → ℕ) where
  abbrev rest_of : ℕ → A → ℕ
  rest_of remaining a = (remaining + 2 ^ 64 - size a) % 2 ^ 64

  loop_stop :
      (fuel remaining : ℕ) (xs : List A) (cur : Cursor)
      → remaining ≡ 0
      → decode_each array read size fuel remaining xs cur ≡ ok xs cur
  unfolding decode_each
  loop_stop zero remaining xs cur h = ground arith
  loop_stop (suc fuel) remaining xs cur h = ground arith

  loop_err :
      (fuel remaining : ℕ) (xs : List A) (cur : Cursor) (e : Error) (t : Cursor)
      → remaining ≢ 0
      → read cur ≡ err e t
      → decode_each array read size (suc fuel) remaining xs cur ≡ err e t
  unfolding decode_each
  loop_err fuel remaining xs cur e t h r = ground arith

  loop_next :
      (fuel remaining : ℕ) (xs : List A) (cur : Cursor) (a : A) (t : Cursor)
      → remaining ≢ 0
      → read cur ≡ ok a t
      → decode_each array read size (suc fuel) remaining xs cur
        ≡ decode_each array read size fuel (rest_of remaining a) (push_or_keep array xs a) t
  unfolding decode_each
  loop_next fuel remaining xs cur a t h r = ground arith

module _ {A : Type 0} (array : ArrayOps A) (read : Decoder A) (size : A → ℕ)
    (sized : IsSized read size) where
  -- The loop ends: every round takes a byte at least, so more rounds than bytes are enough.
  pub decode_each-ne-out_of_fuel :
      (fuel remaining : ℕ) (xs : List A) (cur t : Cursor)
      → length cur < fuel
      → length cur < 2 ^ 63
      → decode_each array read size fuel remaining xs cur ≢ err out_of_fuel t
  decode_each-ne-out_of_fuel zero remaining xs cur t h hl = absurd (omega arith)
  decode_each-ne-out_of_fuel (suc fuel) remaining xs cur t h hl = elim (ℕ_discrete remaining 0) [
    | yes stop ↦ λ e. cc (loop_stop array read size (suc fuel) remaining xs cur stop)
    | no go ↦ elim (Outcome-cases (read cur)) [
      | inl (a, s, r) ↦ rw (loop_next array read size fuel remaining xs cur a s go r) (
          decode_each-ne-out_of_fuel fuel _ _ s t (omega (arith, sized.takes cur a s r hl))
            (omega (arith, sized.takes cur a s r hl)))
      | inr (x, s, r) ↦ λ e.
          sized.has_fuel cur s (cc (r, loop_err array read size fuel remaining xs cur x s go r, e))
    ]
  ]

  -- On success the loop has taken exactly the bytes that were announced.
  pub decode_each_takes :
      (fuel remaining : ℕ) (xs ys : List A) (cur t : Cursor)
      → remaining < 2 ^ 64
      → length cur < 2 ^ 63
      → decode_each array read size fuel remaining xs cur ≡ ok ys t
      → length cur ≡ length t + remaining
  decode_each_takes zero remaining xs ys cur t hr hl e = unfold decode_each in ground arith
  decode_each_takes (suc fuel) remaining xs ys cur t hr hl e = elim (ℕ_discrete remaining 0) [
    | yes stop ↦ ground (arith, loop_stop array read size (suc fuel) remaining xs cur stop)
    | no go ↦ elim (Outcome-cases (read cur)) [
      | inl (a, s, r) ↦ omega (
        arith,
        sized.takes cur a s r hl,
        decode_each_takes fuel (rest_of array read size remaining a) (push_or_keep array xs a) ys s
            t (omega arith) (omega (arith, sized.takes cur a s r hl))
            (sym (loop_next array read size fuel remaining xs cur a s go r) ∙ e),
      )
      | inr (x, s, r) ↦ cc (loop_err array read size fuel remaining xs cur x s go r)
    ]
  ]

  pub decode_filters-ne-out_of_fuel :
      (h : FixedHeader) (xs : List A) (cur t : Cursor)
      → length cur < 2 ^ 63
      → decode_filters array read size h xs cur ≢ err out_of_fuel t
  unfolding decode_filters
  decode_filters-ne-out_of_fuel h xs cur t hl =
      decode_each-ne-out_of_fuel (suc (length cur)) _ xs cur t (omega arith) hl

  pub decode_filters_takes :
      (h : FixedHeader) (xs ys : List A) (cur t : Cursor)
      → length cur < 2 ^ 63
      → decode_filters array read size h xs cur ≡ ok ys t
      → length cur ≡ length t + (h.remaining_length + 2 ^ 64 - 2) % 2 ^ 64
  unfolding decode_filters
  decode_filters_takes h xs ys cur t hl e =
      decode_each_takes (suc (length cur)) _ xs ys cur t (omega arith) hl e

ok_eq :
    {A : Type 0} {xs ys : List A} (rest : Cursor)
    → xs ≡ ys
    → ◌≡◌ {A = Outcome Cursor (List A)} (ok xs rest) (ok ys rest)
ok_eq rest e = cc

module _ {A : Type 0} (read : Decoder A) (size : A → ℕ) (wire : A → List ℕ) where
  -- The reading loop takes what the writing loop put, and appends it to the list.
  pub decode_each-Reads :
      (xs ys : List A) (fuel remaining : ℕ)
      → All (λ x. Reads read (wire x) x × (size x ≡ length (wire x)) × (1 ≤ size x)) xs
      → length xs < fuel
      → remaining ≡ length (wire_all wire xs)
      → remaining < 2 ^ 63
      → Reads (decode_each growing read size fuel remaining ys) (wire_all wire xs) (ys ++ xs)
  unfolding push_or_keep
  decode_each-Reads [] ys fuel remaining h hf e hl rest =
      loop_stop growing read size fuel remaining ys rest e ∙ ok_eq rest (sym (append-nil ys))
  decode_each-Reads (x ∷ xs) ys zero remaining h hf e hl rest = absurd (omega arith)
  decode_each-Reads (x ∷ xs) ys (suc fuel) remaining h hf e hl rest =
      let ((r, sz, pos), hs) = h in
      let total = e ∙ length-append (wire x) (wire_all wire xs) in
      rw (append_assoc (wire x) (wire_all wire xs) rest) (
        loop_next growing read size fuel remaining ys (wire x ++ (wire_all wire xs ++ rest)) x
          (wire_all wire xs ++ rest) (omega (arith, total)) (r (wire_all wire xs ++ rest))
        ∙ decode_each-Reads xs (ys ++ (x ∷ [])) fuel ((remaining + 2 ^ 64 - size x) % 2 ^ 64) hs
            (omega arith) (omega (arith, total)) (omega (arith, total)) rest
        ∙ ok_eq rest (append_assoc ys (x ∷ []) xs))

  length-wire_all :
      (xs : List A)
      → All (λ x. Reads read (wire x) x × (size x ≡ length (wire x)) × (1 ≤ size x)) xs
      → length xs ≤ length (wire_all wire xs)
  length-wire_all [] h = omega arith
  length-wire_all (x ∷ xs) h =
      omega (arith, length-append (wire x) (wire_all wire xs), length-wire_all xs h.1, h.0.1)

  pub decode_filters-Reads :
      (xs ys : List A) (h : FixedHeader)
      → All (λ x. Reads read (wire x) x × (size x ≡ length (wire x)) × (1 ≤ size x)) xs
      → h.remaining_length ≡ 2 + length (wire_all wire xs)
      → h.remaining_length < 2 ^ 63
      → Reads (decode_filters growing read size h ys) (wire_all wire xs) (ys ++ xs)
  unfolding decode_filters
  decode_filters-Reads xs ys h a e hl rest =
      decode_each-Reads xs ys (suc (length (wire_all wire xs ++ rest))) _ a
        (omega (arith, length-append (wire_all wire xs) rest, length-wire_all xs a)) (omega arith)
        (omega arith) rest
