-- ===== src/Packets/Field.antt =====
-- What the packets share: length-prefixed byte strings (`s_encode_buffer`, `s_decode_buffer`), and
-- the fixed header as the first field of a packet.
use aws_c_mqtt.Base.{
  ℕ, ◌+◌, ◌*◌, ◌%◌, ◌^◌, ◌≤◌, ◌<◌, ◌≡◌, refl, ap, ◌∙◌, List, [], ◌∷◌, ◌++◌, ltb, length, arith,
  append_assoc, length-append, All,
}
use aws_c_mqtt.Bytes.{
  ByteBuf, ByteOps, IsByteOps, IsByte, IsTotal, out_of_fuel, Cursor, Op, Outcome, ok, err, Error,
  Encoder, ◌>>=◌, ◌>>◌, raise_if, buffer_too_big, be16, >>=-ok, >>=-eq-ok,
}
use aws_c_mqtt.Bytes.Encoder.{
  put_be16, put_bytes, Writes, Writes->>, put_be16-Writes, put_bytes-Writes,
}
use aws_c_mqtt.Bytes.Decoder.{
  Decoder, Reads, Reads->>=, get_be16, get_slice, get_be16-Reads, get_slice-Reads, get_be16-cons,
  get_slice_short, get_be16_inv, get_slice_inv,
}
use aws_c_mqtt.FixedHeader.{FixedHeader, HeaderState, fixed_header_decode}
use aws_c_mqtt.FixedHeader.Wire.{IsHeader, header_bytes, raise_if-Writes}
use aws_c_mqtt.FixedHeader.Decode.{fixed_header_decode-Accepted, fixed_header_decode-IsTotal}
use aws_c_mqtt.FixedHeader.RoundTrip.{fixed_header_decode-header_bytes}

-- `sizeof(uint16_t) + buf->len`, a `size_t`.
abbrev pub sizeof_encoded_buffer : List ℕ → ℕ
sizeof_encoded_buffer buf = (2 + length buf) % 2 ^ 64

-- `remaining_length += n`
abbrev pub grow : FixedHeader → ℕ → FixedHeader
grow h n = record h { remaining_length = (h.remaining_length + n) % 2 ^ 64 }

-- `if (m) { return aws_raise_error(e); }`: whatever error `m` met becomes `e`.
abbrev pub raising {ℓ κ} : {S : Type ℓ} {A : Type κ} → Error → Op S A → Op S A
raising e m s = elim (m s) [ ok a t ↦ ok a t | err _ t ↦ err e t ]

module _ (io : ByteOps) where
  unfoldable pub encode_buffer : List ℕ → Encoder
  encode_buffer cur = do
    raise_if (ltb 65535 (length cur)) buffer_too_big
    put_be16 io (length cur % 65536)
    put_bytes io cur

  unfoldable pub decode_buffer : Decoder (List ℕ)
  decode_buffer = do len ← get_be16 io; get_slice io len

  -- `aws_mqtt_fixed_header_decode(cur, &packet->fixed_header)`
  unfoldable pub decode_header : FixedHeader → Decoder FixedHeader
  decode_header old cur = elim (fixed_header_decode io (record { cur = cur; header = old })) [
    | ok _ s ↦ ok s.header s.cur
    | err e s ↦ err e s.cur
  ]

-- A string behind its length.
abbrev pub buffer_bytes : List ℕ → List ℕ
buffer_bytes bs = be16 (length bs) ++ bs

abbrev pub Fits : List ℕ → Type 0
Fits bs = length bs < 65536

pub length-buffer_bytes : (bs : List ℕ) → length (buffer_bytes bs) ≡ 2 + length bs
length-buffer_bytes bs = omega arith

decode_header_ok :
    (io : ByteOps) (old h : FixedHeader) (cur rest : Cursor)
    → decode_header io old cur ≡ ok h rest
    → fixed_header_decode io (record { cur = cur; header = old })
      ≡ ok tt (record { cur = rest; header = h })
unfolding decode_header
decode_header_ok io old h cur rest e = ground arith

module _ (io : ByteOps) (law : IsByteOps io) where
  pub encode_buffer-Writes :
      (bs : List ℕ) → Fits bs → Writes (encode_buffer io bs) (buffer_bytes bs)
  unfolding encode_buffer
  encode_buffer-Writes bs h =
      let e : length bs % 65536 ≡ length bs = omega arith in
      rw e (
        Writes->> _ _ [] (buffer_bytes bs) (raise_if-Writes _ _ (ground arith)) (
          Writes->> _ _ (be16 (length bs)) bs (put_be16-Writes io law (length bs) h)
            (put_bytes-Writes io law bs)))

  -- A string of 65536 bytes or more is refused before anything is written.
  pub encode_buffer_too_big :
      (bs : List ℕ) (b : ByteBuf) → 65536 ≤ length bs → encode_buffer io bs b ≡ err buffer_too_big b
  unfolding encode_buffer
  encode_buffer_too_big bs b h = ground arith

  pub decode_buffer-Reads : (bs : List ℕ) → Fits bs → Reads (decode_buffer io) (buffer_bytes bs) bs
  unfolding decode_buffer
  decode_buffer-Reads bs h =
      Reads->>= (get_be16 io) (get_slice io) (be16 (length bs)) bs (length bs) bs
        (get_be16-Reads io law (length bs)) (get_slice-Reads io law bs (omega arith))

  -- The length announces more bytes than there are: no error is raised, the string reads as empty,
  -- and the cursor stands behind the length.
  pub decode_buffer_cut :
      (x y : ℕ) (cur : Cursor)
      → length cur < x * 256 + y
      → decode_buffer io (x ∷ y ∷ cur) ≡ ok [] cur
  unfolding decode_buffer
  decode_buffer_cut x y cur h =
      >>=-ok (get_be16 io) (get_slice io) (get_be16-cons io law x y cur)
      ∙ get_slice_short io law (x * 256 + y) cur h

  -- A successful read has taken two bytes and the string.
  pub decode_buffer_inv :
      (cur : Cursor) (bs : List ℕ) (rest : Cursor)
      → decode_buffer io cur ≡ ok bs rest
      → length cur < 2 ^ 63
      → (x : ℕ) × (y : ℕ) × (cur ≡ x ∷ y ∷ (bs ++ rest))
  unfolding decode_buffer
  decode_buffer_inv cur bs rest e hl =
      let (n, mid, f, g) = >>=-eq-ok (get_be16 io) (get_slice io) cur e in
      let (x, y, ec, en) = get_be16_inv io law cur n mid f in
      (
        x,
        y,
        ec
            ∙ ap (λ (t : Cursor). x ∷ y ∷ t)
                (get_slice_inv io law n mid bs rest g (omega (arith, ap length ec))),
      )

  pub decode_header-Reads :
      (h old : FixedHeader) (cur : Cursor)
      → IsHeader h
      → h.remaining_length ≤ length cur
      → decode_header io old (header_bytes h ++ cur) ≡ ok h cur
  unfolding decode_header
  decode_header-Reads h old cur v fits =
      rw (fixed_header_decode-header_bytes io law h old cur v fits, decode_header)

  -- A packet is its fixed header and as many bytes as the header announces.
  pub packet-Reads :
      {A : Type 0} (body : FixedHeader → Decoder A) (h old : FixedHeader) (bs : List ℕ) (a : A)
      → IsHeader h
      → h.remaining_length ≡ length bs
      → Reads (body h) bs a
      → Reads (decode_header io old >>= body) (header_bytes h ++ bs) a
  packet-Reads body h old bs a v e r rest = rw (append_assoc (header_bytes h) bs rest) (
      >>=-ok (decode_header io old) body
        (decode_header-Reads h old (bs ++ rest) v (omega (arith, length-append bs rest)))
      ∙ r rest)

  -- A header that was read is well formed, and its packet is there in full.
  pub decode_header_inv :
      (old h : FixedHeader) (cur rest : Cursor)
      → All IsByte cur
      → decode_header io old cur ≡ ok h rest
      → (pre : List ℕ) × (cur ≡ pre ++ rest)
        × (2 ≤ length pre)
        × (length pre ≤ 5)
        × (h.remaining_length ≤ length rest)
        × IsHeader h
  decode_header_inv old h cur rest hb e =
      fixed_header_decode-Accepted io law cur old (record { cur = rest; header = h }) hb
        (decode_header_ok io old h cur rest e)

  pub decode_header-IsTotal : (old : FixedHeader) → IsTotal (decode_header io old)
  unfolding decode_header
  decode_header-IsTotal old cur t e =
      inner (fixed_header_decode io (record { cur = cur; header = old })) refl e
    where
      inner :
          (r : Outcome HeaderState (Unit {0}))
          → fixed_header_decode io (record { cur = cur; header = old }) ≡ r
          → ◌≡◌ {A = Outcome Cursor FixedHeader}
              (elim r [ ok _ s ↦ ok s.header s.cur | err x s ↦ err x s.cur ])
              (err out_of_fuel t)
          → ⊥
      inner (ok u s) q k = cc
      inner (err x s) q k = fixed_header_decode-IsTotal io law _ s (q ∙ cc)
