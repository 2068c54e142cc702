-- ===== src/FixedHeader/RoundTrip.antt =====
-- `aws_mqtt_fixed_header_decode` reads back what `aws_mqtt_fixed_header_encode` wrote.
use aws_c_mqtt.Base.{
  ℕ, zero, suc, ◌+◌, ◌*◌, ◌/◌, ◌%◌, ◌^◌, ◌≤◌, ◌<◌, ◌≡◌, ap, ◌∙◌, [], ◌∷◌, ◌++◌, length, arith, inl,
  inr, leb_cases, lt→ltb, ge→ltb,
}
use aws_c_mqtt.Base.Bits.{bit_and_127, bit_and_128, bit_and_15}
use aws_c_mqtt.Bytes.{ByteOps, IsByteOps, Cursor, Outcome, ok, err, short_buffer}
use aws_c_mqtt.FixedHeader.{
  FixedHeader, HeaderState, header_u8, decode_remaining_length_loop, decode_remaining_length,
  check_header, fixed_header_decode, get_packet_type,
}
use native.Mathlib.Nat.{div-add-mod}
use aws_c_mqtt.FixedHeader.Wire.{IsHeader, length_bytes, header_bytes}

-- The state of the header's decoder, written out.
abbrev pub at_header : Cursor → ℕ → ℕ → ℕ → HeaderState
at_header cur type n flags = record {
  cur = cur;
  header = record { packet_type = type; remaining_length = n; flags = flags };
}

module _ (io : ByteOps) (law : IsByteOps io) (type flags : ℕ) where
  pub header_u8-cons :
      (x n : ℕ) (cur : Cursor)
      → header_u8 io (at_header (x ∷ cur) type n flags) ≡ ok x (at_header cur type n flags)
  unfolding header_u8
  header_u8-cons x n cur = rw (law.read_u8_cons x cur, header_u8)

  pub header_u8-nil :
      (n : ℕ)
      → header_u8 io (at_header [] type n flags) ≡ err short_buffer (at_header [] type n flags)
  unfolding header_u8
  header_u8-nil n = rw (law.read_u8_nil, header_u8)

  -- One round of the loop on a last byte, and on a byte with the top bit set.
  pub last_round :
      (r m acc b : ℕ) (cur : Cursor)
      → b < 128
      → acc + b * m < 2 ^ 64
      → decode_remaining_length_loop io (suc r) m (at_header (b ∷ cur) type acc flags)
        ≡ ok tt (at_header cur type (acc + b * m) flags)
  unfolding decode_remaining_length_loop
  last_round r m acc b cur hb hs =
      ground (arith, header_u8-cons b acc cur, bit_and_127 b, bit_and_128 b)

  pub inner_round :
      (r m acc g : ℕ) (cur : Cursor)
      → g < 128
      → m * 128 ≤ 128 * 128 * 128
      → acc + g * m < 2 ^ 64
      → decode_remaining_length_loop io (suc r) m (at_header ((g + 128) ∷ cur) type acc flags)
        ≡ decode_remaining_length_loop io r (m * 128) (at_header cur type (acc + g * m) flags)
  unfolding decode_remaining_length_loop
  inner_round r m acc g cur hg hm hs =
      ground (arith, header_u8-cons (g + 128) acc cur, bit_and_127 (g + 128), bit_and_128 (g + 128))

-- The multiplier stays within the loop's limit for `k` more rounds.
abbrev InLimit : ℕ → ℕ → Type 0
InLimit zero m = Unit {0}
InLimit (suc k) m = (m * 128 ≤ 128 * 128 * 128) × InLimit k (m * 128)

split_group : (n m : ℕ) → n * m ≡ n % 128 * m + n / 128 * (m * 128)
split_group n m = omega (arith, ap (λ (t : ℕ). t * m) (div-add-mod n 128))

ok_at :
    {type flags a b : ℕ} (c : Cursor)
    → a ≡ b
    → ◌≡◌ {A = Outcome HeaderState (Unit {0})}
        (ok tt (at_header c type a flags))
        (ok tt (at_header c type b flags))
ok_at c e = cc

module _ (io : ByteOps) (law : IsByteOps io) (type flags : ℕ) where
  decode_loop-length_bytes :
      (k m n acc : ℕ) (cur : Cursor)
      → InLimit k m
      → n < 128 ^ suc k
      → acc + n * m < 2 ^ 64
      → decode_remaining_length_loop io
          (suc k)
          m
          (at_header (length_bytes k n ++ cur) type acc flags)
        ≡ ok tt (at_header cur type (acc + n * m) flags)
  unfolding length_bytes
  decode_loop-length_bytes zero m n acc cur hm hn hs =
      last_round io law type flags 0 m acc n cur (omega arith) hs
  decode_loop-length_bytes (suc k) m n acc cur hm hn hs = elim (leb_cases 128 n) [
    | inl more ↦ rw (ge→ltb n 128 more) (
        inner_round io law type flags (suc k) m acc (n % 128) (length_bytes k (n / 128) ++ cur)
          (omega arith) hm.0 (omega (arith, split_group n m))
        ∙ decode_loop-length_bytes k (m * 128) (n / 128) (acc + n % 128 * m) cur hm.1 (omega arith)
            (omega (arith, split_group n m))
        ∙ ok_at cur (omega (arith, split_group n m)))
    | inr last ↦ rw (lt→ltb n 128 last) (last_round io law type flags (suc k) m acc n cur last hs)
  ]

  pub decode-length_bytes :
      (n old : ℕ) (cur : Cursor)
      → n < 2 ^ 28
      → decode_remaining_length io (at_header (length_bytes 3 n ++ cur) type old flags)
        ≡ ok tt (at_header cur type n flags)
  unfolding decode_remaining_length
  decode-length_bytes n old cur h =
      decode_loop-length_bytes 3 1 n 0 cur (omega arith) (omega arith) (omega arith)
      ∙ ok_at cur (omega arith)

module _ (io : ByteOps) (law : IsByteOps io) where
  -- The decoder reads back what the encoder writes, if the rest of the packet is there too, and
  -- leaves the cursor behind the header.
  pub fixed_header_decode-header_bytes :
      (h old : FixedHeader) (cur : Cursor)
      → IsHeader h
      → h.remaining_length ≤ length cur
      → fixed_header_decode io (record { cur = header_bytes h ++ cur; header = old })
        ≡ ok tt (record { cur = cur; header = h })
  unfolding fixed_header_decode header_bytes check_header get_packet_type
  fixed_header_decode-header_bytes h old cur v fits =
      let byte : ℕ = h.packet_type * 16 + h.flags in
      let tail : Cursor = length_bytes 3 h.remaining_length ++ cur in
      ground (
        arith,
        header_u8-cons io law old.packet_type old.flags byte old.remaining_length tail,
        bit_and_15 byte,
        decode-length_bytes io law h.packet_type h.flags h.remaining_length old.remaining_length
            cur,
        v.type_lt,
        v.flags_lt,
        v.remaining_lt,
        v.flags_ok,
      )

  -- The header is there in full and the rest of the packet is not: the decoder asks for more bytes,
  -- and the header has been filled in.
  pub fixed_header_decode_cut :
      (h old : FixedHeader) (cur : Cursor)
      → IsHeader h
      → length cur < h.remaining_length
      → fixed_header_decode io (record { cur = header_bytes h ++ cur; header = old })
        ≡ err short_buffer (record { cur = cur; header = h })
  unfolding fixed_header_decode header_bytes check_header get_packet_type
  fixed_header_decode_cut h old cur v cut =
      let byte : ℕ = h.packet_type * 16 + h.flags in
      let tail : Cursor = length_bytes 3 h.remaining_length ++ cur in
      ground (
        arith,
        header_u8-cons io law old.packet_type old.flags byte old.remaining_length tail,
        bit_and_15 byte,
        decode-length_bytes io law h.packet_type h.flags h.remaining_length old.remaining_length
            cur,
        v.type_lt,
        v.flags_lt,
        v.remaining_lt,
        v.flags_ok,
      )
