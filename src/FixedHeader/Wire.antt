-- ===== src/FixedHeader/Wire.antt =====
-- What `aws_mqtt_fixed_header_encode` writes, in plain arithmetic.
use aws_c_mqtt.Base.{
  ℕ, zero, suc, ◌+◌, ◌*◌, ◌/◌, ◌%◌, ◌^◌, ◌≤◌, ◌<◌, ◌≡◌, Bool, true, false, List, [], ◌∷◌,
  if◌then◌else◌, ltb, length, arith, bit_or, bit_and, inl, inr, leb_cases, lt→ltb, ge→ltb, dec_lt,
}
use aws_c_mqtt.Base.Bits.{bit_or_128, bit_and_15, bit_or_nibbles}
use aws_c_mqtt.Bytes.{ByteOps, IsByteOps, ◌>>◌, raise_if, invalid_reserved_bits}
use aws_c_mqtt.Bytes.Encoder.{put_u8, Writes, Writes->>, put_u8-Writes, Writes-nil}
use aws_c_mqtt.FixedHeader.{
  FixedHeader, encode_remaining_length_loop, encode_remaining_length, bad_flags,
  fixed_header_encode, quotient_shrinks,
}
use mathlib.Core.Logic.{dif_pos, dif_neg}
use mathlib.Core.WellFounded.{Acc}
use native.Mathlib.Bridge.{le_prop}

-- Seven bits a byte, lowest first, with the top bit set on every byte but the last: the encoding
-- of `n` below 128 ^ (k + 1) [MQTT-2.2.3].
unfoldable pub length_bytes : ℕ → ℕ → List ℕ
length_bytes zero n = n ∷ []
length_bytes (suc k) n =
    let rest = length_bytes k (n / 128) in if ltb n 128 then n ∷ [] else (n % 128 + 128) ∷ rest

-- A header that the two routines agree on.
pub record IsHeader (h : FixedHeader) : Type 0 where
  pub type_lt : h.packet_type < 16
  pub flags_lt : h.flags < 16
  pub remaining_lt : h.remaining_length < 2 ^ 28
  pub flags_ok : bad_flags h ≡ false

unfoldable pub header_bytes : FixedHeader → List ℕ
header_bytes h = (h.packet_type * 16 + h.flags) ∷ length_bytes 3 h.remaining_length

pub length-length_bytes :
    (k n : ℕ) → (1 ≤ length (length_bytes k n)) × (length (length_bytes k n) ≤ k + 1)
unfolding length_bytes
length-length_bytes zero n = omega arith
length-length_bytes (suc k) n = ground (arith, length-length_bytes k (n / 128))

pub raise_if-Writes : (c : Bool) (e : _) → c ≡ false → Writes (raise_if c e) []
raise_if-Writes true e h = cc
raise_if-Writes false e h = Writes-nil

module _ (io : ByteOps) (law : IsByteOps io) where
  last_byte-Writes : (n : ℕ) → n < 128 → Writes (put_u8 io (n % 128)) (n ∷ [])
  last_byte-Writes n h =
      let e : n % 128 ≡ n = omega arith in rw e (put_u8-Writes io law n (omega arith))

  inner_byte-Writes : (n : ℕ) → Writes (put_u8 io (bit_or (n % 128) 128)) ((n % 128 + 128) ∷ [])
  inner_byte-Writes n =
      rw (bit_or_128 (n % 128) (omega arith)) (put_u8-Writes io law (n % 128 + 128) (omega arith))

  loop_last :
      (n : ℕ) (w : Acc ◌<◌ n) → n < 128 → encode_remaining_length_loop io n w ≡ put_u8 io (n % 128)
  unfolding encode_remaining_length_loop
  loop_last n (Acc.intro _ smaller) h = dif_neg (dec_lt 0 (n / 128)) (λ p. absurd (omega arith)) _ _

  loop_more :
      (n : ℕ) (w : Acc ◌<◌ n)
      → 128 ≤ n
      → (v : Acc ◌<◌ (n / 128)) × (encode_remaining_length_loop io n w
          ≡ (put_u8 io (bit_or (n % 128) 128) >> encode_remaining_length_loop io (n / 128) v))
  unfolding encode_remaining_length_loop
  loop_more n (Acc.intro _ smaller) h =
      let more : 0 < n / 128 = omega arith in
      (smaller (n / 128) (quotient_shrinks n more), dif_pos (dec_lt 0 (n / 128)) le_prop more _ _)

  encode_loop-Writes :
      (k n : ℕ) (w : Acc ◌<◌ n)
      → n < 128 ^ suc k
      → Writes (encode_remaining_length_loop io n w) (length_bytes k n)
  unfolding length_bytes
  encode_loop-Writes zero n w h =
      rw (loop_last n w (omega arith)) (last_byte-Writes n (omega arith))
  encode_loop-Writes (suc k) n w h = elim (leb_cases 128 n) [
    | inl more ↦
        let (v, e) = loop_more n w more in
        rw (e, ge→ltb n 128 more)
          (Writes->> _ _ ((n % 128 + 128) ∷ []) (length_bytes k (n / 128)) (inner_byte-Writes n)
            (encode_loop-Writes k (n / 128) v (omega arith)))
    | inr last ↦ rw (loop_last n w last, lt→ltb n 128 last) (last_byte-Writes n last)
  ]

  pub encode_remaining_length-Writes :
      (n : ℕ) → n < 2 ^ 28 → Writes (encode_remaining_length io n) (length_bytes 3 n)
  unfolding encode_remaining_length
  encode_remaining_length-Writes n h = encode_loop-Writes 3 n _ (omega arith)

  first_byte :
      (h : FixedHeader)
      → IsHeader h
      → bit_or (h.packet_type * 16) (bit_and h.flags 15) % 256 ≡ h.packet_type * 16 + h.flags
  first_byte h v = ground (
    arith,
    bit_and_15 h.flags,
    bit_or_nibbles h.packet_type h.flags v.type_lt v.flags_lt,
    v.type_lt,
    v.flags_lt,
  )

  -- The routine writes the first byte and the remaining length, and nothing else.
  pub fixed_header_encode-Writes :
      (h : FixedHeader) → IsHeader h → Writes (fixed_header_encode io h) (header_bytes h)
  unfolding fixed_header_encode header_bytes
  fixed_header_encode-Writes h v = rw (first_byte h v) (
      Writes->> (raise_if (bad_flags h) invalid_reserved_bits) _ [] (header_bytes h)
        (raise_if-Writes _ _ v.flags_ok)
        (Writes->> _ _ _ _ (put_u8-Writes io law _ (omega (arith, v.type_lt, v.flags_lt)))
          (encode_remaining_length-Writes h.remaining_length v.remaining_lt)))
