-- ===== src/FixedHeader.antt =====
-- The fixed header of an MQTT packet (source/fixed_header.c, private/fixed_header.h).
pub mod Wire
pub mod RoundTrip
pub mod Decode
use aws_c_mqtt.Base.{
  ℕ, zero, suc, ◌+◌, ◌*◌, ◌/◌, ◌%◌, ◌^◌, ◌≤◌, ◌<◌, ◌≡◌, Bool, true, false, not, ◌&&◌, ◌||◌, List,
  [], ◌∷◌, none, some, length, if◌then◌else◌, ltb, ◌==◌, bit_and, bit_or, dite, dec_lt, lt_wf,
  arith,
}
use aws_c_mqtt.PacketType
use aws_c_mqtt.Bytes.{
  ByteOps, Cursor, Encoder, Op, Outcome, ok, err, short_buffer, invalid_reserved_bits,
  invalid_remaining_length, ◌>>=◌, ◌>>◌, raise_if, return, raise,
}
use aws_c_mqtt.Bytes.Encoder.{put_u8}
use mathlib.Core.WellFounded.{Acc}

-- `struct aws_mqtt_fixed_header`. `remaining_length` is a `size_t`, `flags` a `uint8_t`.
pub record FixedHeader : Type 0 where
  pub packet_type : ℕ
  pub remaining_length : ℕ
  pub flags : ℕ

-- AWS_ZERO_STRUCT
abbrev pub zero_header : FixedHeader
zero_header = record { packet_type = 0; remaining_length = 0; flags = 0 }

pub quotient_shrinks : (n : ℕ) → 0 < n / 128 → n / 128 < n
quotient_shrinks n h = omega arith

module _ (io : ByteOps) where
  -- The loop runs until the rest is 0.
  pub encode_remaining_length_loop : (n : ℕ) → Acc ◌<◌ n → Encoder
  encode_remaining_length_loop n (Acc.intro _ smaller) =
      dite (dec_lt 0 (n / 128))
        (λ more.
          put_u8 io (bit_or (n % 128) 128)
          >> encode_remaining_length_loop (n / 128) (smaller (n / 128) (quotient_shrinks n more)))
        (λ _. put_u8 io (n % 128))

  pub encode_remaining_length : ℕ → Encoder
  encode_remaining_length n = encode_remaining_length_loop n (lt_wf.apply n)

-- The state of a decoder of the fixed header: the cursor, and the header that it fills in.
pub record HeaderState : Type 0 where
  pub cur : Cursor
  pub header : FixedHeader

-- Reads one byte, or fails with the state as it is.
unfoldable pub header_u8 : ByteOps → Op HeaderState ℕ
header_u8 io s = elim (io.read_u8 s.cur) [
  | none ↦ err short_buffer s
  | some (x, rest) ↦ ok x (record s { cur = rest })
]

-- `*remaining_length += n`, a `size_t`.
abbrev pub add_remaining : ℕ → Op HeaderState (Unit {0})
add_remaining n s = ok tt (record s {
  header = record (s.header) { remaining_length = (s.header.remaining_length + n) % 2 ^ 64 };
})

module _ (io : ByteOps) where
  -- One round of the loop for each of the four bytes that the multiplier allows: after the fourth
  -- the multiplier exceeds 128 ^ 3. With no round left nothing is read.
  pub decode_remaining_length_loop : ℕ → ℕ → Op HeaderState (Unit {0})
  decode_remaining_length_loop zero multiplier = raise invalid_remaining_length
  decode_remaining_length_loop (suc rounds) multiplier =
      let more = decode_remaining_length_loop rounds (multiplier * 128) in
      header_u8 io >>= λ encoded_byte.
      add_remaining (bit_and encoded_byte 127 * multiplier)
      >> (if bit_and encoded_byte 128 == 0
          then return tt
          else if ltb (128 * 128 * 128) (multiplier * 128)
          then raise invalid_remaining_length
          else more)

  -- `multiplier = 1; *remaining_length = 0;`
  pub decode_remaining_length : Op HeaderState (Unit {0})
  decode_remaining_length s =
      decode_remaining_length_loop 4 1
        (record s { header = record (s.header) { remaining_length = 0 } })

unfoldable pub get_packet_type : ℕ → ℕ
get_packet_type byte = byte / 16

-- Any value but the fourteen packet types is taken for unreachable, and has no flags.
unfoldable pub has_flags : FixedHeader → Bool
has_flags h =
    h.packet_type == PacketType.subscribe
    || (h.packet_type == PacketType.unsubscribe
        || (h.packet_type == PacketType.publish || h.packet_type == PacketType.pubrel))

-- The fixed header has flags where it may have none.
unfoldable pub bad_flags : FixedHeader → Bool
unfolding has_flags
bad_flags h = not (has_flags h) && not (h.flags == 0)

abbrev pub set_type_and_flags : ℕ → Op HeaderState (Unit {0})
set_type_and_flags byte_1 s = ok tt (record s {
  header = record (s.header) { packet_type = get_packet_type byte_1; flags = bit_and byte_1 15 };
})

-- `if (cur->len < header->remaining_length)` and the check of the flags.
pub check_header : Op HeaderState (Unit {0})
check_header s =
    if ltb (length s.cur) s.header.remaining_length
    then err short_buffer s
    else if bad_flags s.header
    then err invalid_reserved_bits s
    else ok tt s

module _ (io : ByteOps) where
  pub fixed_header_encode : FixedHeader → Encoder
  fixed_header_encode h = do
    raise_if (bad_flags h) invalid_reserved_bits
    put_u8 io (bit_or (h.packet_type * 16) (bit_and h.flags 15) % 256)
    encode_remaining_length io h.remaining_length

  pub fixed_header_decode : Op HeaderState (Unit {0})
  unfolding get_packet_type
  fixed_header_decode = header_u8 io >>= λ byte_1.
      set_type_and_flags byte_1 >> (decode_remaining_length io >> check_header)
