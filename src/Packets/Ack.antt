-- ===== src/Packets/Ack.antt =====
-- The packets that hold a packet identifier and nothing else: PUBACK, PUBREC, PUBREL, PUBCOMP,
-- SUBACK and UNSUBACK (`struct aws_mqtt_packet_ack`).
use aws_c_mqtt.Base.{
  ℕ, ◌<◌, ◌≤◌, ◌≡◌, ◌≢◌, ◌∙◌, not, List, ◌++◌, if◌then◌else◌, ◌==◌, length, arith,
}
use aws_c_mqtt.PacketType
use aws_c_mqtt.Bytes.{
  ByteOps, IsByteOps, Cursor, err, Encoder, ◌>>=◌, ◌>>◌, raise_if, return, invalid_reserved_bits,
  be16, >>=-ok,
}
use aws_c_mqtt.Bytes.Encoder.{put_be16, Writes, Writes->>, put_be16-Writes}
use aws_c_mqtt.Bytes.Decoder.{Decoder, Reads, get_be16, get_be16-Reads}
use aws_c_mqtt.FixedHeader.{FixedHeader, zero_header, has_flags, fixed_header_encode, bad_flags}
use aws_c_mqtt.FixedHeader.Wire.{IsHeader, header_bytes, fixed_header_encode-Writes}
use aws_c_mqtt.Packets.Field.{decode_header, decode_header-Reads, packet-Reads}

pub record AckPacket : Type 0 where
  pub fixed_header : FixedHeader
  pub packet_identifier : ℕ

-- S_BIT_1_FLAGS
abbrev pub bit_1_flags : ℕ
bit_1_flags = 2

unfoldable pub ack_init : ℕ → ℕ → AckPacket
ack_init type id = record {
  fixed_header = record zero_header { packet_type = type; remaining_length = 2 };
  packet_identifier = id;
}

unfoldable pub puback_init : ℕ → AckPacket
unfolding ack_init
puback_init = ack_init PacketType.puback

unfoldable pub pubrec_init : ℕ → AckPacket
unfolding ack_init
pubrec_init = ack_init PacketType.pubrec

unfoldable pub pubrel_init : ℕ → AckPacket
unfolding ack_init
pubrel_init id =
    let packet = ack_init PacketType.pubrel id in
    record packet { fixed_header = record (packet.fixed_header) { flags = bit_1_flags } }

unfoldable pub pubcomp_init : ℕ → AckPacket
unfolding ack_init
pubcomp_init = ack_init PacketType.pubcomp

unfoldable pub suback_init : ℕ → AckPacket
unfolding ack_init
suback_init = ack_init PacketType.suback

unfoldable pub unsuback_init : ℕ → AckPacket
unfolding ack_init
unsuback_init = ack_init PacketType.unsuback

-- The flags that the decoder insists on.
unfoldable pub ack_flags : FixedHeader → ℕ
ack_flags h = if has_flags h then bit_1_flags else 0

module _ (io : ByteOps) where
  pub ack_encode : AckPacket → Encoder
  ack_encode p = do fixed_header_encode io p.fixed_header; put_be16 io p.packet_identifier

  pub ack_decode : AckPacket → Decoder AckPacket
  ack_decode old = do
    header ← decode_header io old.fixed_header
    raise_if (not (header.flags == ack_flags header)) invalid_reserved_bits
    id ← get_be16 io
    return (record { fixed_header = header; packet_identifier = id })

-- A packet that both routines take.
pub record IsAck (p : AckPacket) : Type 0 where
  pub header_ok : IsHeader p.fixed_header
  pub remaining : p.fixed_header.remaining_length ≡ 2
  pub flags_ok : p.fixed_header.flags ≡ ack_flags p.fixed_header
  pub id_lt : p.packet_identifier < 65536

unfoldable pub ack_bytes : AckPacket → List ℕ
ack_bytes p = header_bytes p.fixed_header ++ be16 p.packet_identifier

pub inits-IsAck :
    (id : ℕ)
    → id < 65536
    → IsAck (puback_init id)
      × IsAck (pubrec_init id)
      × IsAck (pubrel_init id)
      × IsAck (pubcomp_init id)
      × IsAck (suback_init id)
      × IsAck (unsuback_init id)
unfolding puback_init pubrec_init pubrel_init pubcomp_init suback_init unsuback_init bad_flags
    ack_flags has_flags
inits-IsAck id h =
    (ground arith, ground arith, ground arith, ground arith, ground arith, ground arith)

module _ (io : ByteOps) (law : IsByteOps io) where
  pub ack_encode-Writes : (p : AckPacket) → IsAck p → Writes (ack_encode io p) (ack_bytes p)
  unfolding ack_encode ack_bytes
  ack_encode-Writes p v =
      Writes->> _ _ (header_bytes p.fixed_header) (be16 p.packet_identifier)
        (fixed_header_encode-Writes io law p.fixed_header v.header_ok)
        (put_be16-Writes io law p.packet_identifier v.id_lt)

  pub ack_decode-Reads : (p old : AckPacket) → IsAck p → Reads (ack_decode io old) (ack_bytes p) p
  unfolding ack_decode ack_bytes
  ack_decode-Reads p old v =
      packet-Reads io law _ p.fixed_header old.fixed_header (be16 p.packet_identifier) p v.header_ok
        v.remaining
        (λ rest. ground (arith, get_be16-Reads io law p.packet_identifier rest, v.flags_ok))

  -- A well-formed header whose flags are not the ones that belong to its type is refused with
  -- AWS_ERROR_MQTT_INVALID_RESERVED_BITS, before the identifier is read.
  pub ack_decode_bad_flags :
      (h old : FixedHeader) (id : ℕ) (cur : Cursor)
      → IsHeader h
      → h.remaining_length ≤ length cur
      → h.flags ≢ ack_flags h
      → ack_decode io
          (record { fixed_header = old; packet_identifier = id })
          (header_bytes h ++ cur)
        ≡ err invalid_reserved_bits cur
  unfolding ack_decode
  ack_decode_bad_flags h old id cur v fits ne =
      >>=-ok (decode_header io old) _ (decode_header-Reads io law h old cur v fits) ∙ ground arith
