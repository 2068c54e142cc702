-- ===== src/Packets/Publish.antt =====
-- PUBLISH (`struct aws_mqtt_packet_publish`).
pub mod RoundTrip
use aws_c_mqtt.Base.{
  ℕ, ◌+◌, ◌-◌, ◌*◌, ◌/◌, ◌%◌, ◌^◌, ◌<◌, ◌≡◌, Bool, List, ◌++◌, to_bit, ◌==◌, ltb, if◌then◌else◌,
  length, bit_and, bit_or,
}
use aws_c_mqtt.PacketType
use aws_c_mqtt.Bytes.{ByteOps, Encoder, ◌>>=◌, ◌>>◌, return, raise_if, short_buffer}
use aws_c_mqtt.Bytes.Encoder.{put_be16, put_bytes, put_if}
use aws_c_mqtt.Bytes.Decoder.{Decoder, get_be16, get_slice}
use aws_c_mqtt.FixedHeader.{FixedHeader, zero_header, fixed_header_encode}
use aws_c_mqtt.Packets.Field.{decode_header, encode_buffer, decode_buffer, sizeof_encoded_buffer}

pub record PublishPacket : Type 0 where
  pub fixed_header : FixedHeader
  pub packet_identifier : ℕ
  pub topic_name : List ℕ
  pub payload : List ℕ

-- `(retain & 0x1) | (qos & 0x3) << 1 | (dup & 0x1) << 3`, a `uint8_t`.
unfoldable pub publish_flags : Bool → ℕ → Bool → ℕ
publish_flags retain qos dup =
    bit_or (bit_or (bit_and (to_bit retain) 1) (bit_and qos 3 * 2)) (bit_and (to_bit dup) 1 * 8)
    % 256

-- `(fixed_header.flags >> 1) & 0x3`
unfoldable pub publish_qos : FixedHeader → ℕ
publish_qos h = bit_and (h.flags / 2) 3

unfoldable pub publish_init : Bool → ℕ → Bool → List ℕ → ℕ → List ℕ → PublishPacket
publish_init retain qos dup topic_name packet_identifier payload =
    let size = (sizeof_encoded_buffer topic_name + length payload) % 2 ^ 64 in
    record {
      fixed_header = record {
        packet_type = PacketType.publish;
        remaining_length = if ltb 0 qos then (size + 2) % 2 ^ 64 else size;
        flags = publish_flags retain qos dup;
      };
      packet_identifier = packet_identifier;
      topic_name = topic_name;
      payload = payload;
    }

-- `remaining_length - s_sizeof_encoded_buffer(&topic_name)`, less 2 with an identifier: a `size_t`.
unfoldable pub payload_size : FixedHeader → List ℕ → ℕ
payload_size h topic_name =
    let behind_topic = (h.remaining_length + 2 ^ 64 - sizeof_encoded_buffer topic_name) % 2 ^ 64 in
    if ltb 0 (publish_qos h) then (behind_topic + 2 ^ 64 - 2) % 2 ^ 64 else behind_topic

module _ (io : ByteOps) where
  pub publish_encode_headers : PublishPacket → Encoder
  publish_encode_headers p = do
    fixed_header_encode io p.fixed_header
    encode_buffer io p.topic_name
    put_if (ltb 0 (publish_qos p.fixed_header)) (put_be16 io p.packet_identifier)

  pub publish_encode : PublishPacket → Encoder
  publish_encode p = do publish_encode_headers p; put_bytes io p.payload

  -- `if (qos > 0) { read it } else { packet_identifier = 0; }`
  pub get_identifier : ℕ → Decoder ℕ
  get_identifier qos = if ltb 0 qos then get_be16 io else return 0

  pub publish_decode : PublishPacket → Decoder PublishPacket
  publish_decode old = do
    header ← decode_header io old.fixed_header
    topic_name ← decode_buffer io
    packet_identifier ← get_identifier (publish_qos header)
    payload ← get_slice io (payload_size header topic_name)
    raise_if (length payload == 0) short_buffer
    return (record {
      fixed_header = header;
      packet_identifier = packet_identifier;
      topic_name = topic_name;
      payload = payload;
    })
