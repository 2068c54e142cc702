-- ===== src/Packets/Subscribe.antt =====
-- SUBSCRIBE (`struct aws_mqtt_packet_subscribe`).
pub mod Wire
pub mod Decode
use aws_c_mqtt.Base.{
  ℕ, suc, ◌+◌, ◌-◌, ◌/◌, ◌%◌, ◌^◌, ◌≡◌, Bool, not, List, [], ◌++◌, none, some, ◌==◌, if◌then◌else◌,
  length, bit_and,
}
use aws_c_mqtt.PacketType
use aws_c_mqtt.Bytes.{
  ByteOps, Op, ok, err, Encoder, ◌>>=◌, ◌>>◌, return, raise_if, invalid_reserved_bits, invalid_qos,
  raised_elsewhere,
}
use aws_c_mqtt.Bytes.Encoder.{put_u8, put_be16}
use aws_c_mqtt.Bytes.Decoder.{Decoder, get_u8, get_be16}
use aws_c_mqtt.FixedHeader.{FixedHeader, zero_header, fixed_header_encode}
use aws_c_mqtt.Packets.Field.{
  decode_header, encode_buffer, decode_buffer, sizeof_encoded_buffer, grow,
}
use aws_c_mqtt.Packets.Filters.{ArrayOps, ignoring, encode_each, decode_filters}

-- `struct aws_mqtt_subscription`
pub record Subscription : Type 0 where
  pub topic_filter : List ℕ
  pub qos : ℕ

pub record SubscribePacket : Type 0 where
  pub fixed_header : FixedHeader
  pub packet_identifier : ℕ
  pub topic_filters : List Subscription

-- `allocated` is whether `aws_array_list_init_dynamic` got its memory.
unfoldable pub subscribe_init : Bool → ℕ → Op SubscribePacket (Unit {0})
subscribe_init allocated id _ =
    let packet : SubscribePacket = record {
      fixed_header = record { packet_type = PacketType.subscribe; remaining_length = 2; flags = 2 };
      packet_identifier = id;
      topic_filters = [];
    } in
    if allocated then ok tt packet else err raised_elsewhere packet

unfoldable pub subscribe_clean_up : SubscribePacket → SubscribePacket
subscribe_clean_up p = record {
  fixed_header = zero_header;
  packet_identifier = 0;
  topic_filters = [];
}

unfoldable pub subscribe_add_topic :
    ArrayOps Subscription → List ℕ → ℕ → Op SubscribePacket (Unit {0})
subscribe_add_topic array topic_filter qos p =
    elim (array.push_back p.topic_filters (record { topic_filter = topic_filter; qos = qos })) [
      | none ↦ err raised_elsewhere p
      | some filters ↦ ok tt (record p {
        fixed_header = grow p.fixed_header ((sizeof_encoded_buffer topic_filter + 1) % 2 ^ 64);
        topic_filters = filters;
      })
    ]

module _ (io : ByteOps) where
  -- The result of `s_encode_buffer` is dropped.
  pub encode_subscription : Subscription → Encoder
  encode_subscription s = do ignoring (encode_buffer io s.topic_filter); put_u8 io (bit_and s.qos 3)

  pub subscribe_encode : SubscribePacket → Encoder
  subscribe_encode p = do
    fixed_header_encode io p.fixed_header
    put_be16 io p.packet_identifier
    encode_each (encode_subscription) p.topic_filters

  pub decode_subscription : Decoder Subscription
  decode_subscription = do
    topic_filter ← decode_buffer io
    eos_byte ← get_u8 io
    raise_if (not (eos_byte / 4 == 0)) invalid_reserved_bits
    raise_if (eos_byte == 3) invalid_qos
    return (record { topic_filter = topic_filter; qos = bit_and eos_byte 3 })

-- What the reading loop subtracts from the remaining length.
unfoldable pub subscription_size : Subscription → ℕ
subscription_size s = (sizeof_encoded_buffer s.topic_filter + 1) % 2 ^ 64

module _ (io : ByteOps) (array : ArrayOps Subscription) where
  pub subscribe_decode : SubscribePacket → Decoder SubscribePacket
  subscribe_decode old = do
    header ← decode_header io old.fixed_header
    id ← get_be16 io
    filters ←
        decode_filters array (decode_subscription io) subscription_size header old.topic_filters
    return (record { fixed_header = header; packet_identifier = id; topic_filters = filters })
