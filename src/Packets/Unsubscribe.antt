-- ===== src/Packets/Unsubscribe.antt =====
-- UNSUBSCRIBE (`struct aws_mqtt_packet_unsubscribe`).
pub mod Laws
use aws_c_mqtt.Base.{ℕ, suc, ◌+◌, ◌-◌, ◌%◌, ◌^◌, Bool, List, [], none, some, if◌then◌else◌, length}
use aws_c_mqtt.PacketType
use aws_c_mqtt.Bytes.{ByteOps, Op, ok, err, Encoder, ◌>>=◌, ◌>>◌, return, raised_elsewhere}
use aws_c_mqtt.Bytes.Encoder.{put_be16}
use aws_c_mqtt.Bytes.Decoder.{Decoder, get_be16}
use aws_c_mqtt.FixedHeader.{FixedHeader, zero_header, fixed_header_encode}
use aws_c_mqtt.Packets.Field.{
  decode_header, encode_buffer, decode_buffer, sizeof_encoded_buffer, grow,
}
use aws_c_mqtt.Packets.Filters.{ArrayOps, ignoring, encode_each, decode_filters}

pub record UnsubscribePacket : Type 0 where
  pub fixed_header : FixedHeader
  pub packet_identifier : ℕ
  pub topic_filters : List (List ℕ)

-- `allocated` is whether `aws_array_list_init_dynamic` got its memory.
unfoldable pub unsubscribe_init : Bool → ℕ → Op UnsubscribePacket (Unit {0})
unsubscribe_init allocated id _ =
    let packet : UnsubscribePacket = record {
      fixed_header = record {
        packet_type = PacketType.unsubscribe;
        remaining_length = 2;
        flags = 2;
      };
      packet_identifier = id;
      topic_filters = [];
    } in
    if allocated then ok tt packet else err raised_elsewhere packet

unfoldable pub unsubscribe_clean_up : UnsubscribePacket → UnsubscribePacket
unsubscribe_clean_up p = record {
  fixed_header = zero_header;
  packet_identifier = 0;
  topic_filters = [];
}

unfoldable pub unsubscribe_add_topic : ArrayOps (List ℕ) → List ℕ → Op UnsubscribePacket (Unit {0})
unsubscribe_add_topic array topic_filter p = elim (array.push_back p.topic_filters topic_filter) [
  | none ↦ err raised_elsewhere p
  | some filters ↦ ok tt (record p {
    fixed_header = grow p.fixed_header (sizeof_encoded_buffer topic_filter);
    topic_filters = filters;
  })
]

-- What the reading loop subtracts from the remaining length.
unfoldable pub filter_size : List ℕ → ℕ
filter_size topic_filter = sizeof_encoded_buffer topic_filter

module _ (io : ByteOps) where
  -- The result of `s_encode_buffer` is dropped.
  unfoldable pub encode_filter : List ℕ → Encoder
  encode_filter topic_filter = ignoring (encode_buffer io topic_filter)

  pub unsubscribe_encode : UnsubscribePacket → Encoder
  unsubscribe_encode p = do
    fixed_header_encode io p.fixed_header
    put_be16 io p.packet_identifier
    encode_each encode_filter p.topic_filters

module _ (io : ByteOps) (array : ArrayOps (List ℕ)) where
  pub unsubscribe_decode : UnsubscribePacket → Decoder UnsubscribePacket
  unsubscribe_decode old = do
    header ← decode_header io old.fixed_header
    id ← get_be16 io
    filters ← decode_filters array (decode_buffer io) filter_size header old.topic_filters
    return (record { fixed_header = header; packet_identifier = id; topic_filters = filters })
