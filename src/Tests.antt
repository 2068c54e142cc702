-- ===== src/Tests.antt =====
-- The theorems at concrete packets, on the byte operations of Bytes.Simple.
pub mod Filters
pub mod Errors
pub mod Stream
pub mod Topics
pub mod TopicTree
pub mod Sending
pub mod Session
pub mod Requests
pub mod Calls
pub mod Attempts
pub mod Options
use aws_c_mqtt.Base.{
  ℕ, ◌+◌, ◌≤◌, ◌<◌, ◌≡◌, ◌≢◌, refl, inl, inr, Bool, true, false, List, [], ◌∷◌, ◌++◌, length, arith,
  take,
}
use aws_c_mqtt.Bytes.{
  ByteBuf, ByteOps, Cursor, ok, err, append, short_buffer, buffer_too_big, invalid_reserved_bits,
  out_of_fuel,
}
use aws_c_mqtt.Bytes.Simple.{simple, simple-IsByteOps}
use aws_c_mqtt.PacketType
use aws_c_mqtt.FixedHeader.{
  FixedHeader, HeaderState, zero_header, fixed_header_encode, fixed_header_decode, bad_flags,
  has_flags,
}
use aws_c_mqtt.FixedHeader.Wire.{IsHeader, header_bytes, length_bytes}
use aws_c_mqtt.FixedHeader.Decode.{
  Accepted, fixed_header_decode-Accepted, fixed_header_decode_first_byte,
  fixed_header_decode-IsTotal,
}
use aws_c_mqtt.Packets.RoundTrips.{
  fixed_header_round_trip, publish_round_trip, connect_round_trip, ack_round_trip,
  connack_round_trip, connection_round_trip, subscribe_round_trip, unsubscribe_round_trip,
  publish_encode_short, connect_encode_short,
}
use aws_c_mqtt.Packets.Publish.{
  PublishPacket, publish_init, publish_flags, publish_qos, publish_encode, publish_decode,
}
use aws_c_mqtt.Packets.Publish.RoundTrip.{IsPublish, publish_bytes, publish_init-IsPublish}
use aws_c_mqtt.Packets.Connect.{
  ConnectPacket, connect_init, connect_add_credentials, connect_add_will, connect_encode,
  connect_decode,
}
use aws_c_mqtt.Packets.Connect.Wire.{IsConnect, connect_bytes, connect_size}
use aws_c_mqtt.Packets.Connect.RoundTrip.{merged}
use aws_c_mqtt.Packets.Connect.Build.{
  IsBuilt, connect_init-IsBuilt, connect_add_credentials-IsBuilt, connect_add_will-IsBuilt,
  connect_add_will_twice,
}
use aws_c_mqtt.Packets.Ack.{
  AckPacket, pubrel_init, ack_init, puback_init, IsAck, ack_bytes, ack_encode, ack_decode,
  inits-IsAck, ack_flags, ack_decode_bad_flags,
}
use aws_c_mqtt.Packets.Connack.{
  ConnackPacket, connack_init, connack_encode, connack_decode, connack_bytes,
  connack_init-IsConnack,
}
use aws_c_mqtt.Packets.Connection.{
  ConnectionPacket, pingreq_init, connection_encode, connection_decode, inits-IsConnection,
  connection_init,
}

-- A buffer of 100 bytes that holds nothing.
abbrev pub empty_buffer : ByteBuf
empty_buffer = record { buffer = []; capacity = 100 }

abbrev pub small_buffer : ByteBuf
small_buffer = record { buffer = []; capacity = 4 }

abbrev pub subscribe_header : FixedHeader
subscribe_header = record { packet_type = PacketType.subscribe; remaining_length = 1; flags = 2 }

pub subscribe_header-IsHeader : IsHeader subscribe_header
unfolding bad_flags has_flags
subscribe_header-IsHeader = ground arith

fixed_header_round_trip_example :
    (fixed_header_encode simple subscribe_header empty_buffer
      ≡ ok tt (append empty_buffer (header_bytes subscribe_header)))
    × (fixed_header_decode simple
          (record { cur = header_bytes subscribe_header ++ (7 ∷ []); header = zero_header })
        ≡ ok tt (record { cur = 7 ∷ []; header = subscribe_header }))
fixed_header_round_trip_example =
    fixed_header_round_trip simple simple-IsByteOps subscribe_header zero_header empty_buffer
      (7 ∷ []) subscribe_header-IsHeader (omega arith)
      (unfold header_bytes length_bytes in omega arith)

abbrev pub old_publish : PublishPacket
old_publish = record {
  fixed_header = zero_header;
  packet_identifier = 0;
  topic_name = [];
  payload = [];
}

abbrev pub hello : PublishPacket
unfolding publish_init publish_flags
hello = publish_init true 1 false (97 ∷ 47 ∷ 98 ∷ []) 513 (104 ∷ 105 ∷ [])

pub hello-IsPublish : IsPublish hello
unfolding hello publish_init
hello-IsPublish =
    publish_init-IsPublish true 1 false (97 ∷ 47 ∷ 98 ∷ []) 513 (104 ∷ 105 ∷ []) (omega arith)
      (omega arith) (omega arith) (inl (omega arith)) (omega arith)

publish_round_trip_example :
    (publish_encode simple hello empty_buffer ≡ ok tt (append empty_buffer (publish_bytes hello)))
    × (publish_decode simple old_publish (publish_bytes hello ++ (1 ∷ [])) ≡ ok hello (1 ∷ []))
unfolding hello publish_init publish_qos
publish_round_trip_example =
    publish_round_trip simple simple-IsByteOps hello old_publish empty_buffer (1 ∷ [])
      hello-IsPublish (omega arith) (unfold publish_bytes header_bytes length_bytes in omega arith)

abbrev pub client : ConnectPacket
unfolding connect_init
client = connect_init (99 ∷ 49 ∷ []) true 60

pub client-IsBuilt : IsBuilt client
unfolding client connect_init
client-IsBuilt = connect_init-IsBuilt (99 ∷ 49 ∷ []) true 60 (omega arith) (omega arith)

abbrev pub with_user : ConnectPacket
unfolding connect_add_credentials
with_user = connect_add_credentials client (117 ∷ []) (112 ∷ 119 ∷ [])

abbrev pub with_will : ConnectPacket
unfolding connect_add_will
with_will = connect_add_will client (119 ∷ []) 1 true (98 ∷ 121 ∷ 101 ∷ [])

connect_round_trip_example :
    (connect_encode simple client empty_buffer ≡ ok tt (append empty_buffer (connect_bytes client)))
    × (connect_decode simple client (connect_bytes client ++ (1 ∷ []))
        ≡ ok (merged client client) (1 ∷ []))
unfolding client connect_init
connect_round_trip_example =
    connect_round_trip simple simple-IsByteOps client client empty_buffer (1 ∷ [])
      client-IsBuilt.connect (unfold connect_bytes header_bytes length_bytes in omega arith)
