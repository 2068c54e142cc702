-- ===== src/Packets/RoundTrips.antt =====
-- Each packet through its encoder and back through its decoder, and the encoders on a buffer that is
-- too small.
use aws_c_mqtt.Base.{ℕ, ◌+◌, ◌<◌, ◌≤◌, ◌≡◌, List, ◌++◌, length, arith}
use aws_c_mqtt.Bytes.{ByteBuf, ByteOps, IsByteOps, Cursor, ok, err, append, short_buffer}
use aws_c_mqtt.FixedHeader.{FixedHeader, fixed_header_encode, fixed_header_decode}
use aws_c_mqtt.FixedHeader.Wire.{IsHeader, header_bytes, fixed_header_encode-Writes}
use aws_c_mqtt.FixedHeader.RoundTrip.{fixed_header_decode-header_bytes}
use aws_c_mqtt.Packets.Publish.{PublishPacket, publish_encode, publish_decode}
use aws_c_mqtt.Packets.Publish.RoundTrip.{
  IsPublish, publish_bytes, publish_encode-Writes, publish_decode-Reads,
}
use aws_c_mqtt.Packets.Connect.{ConnectPacket, connect_encode, connect_decode}
use aws_c_mqtt.Packets.Connect.Wire.{IsConnect, connect_bytes, connect_encode-Writes}
use aws_c_mqtt.Packets.Connect.RoundTrip.{merged, connect_decode-Reads}
use aws_c_mqtt.Packets.Ack.{
  AckPacket, IsAck, ack_bytes, ack_encode, ack_decode, ack_encode-Writes, ack_decode-Reads,
}
use aws_c_mqtt.Packets.Connack.{
  ConnackPacket, IsConnack, connack_bytes, connack_encode, connack_decode, connack_encode-Writes,
  connack_decode-Reads,
}
use aws_c_mqtt.Packets.Connection.{
  ConnectionPacket, IsConnection, connection_encode, connection_decode, connection_encode-Writes,
  connection_decode-Reads,
}
use aws_c_mqtt.Packets.Filters.{growing}
use aws_c_mqtt.Packets.Subscribe.{SubscribePacket, subscribe_encode, subscribe_decode}
use aws_c_mqtt.Packets.Subscribe.Wire.{IsSubscribe, subscribe_bytes, subscribe_encode-Emits}
use aws_c_mqtt.Packets.Subscribe.Decode.{subscribe_decode-Reads}
use aws_c_mqtt.Packets.Unsubscribe.{UnsubscribePacket, unsubscribe_encode, unsubscribe_decode}
use aws_c_mqtt.Packets.Unsubscribe.Laws.{
  IsUnsubscribe, unsubscribe_bytes, unsubscribe_encode-Emits, unsubscribe_decode-Reads,
}

module _ (io : ByteOps) (law : IsByteOps io) where
  -- A fixed header with a type and flags of four bits, a remaining length below 2 ^ 28 and no flags
  -- but on the types that have them: where the buffer has room the encoder appends its bytes, and
  -- the decoder reads the same header back, if the bytes that it announces follow.
  pub fixed_header_round_trip :
      (h old : FixedHeader) (b : ByteBuf) (rest : Cursor)
      → IsHeader h
      → h.remaining_length ≤ length rest
      → length b.buffer + length (header_bytes h) ≤ b.capacity
      → (fixed_header_encode io h b ≡ ok tt (append b (header_bytes h)))
        × (fixed_header_decode io (record { cur = header_bytes h ++ rest; header = old })
            ≡ ok tt (record { cur = rest; header = h }))
  fixed_header_round_trip h old b rest v fits room = (
    (fixed_header_encode-Writes io law h v b (omega arith)).0 room,
    fixed_header_decode-header_bytes io law h old rest v fits,
  )

  -- A PUBLISH whose remaining length is exact, with a payload: where the buffer has room the encoder
  -- appends its bytes, and the decoder reads the same packet back from them, whatever bytes follow.
  pub publish_round_trip :
      (p old : PublishPacket) (b : ByteBuf) (rest : Cursor)
      → IsPublish p
      → 0 < length p.payload
      → length b.buffer + length (publish_bytes p) ≤ b.capacity
      → (publish_encode io p b ≡ ok tt (append b (publish_bytes p)))
        × (publish_decode io old ((publish_bytes p) ++ rest) ≡ ok (p) rest)
  publish_round_trip p old b rest v h room = (
    (publish_encode-Writes io law p v b (omega arith)).0 room,
    publish_decode-Reads io law p old v h rest,
  )

  -- A CONNECT whose remaining length is exact: where the buffer has room the encoder appends its bytes,
  -- and the decoder reads the packet back from them, whatever bytes follow. The will and the
  -- credentials that the packet does not have stay as they were in the packet decoded into.
  pub connect_round_trip :
      (p old : ConnectPacket) (b : ByteBuf) (rest : Cursor)
      → IsConnect p
      → length b.buffer + length (connect_bytes p) ≤ b.capacity
      → (connect_encode io p b ≡ ok tt (append b (connect_bytes p)))
        × (connect_decode io old ((connect_bytes p) ++ rest) ≡ ok (merged old p) rest)
  connect_round_trip p old b rest v room = (
    (connect_encode-Writes io law p v b (omega arith)).0 room,
    connect_decode-Reads io law p old v rest,
  )

  -- A PUBACK, PUBREC, PUBREL, PUBCOMP, SUBACK or UNSUBACK with the flags of its type: where the
  -- buffer has room the encoder appends its bytes, and the decoder reads the same packet back from
  -- them, whatever bytes follow.
  pub ack_round_trip :
      (p old : AckPacket) (b : ByteBuf) (rest : Cursor)
      → IsAck p
      → length b.buffer + length (ack_bytes p) ≤ b.capacity
      → (ack_encode io p b ≡ ok tt (append b (ack_bytes p)))
        × (ack_decode io old ((ack_bytes p) ++ rest) ≡ ok (p) rest)
  ack_round_trip p old b rest v room =
      ((ack_encode-Writes io law p v b (omega arith)).0 room, ack_decode-Reads io law p old v rest)

  -- A CONNACK: where the buffer has room the encoder appends its bytes, and the decoder reads the same
  -- packet back from them, whatever bytes follow.
  pub connack_round_trip :
      (p old : ConnackPacket) (b : ByteBuf) (rest : Cursor)
      → IsConnack p
      → length b.buffer + length (connack_bytes p) ≤ b.capacity
      → (connack_encode io p b ≡ ok tt (append b (connack_bytes p)))
        × (connack_decode io old ((connack_bytes p) ++ rest) ≡ ok (p) rest)
  connack_round_trip p old b rest v room = (
    (connack_encode-Writes io law p v b (omega arith)).0 room,
    connack_decode-Reads io law p old v rest,
  )

  -- A PINGREQ, PINGRESP or DISCONNECT: where the buffer has room the encoder appends its bytes, and the
  -- decoder reads the same packet back from them, whatever bytes follow.
  pub connection_round_trip :
      (p old : ConnectionPacket) (b : ByteBuf) (rest : Cursor)
      → IsConnection p
      → length b.buffer + length (header_bytes p.fixed_header) ≤ b.capacity
      → (connection_encode io p b ≡ ok tt (append b (header_bytes p.fixed_header)))
        × (connection_decode io old ((header_bytes p.fixed_header) ++ rest) ≡ ok (p) rest)
  connection_round_trip p old b rest v room = (
    (connection_encode-Writes io law p v b (omega arith)).0 room,
    connection_decode-Reads io law p old v rest,
  )

  -- A well-formed SUBSCRIBE, whose remaining length is exact, with filters below 65536 bytes and a QoS
  -- below 3 for each: where the buffer has room the encoder appends its bytes, and the decoder reads the packet back from them, whatever
  -- bytes follow, behind the filters of the packet decoded into, if its list can grow.
  pub subscribe_round_trip :
      (p old : SubscribePacket) (b : ByteBuf) (rest : Cursor)
      → IsSubscribe p
      → length b.buffer + length (subscribe_bytes p) ≤ b.capacity
      → (subscribe_encode io p b ≡ ok tt (append b (subscribe_bytes p)))
        × (subscribe_decode io growing old ((subscribe_bytes p) ++ rest)
            ≡ ok (record p { topic_filters = old.topic_filters ++ p.topic_filters }) rest)
  subscribe_round_trip p old b rest v room =
      (subscribe_encode-Emits io law p v b room, subscribe_decode-Reads io law p old v rest)

  -- An UNSUBSCRIBE whose remaining length is exact, with filters below 65536 bytes: where the buffer has
  -- room the encoder appends its bytes, and the decoder reads the packet back from them, whatever
  -- bytes follow, behind the filters of the packet decoded into, if its list can grow.
  pub unsubscribe_round_trip :
      (p old : UnsubscribePacket) (b : ByteBuf) (rest : Cursor)
      → IsUnsubscribe p
      → length b.buffer + length (unsubscribe_bytes p) ≤ b.capacity
      → (unsubscribe_encode io p b ≡ ok tt (append b (unsubscribe_bytes p)))
        × (unsubscribe_decode io growing old ((unsubscribe_bytes p) ++ rest)
            ≡ ok (record p { topic_filters = old.topic_filters ++ p.topic_filters }) rest)
  unsubscribe_round_trip p old b rest v room =
      (unsubscribe_encode-Emits io law p v b room, unsubscribe_decode-Reads io law p old v rest)

  -- A PUBLISH whose remaining length is exact, and a buffer with less room than its bytes: the encoder
  -- fails with AWS_ERROR_SHORT_BUFFER, and what it has appended is a prefix of those bytes.
  pub publish_encode_short :
      (p : PublishPacket) (b : ByteBuf)
      → IsPublish p
      → length b.buffer ≤ b.capacity
      → b.capacity < length b.buffer + length (publish_bytes p)
      → (part : List ℕ) × (left : List ℕ) × (publish_bytes p ≡ part ++ left)
        × (publish_encode io p b ≡ err short_buffer (append b part))
  publish_encode_short p b v h room = (publish_encode-Writes io law p v b h).1 room

  -- A CONNECT whose remaining length is exact, and a buffer with less room than its bytes: the encoder
  -- fails with AWS_ERROR_SHORT_BUFFER, and what it has appended is a prefix of those bytes.
  pub connect_encode_short :
      (p : ConnectPacket) (b : ByteBuf)
      → IsConnect p
      → length b.buffer ≤ b.capacity
      → b.capacity < length b.buffer + length (connect_bytes p)
      → (part : List ℕ) × (left : List ℕ) × (connect_bytes p ≡ part ++ left)
        × (connect_encode io p b ≡ err short_buffer (append b part))
  connect_encode_short p b v h room = (connect_encode-Writes io law p v b h).1 room
