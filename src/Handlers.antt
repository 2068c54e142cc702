-- ===== src/Handlers.antt =====
-- The packet state machine of source/client_channel_handler.c: a handler for each packet type that
-- a server sends, and the choice between them.
pub mod Answers
use aws_c_mqtt.Base.{
  ℕ, ◌+◌, ◌/◌, ◌%◌, ◌^◌, Bool, true, false, not, List, [], ◌∷◌, ◌++◌, map, none, some, ◌==◌, ltb,
  leb, if◌then◌else◌, ◌&&◌, ◌||◌,
}
use aws_c_mqtt.PacketType
use aws_c_mqtt.Bytes.{
  ByteBuf, ByteOps, Cursor, Error, Op, Outcome, ok, err, ◌>>=◌, ◌>>◌, return, raise,
  raised_elsewhere, invalid_packet_type, protocol_error,
}
use aws_c_mqtt.Bytes.Decoder.{Decoder}
use aws_c_mqtt.FixedHeader.{FixedHeader, zero_header}
use aws_c_mqtt.Packets.Ack.{
  AckPacket, ack_encode, ack_decode, puback_init, pubrec_init, pubrel_init, pubcomp_init,
}
use aws_c_mqtt.Packets.Connack.{ConnackPacket, connack_decode}
use aws_c_mqtt.Packets.Publish.{PublishPacket, publish_decode, publish_qos}
use aws_c_mqtt.Client.{
  ConnectionState, connecting, connected, reconnecting, state_number, Event, on_resumed,
  on_connection_complete, schedule_request, send_message, Connection, ChannelOps, Deliver, emit,
  schedule_next_ping, disconnect_impl, request_complete,
}

-- A decoder on the handler's own cursor: what it leaves of the cursor is not used.
unfoldable pub decoding : {A : Type 0} → Decoder A → Cursor → Op Connection A
decoding decode cur c = elim (decode cur) [ ok a _ ↦ ok a c | err e _ ↦ err e c ]

-- The packets that a handler decodes into: the decoders set every field of them on success.
abbrev pub no_ack : AckPacket
no_ack = record { fixed_header = zero_header; packet_identifier = 0 }

abbrev pub no_connack : ConnackPacket
no_connack = record { fixed_header = zero_header; session_present = false; connect_return_code = 0 }

abbrev pub no_publish : PublishPacket
no_publish = record {
  fixed_header = zero_header;
  packet_identifier = 0;
  topic_name = [];
  payload = [];
}

abbrev pub is_connecting : ConnectionState → Bool
is_connecting s = state_number s == 0

unfoldable pub announce_connection : ConnackPacket → Bool → Connection → Connection
announce_connection p was_reconnecting c =
    if was_reconnecting && ltb 1 c.connection_count
    then (if c.has_on_resumed
        then emit (on_resumed p.connect_return_code p.session_present) c
        else c)
    else (if c.has_on_connection_complete
        then emit (on_connection_complete p.connect_return_code p.session_present) c
        else c)

-- The pending requests are taken off the list and scheduled, in order.
unfoldable pub schedule_pending : Connection → Connection
schedule_pending c = record c {
  pending_requests = [];
  events = c.events ++ map schedule_request c.pending_requests;
}

unfoldable pub on_connack : ConnackPacket → Connection → Connection
on_connack p c =
    let was_reconnecting = state_number c.state == 2 in
    let announced =
      announce_connection p was_reconnecting
        (record c { state = connected; connection_count = (c.connection_count + 1) % 2 ^ 64 }) in
    schedule_next_ping (
      if p.connect_return_code == 0
      then schedule_pending announced
      else disconnect_impl protocol_error announced)

module _ (io : ByteOps) (channel : ChannelOps) where
  -- `mqtt_get_message_for_packet`, the encoder, and `aws_channel_slot_send_message`.
  unfoldable pub send_ack : AckPacket → Op Connection (Unit {0})
  send_ack p c = elim (channel.acquire_message ((3 + p.fixed_header.remaining_length) % 2 ^ 64)) [
    | none ↦ err raised_elsewhere c
    | some message ↦ elim (ack_encode io p message) [
      | err e _ ↦ err e c
      | ok _ filled ↦
          if channel.can_send filled.buffer
          then ok tt (emit (send_message filled.buffer) c)
          else err raised_elsewhere c
    ]
  ]

  unfoldable pub packet_handler_default : Cursor → Op Connection (Unit {0})
  packet_handler_default message_cursor = raise invalid_packet_type

  unfoldable pub packet_handler_connack : Cursor → Op Connection (Unit {0})
  packet_handler_connack message_cursor = do
    connack ← decoding (connack_decode io no_connack) message_cursor
    λ c. if leb 3 (state_number c.state) then ok tt c else ok tt (on_connack connack c)

  -- The acknowledgement that a PUBLISH asks for, by its QoS; none is the zeroed packet.
  unfoldable pub publish_ack : PublishPacket → AckPacket
  publish_ack p =
      let qos = publish_qos p.fixed_header in
      if qos == 1
      then puback_init p.packet_identifier
      else (if qos == 2 then pubrec_init p.packet_identifier else no_ack)

  -- `if (puback.packet_identifier) { ... }`
  unfoldable pub send_if_asked : AckPacket → Op Connection (Unit {0})
  send_if_asked p = if p.packet_identifier == 0 then return tt else send_ack p

  unfoldable pub packet_handler_publish : Deliver → Cursor → Op Connection (Unit {0})
  packet_handler_publish deliver message_cursor = do
    publish ← decoding (publish_decode io no_publish) message_cursor
    deliver publish
    send_if_asked (publish_ack publish)

  unfoldable pub packet_handler_ack : Cursor → Op Connection (Unit {0})
  packet_handler_ack message_cursor = do
    ack ← decoding (ack_decode io no_ack) message_cursor
    request_complete ack.packet_identifier

  unfoldable pub packet_handler_pubrec : Cursor → Op Connection (Unit {0})
  packet_handler_pubrec message_cursor = do
    ack ← decoding (ack_decode io no_ack) message_cursor
    send_ack (pubrel_init ack.packet_identifier)

  unfoldable pub packet_handler_pubrel : Cursor → Op Connection (Unit {0})
  packet_handler_pubrel message_cursor = do
    ack ← decoding (ack_decode io no_ack) message_cursor
    send_ack (pubcomp_init ack.packet_identifier)

  unfoldable pub packet_handler_pingresp : Cursor → Op Connection (Unit {0})
  packet_handler_pingresp message_cursor c =
      ok tt (record c { last_pingresp_timestamp = channel.current_clock_time })

  -- `s_packet_handlers`
  unfoldable pub packet_handler : Deliver → ℕ → Cursor → Op Connection (Unit {0})
  packet_handler deliver type =
      if type == PacketType.connack
      then packet_handler_connack
      else (if type == PacketType.publish
          then packet_handler_publish deliver
          else (if type == PacketType.pubrec
              then packet_handler_pubrec
              else (if type == PacketType.pubrel
                  then packet_handler_pubrel
                  else (if type == PacketType.pingresp
                      then packet_handler_pingresp
                      else (if type == PacketType.puback
                            || type == PacketType.pubcomp
                            || type == PacketType.suback
                            || type == PacketType.unsuback
                          then packet_handler_ack
                          else packet_handler_default)))))

  unfoldable pub process_mqtt_packet : Deliver → ℕ → Cursor → Op Connection (Unit {0})
  process_mqtt_packet deliver type packet c =
      if is_connecting c.state && not (type == PacketType.connack)
      then err protocol_error (disconnect_impl protocol_error c)
      else (if ltb PacketType.disconnect type || ltb type PacketType.connect
          then err invalid_packet_type c
          else packet_handler deliver type packet c)
