-- ===== src/Handlers/Answers.antt =====
-- What the connection does on well-formed packets of a server.
use aws_c_mqtt.Base.{
  ℕ, ◌+◌, ◌%◌, ◌^◌, ◌≤◌, ◌<◌, ◌≡◌, refl, sym, ap, ◌∙◌, Bool, true, List, [], ◌∷◌, ◌++◌, map, none,
  some, ◌==◌, ltb, if◌then◌else◌, ◌&&◌, arith, length, append-nil,
}
use aws_c_mqtt.Bytes.{
  ByteBuf, ByteOps, IsByteOps, ok, err, null_dereference, protocol_error, >>=-ok, append,
}
use aws_c_mqtt.Bytes.Decoder.{Decoder, Reads}
use aws_c_mqtt.Packets.Ack.{
  AckPacket, IsAck, ack_bytes, ack_decode, ack_encode-Writes, ack_decode-Reads, puback_init,
  inits-IsAck,
}
use aws_c_mqtt.Packets.Connack.{
  ConnackPacket, IsConnack, connack_bytes, connack_decode, connack_decode-Reads,
}
use aws_c_mqtt.Packets.Publish.{PublishPacket, publish_decode, publish_qos}
use aws_c_mqtt.Packets.Publish.RoundTrip.{IsPublish, publish_bytes, publish_decode-Reads}
use aws_c_mqtt.Client.{
  connected, state_number, Event, on_resumed, on_connection_complete, schedule_request,
  schedule_ping, schedule_shutdown, disconnect_impl, send_message, Connection, ChannelOps, Deliver,
  emit, schedule_next_ping, request_complete, find_request,
}
use aws_c_mqtt.Handlers.{
  decoding, no_ack, no_connack, no_publish, announce_connection, schedule_pending, on_connack,
  send_ack, publish_ack, send_if_asked, packet_handler_publish, packet_handler_ack,
  packet_handler_connack,
}

decoding_lem :
    {A : Type 0} (decode : Decoder A) (bs : List ℕ) (a : A) (c : Connection)
    → Reads decode bs a
    → decoding decode bs c ≡ ok a c
unfolding decoding
decoding_lem decode bs a c r = rw (sym (append-nil bs), r [], decoding) refl

-- The callback that a CONNACK is answered with: a reconnection that is not the first successful
-- connection is a resumed one.
abbrev pub announcement : ConnackPacket → Bool → Connection → List Event
announcement p was_reconnecting c =
    if was_reconnecting && ltb 1 c.connection_count
    then (if c.has_on_resumed then on_resumed p.connect_return_code p.session_present ∷ [] else [])
    else (if c.has_on_connection_complete
        then on_connection_complete p.connect_return_code p.session_present ∷ []
        else [])

abbrev pub connected_once_more : Connection → Connection
connected_once_more c = record c {
  state = connected;
  connection_count = (c.connection_count + 1) % 2 ^ 64;
}

-- The ping that is scheduled: after the keep alive time, or an hour where that is 0.
abbrev pub next_ping : Connection → Event
next_ping c = schedule_ping (if c.keep_alive_time_secs == 0 then 3600 else c.keep_alive_time_secs)

abbrev pub accepted : ConnackPacket → Connection → Connection
accepted p c = record (connected_once_more c) {
  pending_requests = [];
  events =
      ((c.events ++ announcement p (state_number c.state == 2) (connected_once_more c))
        ++ map schedule_request c.pending_requests)
      ++ (next_ping c ∷ []);
}

abbrev pub refused : ConnackPacket → Connection → Connection
refused p c = record (connected_once_more c) {
  events =
      ((c.events ++ announcement p (state_number c.state == 2) (connected_once_more c))
        ++ (if c.has_slot then schedule_shutdown protocol_error ∷ [] else []))
      ++ (next_ping c ∷ []);
}

-- The data of a message that was empty.
written : (b : ByteBuf) (bs : List ℕ) → b.buffer ≡ [] → (append b bs).buffer ≡ bs
written b bs e = ap (λ (xs : List ℕ). xs ++ bs) e

module _ (io : ByteOps) (law : IsByteOps io) (channel : ChannelOps) where
  -- A message from the pool with room for the packet, and a channel that takes it.
  send_ack_lem :
      (p : AckPacket) (b : ByteBuf) (c : Connection)
      → IsAck p
      → channel.acquire_message ((3 + p.fixed_header.remaining_length) % 2 ^ 64) ≡ some b
      → b.buffer ≡ []
      → length (ack_bytes p) ≤ b.capacity
      → channel.can_send (ack_bytes p) ≡ true
      → send_ack io channel p c ≡ ok tt (emit (send_message (ack_bytes p)) c)
  unfolding send_ack
  send_ack_lem p b c v q e room s =
      let enc =
        (ack_encode-Writes io law p v b (omega (arith, ap length e))).0
          (omega (arith, ap length e)) in
      ground (arith, q, enc, s, written b (ack_bytes p) e)

  publish_ack_one :
      (p : PublishPacket)
      → publish_qos p.fixed_header ≡ 1
      → publish_ack io channel p ≡ puback_init p.packet_identifier
  unfolding publish_ack
  publish_ack_one p q = ground (arith, q)

  -- A well-formed PUBLISH with QoS 1, a payload and a packet identifier, which the topic tree takes:
  -- it is handed to the topic tree, and then a PUBACK with its identifier is sent, provided that the
  -- pool has an empty message with room for one and that the channel takes it.
  pub packet_handler_publish_acknowledged :
      (deliver : Deliver) (p : PublishPacket) (b : ByteBuf) (c d : Connection)
      → IsPublish p
      → 0 < length p.payload
      → publish_qos p.fixed_header ≡ 1
      → 0 < p.packet_identifier
      → deliver p c ≡ ok tt d
      → channel.acquire_message 5 ≡ some b
      → b.buffer ≡ []
      → length (ack_bytes (puback_init p.packet_identifier)) ≤ b.capacity
      → channel.can_send (ack_bytes (puback_init p.packet_identifier)) ≡ true
      → packet_handler_publish io channel deliver (publish_bytes p) c
        ≡ ok tt (emit (send_message (ack_bytes (puback_init p.packet_identifier))) d)
  unfolding packet_handler_publish
  packet_handler_publish_acknowledged deliver p b c d v pay qos id dl acq e room sends =
      >>=-ok (decoding (publish_decode io no_publish) (publish_bytes p)) _ (
        decoding_lem (publish_decode io no_publish) (publish_bytes p) p c
          (publish_decode-Reads io law p no_publish v pay))
      ∙ >>=-ok (deliver p) (λ _. send_if_asked io channel (publish_ack io channel p)) dl
      ∙ ap (λ (a : AckPacket). send_if_asked io channel a d) (publish_ack_one p qos)
      ∙ asked
    where
      asked :
          send_if_asked io channel (puback_init p.packet_identifier) d
          ≡ ok tt (emit (send_message (ack_bytes (puback_init p.packet_identifier))) d)
      asked =
          unfold send_if_asked puback_init in
          ground (
            arith,
            id,
            send_ack_lem (puback_init p.packet_identifier) b d
                (inits-IsAck p.packet_identifier v.id_lt).0 acq e room sends,
          )

  -- A well-formed acknowledgement with a packet identifier that no outstanding request has: the code
  -- reads through a null pointer.
  pub packet_handler_ack_unknown :
      (p : AckPacket) (c : Connection)
      → IsAck p
      → find_request p.packet_identifier c.outstanding_requests ≡ none
      → packet_handler_ack io channel (ack_bytes p) c ≡ err null_dereference c
  unfolding packet_handler_ack
  packet_handler_ack_unknown p c v n =
      >>=-ok (decoding (ack_decode io no_ack) (ack_bytes p)) _
        (decoding_lem (ack_decode io no_ack) (ack_bytes p) p c (ack_decode-Reads io law p no_ack v))
      ∙ unfold request_complete in rw (n, request_complete) refl

  announce_connection_lem :
      (p : ConnackPacket) (was_reconnecting : Bool) (c : Connection)
      → announce_connection p was_reconnecting c
        ≡ record c { events = c.events ++ announcement p was_reconnecting c }
  unfolding announce_connection
  announce_connection_lem p was_reconnecting c = ground (arith, append-nil c.events)

  -- A well-formed CONNACK. Where the user has asked to disconnect, it changes nothing. Otherwise the
  -- connection counts one more and is connected, and its callback is called: the one of a resumed
  -- connection where it was reconnecting and has been connected before. With return code 0 every
  -- pending request is then scheduled in order, and none is left pending; with another one, a shutdown
  -- with a protocol error is scheduled where there is a slot. At the end the ping is scheduled.
  pub packet_handler_connack_lem :
      (p : ConnackPacket) (c : Connection)
      → IsConnack p
      → packet_handler_connack io channel (connack_bytes p) c
        ≡ ok tt (
            if ltb (state_number c.state) 3
            then (if p.connect_return_code == 0 then accepted p c else refused p c)
            else c)
  unfolding packet_handler_connack on_connack schedule_pending schedule_next_ping disconnect_impl
  packet_handler_connack_lem p c v =
      >>=-ok (decoding (connack_decode io no_connack) (connack_bytes p)) _ (
        decoding_lem (connack_decode io no_connack) (connack_bytes p) p c
          (connack_decode-Reads io law p no_connack v))
      ∙ ground (
        arith,
        announce_connection_lem p (state_number c.state == 2) (connected_once_more c),
        append-nil (c.events ++ announcement p (state_number c.state == 2) (connected_once_more c)),
      )
