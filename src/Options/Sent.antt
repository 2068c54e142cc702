-- ===== src/Options/Sent.antt =====
-- What the CONNECT of a connection (`s_mqtt_client_init` of source/client.c) carries.
use aws_c_mqtt.Base.{
  ℕ, ◌+◌, ◌≤◌, ◌<◌, ◌≡◌, ◌∙◌, sym, ap, subst, true, List, [], Option, none, some, length,
  length-append, arith,
}
use aws_c_mqtt.Bytes.{ByteBuf, ByteOps, IsByteOps, ok, append}
use aws_c_mqtt.Packets.Connect.{ConnectPacket, connect_encode}
use aws_c_mqtt.FixedHeader.Wire.{header_bytes}
use aws_c_mqtt.Subscribing.Messages.{length-header_bytes}
use aws_c_mqtt.Packets.Connect.Wire.{
  IsConnect, connect_bytes, connect_body, length-connect_body, connect_encode-Writes,
}
use aws_c_mqtt.Client.{send_message, Connection, ChannelOps, emit}
use aws_c_mqtt.Options.{Options, connect_packet, send_connect, client_init}
use aws_c_mqtt.Options.Packet.{AreValid, Carries, connect_packet_lem}

-- Below 16384 the fixed header takes three bytes at most.
length-connect_bytes :
    (p : ConnectPacket)
    → IsConnect p
    → p.fixed_header.remaining_length < 16384
    → length (connect_bytes p) ≤ 3 + p.fixed_header.remaining_length
unfolding connect_bytes
length-connect_bytes p v small = omega (
  arith,
  length-header_bytes p.fixed_header small,
  length-connect_body p,
  v.remaining,
  length-append (header_bytes p.fixed_header) (connect_body p),
)

packet_eq : (p q : ConnectPacket) → some p ≡ some q → p ≡ q
packet_eq p q e = ap (λ (m : Option ConnectPacket). elim m [ none ↦ p | some r ↦ r ]) e

module _ (io : ByteOps) (law : IsByteOps io) (channel : ChannelOps) where
  -- Options whose strings are below 65536 bytes and null or there, with a client id and a user name that are not
  -- empty, a keep alive below 65536 and a QoS of the will below 4; the CONNECT that is made of them
  -- has a remaining length below 16384, the channel sends every message, and its pool gives an
  -- empty message of at least the size that is asked for: once the channel is set up, the one message that the connection sends is the
  -- bytes of a well-formed CONNECT that carries the client id, the clean session flag, the keep
  -- alive, the will and the login of the options, and nothing else changes but the slot.
  pub client_init-Carries :
      (o : Options) (p : ConnectPacket) (room : ℕ) (c : Connection)
      → AreValid o
      → connect_packet o ≡ some p
      → p.fixed_header.remaining_length < 16384
      → ((bs : List ℕ) → channel.can_send bs ≡ true)
      → channel.acquire_message (3 + p.fixed_header.remaining_length)
        ≡ some (record { buffer = []; capacity = room })
      → 3 + p.fixed_header.remaining_length ≤ room
      → Carries o p
        × (client_init io channel true o c
            ≡ ok tt (emit (send_message (connect_bytes p)) (record c { has_slot = true })))
  unfolding client_init send_connect
  client_init-Carries o p room c v made small sends acquired enough =
      let (q, e, carries_q) = connect_packet_lem o v in
      let carries : Carries o p = subst (Carries o) (packet_eq q p (sym e ∙ made)) carries_q in
      let b : ByteBuf = record { buffer = []; capacity = room } in
      let written : connect_encode io p b ≡ ok tt (append b (connect_bytes p)) =
        (connect_encode-Writes io law p carries.well_formed b (omega arith)).0
          (omega (arith, length-connect_bytes p carries.well_formed small, enough)) in
      (carries, ground (arith, made, acquired, written, sends (connect_bytes p)))
