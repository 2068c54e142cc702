-- ===== src/Subscribing/Messages.antt =====
-- Sending the packet of an attempt (`mqtt_get_message_for_packet` and the encoder, in source/client.c).
use aws_c_mqtt.Base.{ℕ, ◌+◌, ◌%◌, ◌^◌, ◌≤◌, ◌<◌, ◌≡◌, List, [], length, arith}
use aws_c_mqtt.Bytes.{ByteBuf, Op, ok}
use aws_c_mqtt.FixedHeader.{FixedHeader}
use aws_c_mqtt.FixedHeader.Wire.{header_bytes, length_bytes}
use aws_c_mqtt.Packets.Filters.Laws.{Emits}
use aws_c_mqtt.Client.{IsOpen, send_message, ChannelOps, emit}
use aws_c_mqtt.Subscribing.{Attempt, send_packet}

-- Below 16384 a remaining length takes two bytes at most.
pub length-header_bytes :
    (h : FixedHeader) → h.remaining_length < 16384 → length (header_bytes h) ≤ 3
unfolding header_bytes length_bytes
length-header_bytes h small = ground arith

pub send_packet-Emits :
    {P : Type 0} (channel : ChannelOps) (header : P → FixedHeader)
    (encode : P → Op ByteBuf (Unit {0})) (s : Attempt P) (bs : List ℕ)
    → IsOpen channel
    → Emits (encode s.packet) bs
    → length bs ≤ 3 + (header s.packet).remaining_length
    → (header s.packet).remaining_length < 16384
    → send_packet channel header encode s
      ≡ ok tt (record s { connection = emit (send_message bs) s.connection })
unfolding send_packet
send_packet-Emits channel header encode s bs v enc fits small =
    let (room, acquired, enough) =
      v.gives ((3 + (header s.packet).remaining_length) % 2 ^ 64) (omega arith) in
    let written = enc (record { buffer = []; capacity = room }) (omega arith) in
    ground (arith, acquired, written, v.sends bs)
