-- ===== src/Packets/Connection.antt =====
-- The packets that are a fixed header and nothing else: PINGREQ, PINGRESP and DISCONNECT
-- (`struct aws_mqtt_packet_connection`).
use aws_c_mqtt.Base.{ℕ, ◌≡◌, arith}
use aws_c_mqtt.PacketType
use aws_c_mqtt.Bytes.{ByteOps, IsByteOps, Encoder, ◌>>=◌, return}
use aws_c_mqtt.Bytes.Encoder.{Writes}
use aws_c_mqtt.Bytes.Decoder.{Decoder, Reads, Reads-map}
use aws_c_mqtt.FixedHeader.{FixedHeader, zero_header, has_flags, fixed_header_encode, bad_flags}
use aws_c_mqtt.FixedHeader.Wire.{IsHeader, header_bytes, fixed_header_encode-Writes}
use aws_c_mqtt.Packets.Field.{decode_header, decode_header-Reads}

pub record ConnectionPacket : Type 0 where
  pub fixed_header : FixedHeader

unfoldable pub connection_init : ℕ → ConnectionPacket
connection_init type = record { fixed_header = record zero_header { packet_type = type } }

unfoldable pub pingreq_init : ConnectionPacket
unfolding connection_init
pingreq_init = connection_init PacketType.pingreq

unfoldable pub pingresp_init : ConnectionPacket
unfolding connection_init
pingresp_init = connection_init PacketType.pingresp

unfoldable pub disconnect_init : ConnectionPacket
unfolding connection_init
disconnect_init = connection_init PacketType.disconnect

module _ (io : ByteOps) where
  pub connection_encode : ConnectionPacket → Encoder
  connection_encode p = fixed_header_encode io p.fixed_header

  pub connection_decode : ConnectionPacket → Decoder ConnectionPacket
  connection_decode old = do
    header ← decode_header io old.fixed_header
    return (record { fixed_header = header })

-- The three packets are two bytes each: the type, and a remaining length of 0.
pub record IsConnection (p : ConnectionPacket) : Type 0 where
  pub header_ok : IsHeader p.fixed_header
  pub remaining : p.fixed_header.remaining_length ≡ 0

pub inits-IsConnection :
    IsConnection pingreq_init × IsConnection pingresp_init × IsConnection disconnect_init
unfolding pingreq_init pingresp_init disconnect_init bad_flags has_flags
inits-IsConnection = (ground arith, ground arith, ground arith)

module _ (io : ByteOps) (law : IsByteOps io) where
  pub connection_encode-Writes :
      (p : ConnectionPacket)
      → IsConnection p
      → Writes (connection_encode io p) (header_bytes p.fixed_header)
  unfolding connection_encode
  connection_encode-Writes p v = fixed_header_encode-Writes io law p.fixed_header v.header_ok

  pub connection_decode-Reads :
      (p old : ConnectionPacket)
      → IsConnection p
      → Reads (connection_decode io old) (header_bytes p.fixed_header) p
  unfolding connection_decode
  connection_decode-Reads p old v =
      Reads-map (decode_header io old.fixed_header) (λ h. record { fixed_header = h })
        (header_bytes p.fixed_header) p.fixed_header
        (λ rest.
          decode_header-Reads io law p.fixed_header old.fixed_header rest v.header_ok
            (omega (arith, v.remaining)))
