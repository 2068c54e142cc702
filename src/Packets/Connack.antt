-- ===== src/Packets/Connack.antt =====
-- CONNACK (`struct aws_mqtt_packet_connack`).
use aws_c_mqtt.Base.{
  ℕ, ◌%◌, ◌<◌, ◌≡◌, refl, Bool, true, false, not, List, [], ◌∷◌, ◌++◌, to_bit, ◌==◌, arith, bit_and,
}
use aws_c_mqtt.PacketType
use aws_c_mqtt.Bytes.{ByteOps, IsByteOps, Encoder, ◌>>=◌, ◌>>◌, return}
use aws_c_mqtt.Bytes.Encoder.{put_u8, Writes, Writes->>, put_u8-Writes}
use aws_c_mqtt.Bytes.Decoder.{Decoder, Reads, get_u8, get_u8-cons}
use aws_c_mqtt.FixedHeader.{FixedHeader, zero_header, has_flags, fixed_header_encode, bad_flags}
use aws_c_mqtt.FixedHeader.Wire.{IsHeader, header_bytes, fixed_header_encode-Writes}
use aws_c_mqtt.Packets.Field.{decode_header, packet-Reads}

pub record ConnackPacket : Type 0 where
  pub fixed_header : FixedHeader
  pub session_present : Bool
  pub connect_return_code : ℕ

unfoldable pub connack_init : Bool → ℕ → ConnackPacket
connack_init session_present return_code = record {
  fixed_header = record zero_header { packet_type = PacketType.connack; remaining_length = 2 };
  session_present = session_present;
  connect_return_code = return_code % 256;
}

module _ (io : ByteOps) where
  pub connack_encode : ConnackPacket → Encoder
  connack_encode p = do
    fixed_header_encode io p.fixed_header
    put_u8 io (bit_and (to_bit p.session_present) 1)
    put_u8 io p.connect_return_code

  pub connack_decode : ConnackPacket → Decoder ConnackPacket
  connack_decode old = do
    header ← decode_header io old.fixed_header
    connack_flags ← get_u8 io
    return_code ← get_u8 io
    return (record {
      fixed_header = header;
      session_present = not (bit_and connack_flags 1 == 0);
      connect_return_code = return_code;
    })

pub record IsConnack (p : ConnackPacket) : Type 0 where
  pub header_ok : IsHeader p.fixed_header
  pub remaining : p.fixed_header.remaining_length ≡ 2
  pub code_lt : p.connect_return_code < 256

unfoldable pub connack_bytes : ConnackPacket → List ℕ
connack_bytes p =
    header_bytes p.fixed_header ++ (to_bit p.session_present ∷ p.connect_return_code ∷ [])

pub connack_init-IsConnack : (s : Bool) (code : ℕ) → IsConnack (connack_init s code)
unfolding connack_init bad_flags has_flags
connack_init-IsConnack s code = ground arith

session_bit : (s : Bool) → bit_and (to_bit s) 1 ≡ to_bit s
session_bit true = refl
session_bit false = refl

session_read : (s : Bool) → not (bit_and (to_bit s) 1 == 0) ≡ s
session_read true = refl
session_read false = refl

to_bit-lt : (s : Bool) → to_bit s < 256
to_bit-lt true = omega arith
to_bit-lt false = omega arith

module _ (io : ByteOps) (law : IsByteOps io) where
  pub connack_encode-Writes :
      (p : ConnackPacket) → IsConnack p → Writes (connack_encode io p) (connack_bytes p)
  unfolding connack_encode connack_bytes
  connack_encode-Writes p v = rw (session_bit p.session_present) (
      Writes->> _ _ (header_bytes p.fixed_header) _
        (fixed_header_encode-Writes io law p.fixed_header v.header_ok)
        (Writes->> _ _ _ _ (put_u8-Writes io law _ (to_bit-lt p.session_present))
          (put_u8-Writes io law p.connect_return_code v.code_lt)))

  pub connack_decode-Reads :
      (p old : ConnackPacket) → IsConnack p → Reads (connack_decode io old) (connack_bytes p) p
  unfolding connack_decode connack_bytes
  connack_decode-Reads p old v =
      packet-Reads io law _ p.fixed_header old.fixed_header _ p v.header_ok v.remaining (λ rest.
        ground (
          arith,
          get_u8-cons io law (to_bit p.session_present) (p.connect_return_code ∷ rest),
          get_u8-cons io law p.connect_return_code rest,
          session_read p.session_present,
        ))
