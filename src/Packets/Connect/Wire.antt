-- ===== src/Packets/Connect/Wire.antt =====
-- What a CONNECT is on the wire.
use aws_c_mqtt.Base.{
  ℕ, ◌+◌, ◌*◌, ◌<◌, ◌≡◌, refl, Bool, true, false, List, [], ◌∷◌, ◌++◌, to_bit, if◌then◌else◌,
  length, length-append, arith,
}
use aws_c_mqtt.Base.Bits.{connect_fields}
use aws_c_mqtt.Bytes.{ByteOps, IsByteOps, Error, Encoder, ◌>>◌, short_buffer, be16}
use aws_c_mqtt.Bytes.Encoder.{
  put_if, bytes_if, Writes, Writes->>, put_if-Writes, put_u8-Writes, put_be16-Writes,
}
use aws_c_mqtt.FixedHeader.Wire.{
  IsHeader, header_bytes, fixed_header_encode-Writes, raise_if-Writes,
}
use aws_c_mqtt.Packets.Field.{encode_buffer, buffer_bytes, Fits, encode_buffer-Writes, raising}
use aws_c_mqtt.Packets.Connect.{
  ConnectPacket, protocol_name, protocol_level, connect_flags, bad_credentials, connect_encode,
}

-- What follows the client identifier.
abbrev pub options : ConnectPacket → List ℕ
options p =
    bytes_if p.has_will (buffer_bytes p.will_topic ++ buffer_bytes p.will_message)
    ++ (bytes_if p.has_username (buffer_bytes p.username)
        ++ bytes_if p.has_password (buffer_bytes p.password))

abbrev pub connect_body : ConnectPacket → List ℕ
connect_body p =
    buffer_bytes protocol_name
    ++ (protocol_level
        ∷ connect_flags p
        ∷ (be16 p.keep_alive_timeout ++ (buffer_bytes p.client_identifier ++ options p)))

unfoldable pub connect_bytes : ConnectPacket → List ℕ
connect_bytes p = header_bytes p.fixed_header ++ connect_body p

-- The bytes behind the fixed header, counted.
abbrev pub connect_size : ConnectPacket → ℕ
connect_size p =
    10
    + (2 + length p.client_identifier)
    + (if p.has_will then 4 + length p.will_topic + length p.will_message else 0)
    + (if p.has_username then 2 + length p.username else 0)
    + (if p.has_password then 2 + length p.password else 0)

-- A packet that is written as it stands.
pub record IsConnect (p : ConnectPacket) : Type 0 where
  pub header_ok : IsHeader p.fixed_header
  pub id_fits : Fits p.client_identifier
  pub topic_fits : Fits p.will_topic
  pub message_fits : Fits p.will_message
  pub username_fits : Fits p.username
  pub password_fits : Fits p.password
  pub keep_alive_lt : p.keep_alive_timeout < 65536
  pub will_qos_lt : p.will_qos < 4
  pub credentials_ok : bad_credentials p ≡ false
  pub remaining : p.fixed_header.remaining_length ≡ connect_size p

length-bytes_if : (c : Bool) (bs : List ℕ) → length (bytes_if c bs) ≡ (if c then length bs else 0)
length-bytes_if true bs = refl
length-bytes_if false bs = refl

length-options :
    (p : ConnectPacket)
    → length (options p)
      ≡ (if p.has_will then 4 + length p.will_topic + length p.will_message else 0)
        + (if p.has_username then 2 + length p.username else 0)
        + (if p.has_password then 2 + length p.password else 0)
length-options p =
    let will : List ℕ = buffer_bytes p.will_topic ++ buffer_bytes p.will_message in
    ground (
      arith,
      length-append p.will_topic (buffer_bytes p.will_message),
      length-append (bytes_if p.has_will will) (
          bytes_if p.has_username (buffer_bytes p.username)
          ++ bytes_if p.has_password (buffer_bytes p.password)),
      length-append (bytes_if p.has_username (buffer_bytes p.username))
          (bytes_if p.has_password (buffer_bytes p.password)),
    )

pub length-connect_body : (p : ConnectPacket) → length (connect_body p) ≡ connect_size p
length-connect_body p =
    omega (arith, length-append p.client_identifier (options p), length-options p)

pub to_bit-lt : (b : Bool) → to_bit b < 2
to_bit-lt true = omega arith
to_bit-lt false = omega arith

pub connect_flags_lem :
    (p : ConnectPacket)
    → p.will_qos < 4
    → connect_flags p
      ≡ to_bit p.clean_session * 2
        + to_bit p.has_will * 4
        + p.will_qos * 8
        + to_bit p.will_retain * 32
        + to_bit p.has_password * 64
        + to_bit p.has_username * 128
unfolding connect_flags
connect_flags_lem p h =
    connect_fields (to_bit p.clean_session) (to_bit p.has_will) p.will_qos (to_bit p.will_retain)
      (to_bit p.has_password) (to_bit p.has_username) (to_bit-lt _) (to_bit-lt _) h (to_bit-lt _)
      (to_bit-lt _) (to_bit-lt _)

pub connect_flags-lt : (p : ConnectPacket) → connect_flags p < 256
unfolding connect_flags
connect_flags-lt p = omega arith

raising-Writes :
    (e : Error) (m : Encoder) (bs : List ℕ)
    → e ≡ short_buffer
    → Writes m bs
    → Writes (raising e m) bs
raising-Writes e m bs he w b v = (
  λ h. ground (arith, (w b v).0 h),
  λ h. let (x, y, q, r) = (w b v).1 h in (x, y, q, ground (arith, r)),
)

module _ (io : ByteOps) (law : IsByteOps io) where
  options-Writes :
      (p : ConnectPacket)
      → IsConnect p
      → Writes
          (put_if p.has_will (encode_buffer io p.will_topic >> encode_buffer io p.will_message)
            >> (put_if p.has_username (encode_buffer io p.username)
                >> put_if p.has_password (encode_buffer io p.password)))
          (options p)
  options-Writes p v =
      Writes->> _ _ _ _
        (put_if-Writes p.has_will _ _ (λ _.
          Writes->> _ _ (buffer_bytes p.will_topic) (buffer_bytes p.will_message)
            (encode_buffer-Writes io law p.will_topic v.topic_fits)
            (encode_buffer-Writes io law p.will_message v.message_fits)))
        (Writes->> _ _ _ _
          (put_if-Writes p.has_username _ _ (λ _. encode_buffer-Writes io law _ v.username_fits))
          (put_if-Writes p.has_password _ _ (λ _. encode_buffer-Writes io law _ v.password_fits)))

  pub connect_encode-Writes :
      (p : ConnectPacket) → IsConnect p → Writes (connect_encode io p) (connect_bytes p)
  unfolding connect_encode connect_bytes
  connect_encode-Writes p v = Writes->> _ _ [] _ (raise_if-Writes _ _ v.credentials_ok) (
      Writes->> _ _ (header_bytes p.fixed_header) (connect_body p)
        (fixed_header_encode-Writes io law p.fixed_header v.header_ok)
        (Writes->> _ _ (buffer_bytes protocol_name) _
          (raising-Writes _ _ _ refl (encode_buffer-Writes io law protocol_name (omega arith)))
          (Writes->> _ _ (protocol_level ∷ []) _ (put_u8-Writes io law protocol_level (omega arith))
            (Writes->> _ _ (connect_flags p ∷ []) _
              (put_u8-Writes io law (connect_flags p) (connect_flags-lt p))
              (Writes->> _ _ (be16 p.keep_alive_timeout) _
                (put_be16-Writes io law p.keep_alive_timeout v.keep_alive_lt)
                (Writes->> _ _ (buffer_bytes p.client_identifier) (options p)
                  (encode_buffer-Writes io law p.client_identifier v.id_fits)
                  (options-Writes p v)))))))
