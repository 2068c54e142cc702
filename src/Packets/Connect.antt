-- ===== src/Packets/Connect.antt =====
-- CONNECT (`struct aws_mqtt_packet_connect`).
pub mod Build
pub mod Wire
pub mod RoundTrip
use aws_c_mqtt.Base.{
  ℕ, ◌+◌, ◌-◌, ◌*◌, ◌/◌, ◌%◌, ◌^◌, ◌<◌, ◌≡◌, Bool, true, false, not, ◌&&◌, List, [], ◌∷◌, ◌++◌,
  to_bit, ◌==◌, ltb, if◌then◌else◌, length, bit_and, bit_or, bytes_eq,
}
use aws_c_mqtt.PacketType
use aws_c_mqtt.Bytes.{
  ByteOps, Encoder, ◌>>=◌, ◌>>◌, return, raise, raise_if, short_buffer, invalid_credentials,
  unsupported_protocol_name, unsupported_protocol_level,
}
use aws_c_mqtt.Bytes.Encoder.{put_u8, put_be16, put_if}
use aws_c_mqtt.Bytes.Decoder.{Decoder, get_u8, get_be16, get_slice, get_if}
use aws_c_mqtt.FixedHeader.{FixedHeader, zero_header, fixed_header_encode}
use aws_c_mqtt.Packets.Field.{
  decode_header, encode_buffer, decode_buffer, sizeof_encoded_buffer, raising, grow,
}

pub record ConnectPacket : Type 0 where
  pub fixed_header : FixedHeader
  pub clean_session : Bool
  pub has_will : Bool
  pub will_retain : Bool
  pub has_password : Bool
  pub has_username : Bool
  pub keep_alive_timeout : ℕ
  pub will_qos : ℕ
  pub client_identifier : List ℕ
  pub will_topic : List ℕ
  pub will_message : List ℕ
  pub username : List ℕ
  pub password : List ℕ

-- "MQTT"
abbrev pub protocol_name : List ℕ
protocol_name = b'M' ∷ b'Q' ∷ b'T' ∷ b'T' ∷ []

-- S_PROTOCOL_LEVEL
abbrev pub protocol_level : ℕ
protocol_level = 4

unfoldable pub connect_init : List ℕ → Bool → ℕ → ConnectPacket
connect_init client_identifier clean_session keep_alive = record {
  fixed_header = record {
    packet_type = PacketType.connect;
    remaining_length = (10 + sizeof_encoded_buffer client_identifier) % 2 ^ 64;
    flags = 0;
  };
  clean_session = clean_session;
  has_will = false;
  will_retain = false;
  has_password = false;
  has_username = false;
  keep_alive_timeout = keep_alive;
  will_qos = 0;
  client_identifier = client_identifier;
  will_topic = [];
  will_message = [];
  username = [];
  password = [];
}

-- `new.len - old.len`, a `size_t`.
abbrev pub change : List ℕ → List ℕ → ℕ
change new old = (length new + 2 ^ 64 - length old) % 2 ^ 64

unfoldable pub add_username : ConnectPacket → List ℕ → ConnectPacket
add_username p username =
    let h = if p.has_username then p.fixed_header else grow p.fixed_header 2 in
    record p {
      fixed_header = grow h (change username p.username);
      has_username = true;
      username = username;
    }

unfoldable pub add_password : ConnectPacket → List ℕ → ConnectPacket
add_password p password =
    let h = if p.has_password then p.fixed_header else grow p.fixed_header 2 in
    record p {
      fixed_header = grow h (change password p.password);
      has_password = true;
      password = password;
    }

unfoldable pub connect_add_credentials : ConnectPacket → List ℕ → List ℕ → ConnectPacket
unfolding add_username add_password
connect_add_credentials p username password =
    let q = add_username p username in
    if ltb 0 (length password) then add_password q password else q

unfoldable pub connect_add_will : ConnectPacket → List ℕ → ℕ → Bool → List ℕ → ConnectPacket
connect_add_will p topic qos retain payload = record p {
  fixed_header =
      grow p.fixed_header ((sizeof_encoded_buffer topic + sizeof_encoded_buffer payload) % 2 ^ 64);
  has_will = true;
  will_topic = topic;
  will_qos = qos;
  will_retain = retain;
  will_message = payload;
}

-- `clean_session << 1 | has_will << 2 | ...`, a `uint8_t`.
unfoldable pub connect_flags : ConnectPacket → ℕ
connect_flags p =
    bit_or
      (bit_or
        (bit_or
          (bit_or (bit_or (to_bit p.clean_session * 2) (to_bit p.has_will * 4)) (p.will_qos * 8))
          (to_bit p.will_retain * 32))
        (to_bit p.has_password * 64))
      (to_bit p.has_username * 128)
    % 256

unfoldable pub bad_credentials : ConnectPacket → Bool
bad_credentials p = p.has_password && not p.has_username

module _ (io : ByteOps) where
  pub connect_encode : ConnectPacket → Encoder
  connect_encode p = do
    raise_if (bad_credentials p) invalid_credentials
    fixed_header_encode io p.fixed_header
    raising short_buffer (encode_buffer io protocol_name)
    put_u8 io protocol_level
    put_u8 io (connect_flags p)
    put_be16 io p.keep_alive_timeout
    encode_buffer io p.client_identifier
    put_if p.has_will (encode_buffer io p.will_topic >> encode_buffer io p.will_message)
    put_if p.has_username (encode_buffer io p.username)
    put_if p.has_password (encode_buffer io p.password)

-- `aws_byte_cursor_advance(cur, 1)`, and the checks of what it answers.
unfoldable pub check_protocol_level : List ℕ → Decoder (Unit {0})
check_protocol_level [] = raise short_buffer
check_protocol_level (level ∷ _) =
    raise_if (not (level == protocol_level)) unsupported_protocol_level

-- `(connect_flags >> k) & 0x1`, where `d` is 2 ^ k.
abbrev pub flag : ℕ → ℕ → Bool
flag flags d = not (bit_and (flags / d) 1 == 0)

unfoldable pub set_connect_flags : ℕ → ConnectPacket → ConnectPacket
set_connect_flags flags p = record p {
  clean_session = flag flags 2;
  has_will = flag flags 4;
  will_qos = bit_and (flags / 8) 3;
  will_retain = flag flags 32;
  has_password = flag flags 64;
  has_username = flag flags 128;
}

module _ (io : ByteOps) where
  -- The payload: the client identifier, then what the flags announce. A field that they do not
  -- announce keeps its value.
  pub connect_decode_payload : ConnectPacket → Decoder ConnectPacket
  connect_decode_payload p = do
    client_identifier ← decode_buffer io
    will_topic ← get_if p.has_will (decode_buffer io) p.will_topic
    will_message ← get_if p.has_will (decode_buffer io) p.will_message
    username ← get_if p.has_username (decode_buffer io) p.username
    password ← get_if p.has_password (decode_buffer io) p.password
    raise_if (bad_credentials p) invalid_credentials
    return (record p {
      client_identifier = client_identifier;
      will_topic = will_topic;
      will_message = will_message;
      username = username;
      password = password;
    })

  pub connect_decode : ConnectPacket → Decoder ConnectPacket
  connect_decode old = do
    header ← decode_header io old.fixed_header
    name ← raising short_buffer (decode_buffer io)
    raise_if (not (bytes_eq name protocol_name)) unsupported_protocol_name
    level ← get_slice io 1
    check_protocol_level level
    flags ← get_u8 io
    keep_alive ← get_be16 io
    connect_decode_payload (
        set_connect_flags flags
          (record old { fixed_header = header; keep_alive_timeout = keep_alive }))
