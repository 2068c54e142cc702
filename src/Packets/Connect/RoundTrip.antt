-- ===== src/Packets/Connect/RoundTrip.antt =====
-- `aws_mqtt_packet_connect_decode` reads back what `aws_mqtt_packet_connect_encode` wrote.
use aws_c_mqtt.Base.{
  ℕ, ◌/◌, ◌%◌, ◌<◌, ◌≡◌, refl, ap, sym, append_assoc, ◌∙◌, bytes_eq, Bool, true, false, List, [],
  ◌∷◌, ◌++◌, to_bit, if◌then◌else◌, arith,
}
use aws_c_mqtt.Base.Bits.{bit_and_3, bit_and_1}
use aws_c_mqtt.Bytes.{ByteOps, IsByteOps, Error, short_buffer, be16, >>=-ok}
use aws_c_mqtt.Bytes.Encoder.{bytes_if}
use aws_c_mqtt.Bytes.Decoder.{
  Decoder, Reads, checked-Reads, get_if, get_if-Reads, get_u8, get_be16, get_slice, get_u8-Reads,
  get_be16-Reads, get_slice-Reads,
}
use aws_c_mqtt.Packets.Field.{
  decode_buffer, buffer_bytes, Fits, decode_buffer-Reads, packet-Reads, raising,
}
use aws_c_mqtt.Packets.Connect.{
  ConnectPacket, protocol_name, protocol_level, connect_flags, bad_credentials,
  check_protocol_level, set_connect_flags, flag, connect_decode_payload, connect_decode,
}
use aws_c_mqtt.Packets.Connect.Wire.{
  options, connect_body, connect_bytes, length-connect_body, IsConnect, connect_flags_lem,
  connect_flags-lt, to_bit-lt,
}

-- The result: a string that the flags do not announce keeps the value that it had.
abbrev pub merged : ConnectPacket → ConnectPacket → ConnectPacket
merged old p = record p {
  will_topic = if p.has_will then p.will_topic else old.will_topic;
  will_message = if p.has_will then p.will_message else old.will_message;
  username = if p.has_username then p.username else old.username;
  password = if p.has_password then p.password else old.password;
}

-- Before the payload is read.
abbrev announced : ConnectPacket → ConnectPacket → ConnectPacket
announced old p = record p {
  client_identifier = old.client_identifier;
  will_topic = old.will_topic;
  will_message = old.will_message;
  username = old.username;
  password = old.password;
}

flag_lem : (n d : ℕ) (b : Bool) → n < 256 → n / d % 2 ≡ to_bit b → n / d < 256 → flag n d ≡ b
flag_lem n d true h e k = ground (arith, bit_and_1 (n / d))
flag_lem n d false h e k = ground (arith, bit_and_1 (n / d))

set_connect_flags_lem :
    (p old : ConnectPacket)
    → p.will_qos < 4
    → set_connect_flags
        (connect_flags p)
        (record old { fixed_header = p.fixed_header; keep_alive_timeout = p.keep_alive_timeout })
      ≡ announced old p
unfolding set_connect_flags
set_connect_flags_lem p old h = cc (
  flag_lem (connect_flags p) 2 p.clean_session lt (bits.0) (omega (arith, lt)),
  flag_lem (connect_flags p) 4 p.has_will lt (bits.1) (omega (arith, lt)),
  bit_and_3 (connect_flags p / 8) (omega (arith, lt)) ∙ bits.2,
  flag_lem (connect_flags p) 32 p.will_retain lt (bits.3) (omega (arith, lt)),
  flag_lem (connect_flags p) 64 p.has_password lt (bits.4) (omega (arith, lt)),
  flag_lem (connect_flags p) 128 p.has_username lt (bits.5) (omega (arith, lt)),
)
  where
    lt : connect_flags p < 256
    lt = connect_flags-lt p

    bits :
        (connect_flags p / 2 % 2 ≡ to_bit p.clean_session)
        × (connect_flags p / 4 % 2 ≡ to_bit p.has_will)
        × (connect_flags p / 8 % 4 ≡ p.will_qos)
        × (connect_flags p / 32 % 2 ≡ to_bit p.will_retain)
        × (connect_flags p / 64 % 2 ≡ to_bit p.has_password)
        × (connect_flags p / 128 % 2 ≡ to_bit p.has_username)
    bits = omega (
      arith,
      connect_flags_lem p h,
      to_bit-lt p.clean_session,
      to_bit-lt p.has_will,
      to_bit-lt p.will_retain,
      to_bit-lt p.has_password,
      to_bit-lt p.has_username,
    )

raising-Reads :
    {A : Type 0} (e : Error) (m : Decoder A) (bs : List ℕ) (a : A)
    → Reads m bs a
    → Reads (raising e m) bs a
raising-Reads e m bs a r rest = rw (r rest, raising)

bytes_if-append :
    (c : Bool) (xs ys : List ℕ) → bytes_if c (xs ++ ys) ≡ bytes_if c xs ++ bytes_if c ys
bytes_if-append true xs ys = refl
bytes_if-append false xs ys = refl

-- The options in the order in which they are read.
options_split :
    (p : ConnectPacket)
    → options p
      ≡ bytes_if p.has_will (buffer_bytes p.will_topic)
        ++ (bytes_if p.has_will (buffer_bytes p.will_message)
            ++ (bytes_if p.has_username (buffer_bytes p.username)
                ++ bytes_if p.has_password (buffer_bytes p.password)))
options_split p =
    ap
      (λ (t : List ℕ).
        t
        ++ (bytes_if p.has_username (buffer_bytes p.username)
            ++ bytes_if p.has_password (buffer_bytes p.password)))
      (bytes_if-append p.has_will (buffer_bytes p.will_topic) (buffer_bytes p.will_message))
    ∙ append_assoc (bytes_if p.has_will (buffer_bytes p.will_topic)) _ _

module _ (io : ByteOps) (law : IsByteOps io) where
  option-Reads :
      (c : Bool) (old bs : List ℕ)
      → Fits bs
      → Reads
          (get_if c (decode_buffer io) old)
          (bytes_if c (buffer_bytes bs))
          (if c then bs else old)
  option-Reads c old bs h =
      get_if-Reads c (decode_buffer io) old (buffer_bytes bs) bs (decode_buffer-Reads io law bs h)

  payload-Reads :
      (p old : ConnectPacket)
      → IsConnect p
      → Reads
          (connect_decode_payload io (announced old p))
          (buffer_bytes p.client_identifier ++ options p)
          (merged old p)
  unfolding connect_decode_payload bad_credentials
  payload-Reads p old v rest =
      let topic : List ℕ = bytes_if p.has_will (buffer_bytes p.will_topic) in
      let message : List ℕ = bytes_if p.has_will (buffer_bytes p.will_message) in
      let user : List ℕ = bytes_if p.has_username (buffer_bytes p.username) in
      let pass : List ℕ = bytes_if p.has_password (buffer_bytes p.password) in
      rw
        (
          append_assoc (buffer_bytes p.client_identifier) (options p) rest,
          options_split p,
          append_assoc topic (message ++ (user ++ pass)) rest,
          append_assoc message (user ++ pass) rest,
          append_assoc user pass rest,
        )
        (>>=-ok (decode_buffer io) _ (decode_buffer-Reads io law p.client_identifier v.id_fits _)
          ∙ >>=-ok (get_if p.has_will (decode_buffer io) old.will_topic) _
              (option-Reads p.has_will old.will_topic p.will_topic v.topic_fits _)
          ∙ >>=-ok (get_if p.has_will (decode_buffer io) old.will_message) _
              (option-Reads p.has_will old.will_message p.will_message v.message_fits _)
          ∙ >>=-ok (get_if p.has_username (decode_buffer io) old.username) _
              (option-Reads p.has_username old.username p.username v.username_fits _)
          ∙ >>=-ok (get_if p.has_password (decode_buffer io) old.password) _
              (option-Reads p.has_password old.password p.password v.password_fits rest)
          ∙ checked-Reads _ _ _ v.credentials_ok rest)

  flagged-Reads :
      (p old : ConnectPacket)
      → IsConnect p
      → Reads
          (connect_decode_payload io (
            set_connect_flags (connect_flags p) (record old {
              fixed_header = p.fixed_header;
              keep_alive_timeout = p.keep_alive_timeout;
            })))
          (buffer_bytes p.client_identifier ++ options p)
          (merged old p)
  flagged-Reads p old v = rw (set_connect_flags_lem p old v.will_qos_lt) (payload-Reads p old v)

  -- The decoder reads back what the encoder writes.
  pub connect_decode-Reads :
      (p old : ConnectPacket)
      → IsConnect p
      → Reads (connect_decode io old) (connect_bytes p) (merged old p)
  unfolding connect_decode connect_bytes bytes_eq check_protocol_level
  connect_decode-Reads p old v =
      packet-Reads io law _ p.fixed_header old.fixed_header (connect_body p) (merged old p)
        v.header_ok (v.remaining ∙ sym (length-connect_body p))
        (λ rest.
          let payload : List ℕ = (buffer_bytes p.client_identifier ++ options p) ++ rest in
          let timed : List ℕ = be16 p.keep_alive_timeout ++ payload in
          >>=-ok (raising short_buffer (decode_buffer io)) _ (
            raising-Reads short_buffer (decode_buffer io) (buffer_bytes protocol_name) protocol_name
              (decode_buffer-Reads io law protocol_name (omega arith))
              (protocol_level ∷ connect_flags p ∷ timed))
          ∙ >>=-ok (get_slice io 1) _
              (get_slice-Reads io law (protocol_level ∷ []) (omega arith) (connect_flags p ∷ timed))
          ∙ >>=-ok (get_u8 io) _ (get_u8-Reads io law (connect_flags p) timed)
          ∙ >>=-ok (get_be16 io) _ (get_be16-Reads io law p.keep_alive_timeout payload)
          ∙ flagged-Reads p old v rest)
