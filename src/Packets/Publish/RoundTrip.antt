-- ===== src/Packets/Publish/RoundTrip.antt =====
-- What a PUBLISH is on the wire, and that it is read back; the packet with no payload, which is
-- written and not read.
use aws_c_mqtt.Base.{
  ℕ, ◌+◌, ◌*◌, ◌/◌, ◌^◌, ◌<◌, ◌≡◌, refl, ◌∙◌, ◌⊎◌, Bool, true, false, List, [], ◌++◌, to_bit, ◌==◌,
  ltb, if◌then◌else◌, length, length-append, arith, append_assoc,
}
use aws_c_mqtt.Base.Bits.{bit_and_3, publish_fields}
use aws_c_mqtt.Bytes.{
  ByteOps, IsByteOps, Cursor, err, ◌>>◌, return, raise_if, short_buffer, be16, >>=-ok,
}
use aws_c_mqtt.Bytes.Encoder.{
  bytes_if, Writes, Writes->>, put_if-Writes, put_be16-Writes, put_bytes-Writes,
}
use aws_c_mqtt.Bytes.Decoder.{Reads, get_slice, get_be16-Reads, get_slice-Reads}
use aws_c_mqtt.FixedHeader.{bad_flags, has_flags}
use aws_c_mqtt.FixedHeader.Wire.{IsHeader, header_bytes, fixed_header_encode-Writes}
use aws_c_mqtt.Packets.Field.{
  decode_header, decode_header-Reads, decode_buffer, buffer_bytes, Fits, encode_buffer-Writes,
  decode_buffer-Reads,
}
use aws_c_mqtt.Packets.Publish.{
  PublishPacket, publish_flags, publish_qos, publish_init, publish_encode_headers, publish_encode,
  get_identifier, publish_decode, payload_size,
}

abbrev with_identifier : PublishPacket → Bool
with_identifier p = ltb 0 (publish_qos p.fixed_header)

-- A packet that is written as it stands. Without QoS there is no identifier on the wire.
pub record IsPublish (p : PublishPacket) : Type 0 where
  pub header_ok : IsHeader p.fixed_header
  pub topic_fits : Fits p.topic_name
  pub id_lt : p.packet_identifier < 65536
  pub id_or_none : (with_identifier p ≡ true) ⊎ (p.packet_identifier ≡ 0)
  pub remaining :
      p.fixed_header.remaining_length
      ≡ 2 + length p.topic_name + (if with_identifier p then 2 else 0) + length p.payload

abbrev variable_header : PublishPacket → List ℕ
variable_header p =
    buffer_bytes p.topic_name ++ bytes_if (with_identifier p) (be16 p.packet_identifier)

unfoldable pub publish_bytes : PublishPacket → List ℕ
publish_bytes p = (header_bytes p.fixed_header ++ variable_header p) ++ p.payload

module _ (io : ByteOps) (law : IsByteOps io) where
  publish_encode_headers-Writes :
      (p : PublishPacket)
      → IsPublish p
      → Writes (publish_encode_headers io p) (header_bytes p.fixed_header ++ variable_header p)
  unfolding publish_encode_headers
  publish_encode_headers-Writes p v =
      Writes->> _ _ (header_bytes p.fixed_header) (variable_header p)
        (fixed_header_encode-Writes io law p.fixed_header v.header_ok)
        (Writes->> _ _ (buffer_bytes p.topic_name) _
          (encode_buffer-Writes io law p.topic_name v.topic_fits)
          (put_if-Writes (with_identifier p) _ (be16 p.packet_identifier)
            (λ _. put_be16-Writes io law p.packet_identifier v.id_lt)))

  pub publish_encode-Writes :
      (p : PublishPacket) → IsPublish p → Writes (publish_encode io p) (publish_bytes p)
  unfolding publish_encode publish_bytes
  publish_encode-Writes p v =
      Writes->> _ _ (header_bytes p.fixed_header ++ variable_header p) p.payload
        (publish_encode_headers-Writes p v) (put_bytes-Writes io law p.payload)

  get_identifier-Reads :
      (p : PublishPacket)
      → IsPublish p
      → Reads
          (get_identifier io (publish_qos p.fixed_header))
          (bytes_if (with_identifier p) (be16 p.packet_identifier))
          p.packet_identifier
  unfolding get_identifier
  get_identifier-Reads p v rest =
      ground (arith, get_be16-Reads io law p.packet_identifier rest, v.id_or_none)

  payload_size-IsPublish :
      (p : PublishPacket)
      → IsPublish p
      → payload_size p.fixed_header p.topic_name ≡ length p.payload
  unfolding payload_size
  payload_size-IsPublish p v = ground (arith, v.remaining, v.topic_fits, v.header_ok.remaining_lt)

  payload-Reads :
      (p : PublishPacket)
      → IsPublish p
      → Reads (get_slice io (payload_size p.fixed_header p.topic_name)) p.payload p.payload
  payload-Reads p v =
      rw (payload_size-IsPublish p v)
        (get_slice-Reads io law p.payload (omega (arith, v.remaining, v.header_ok.remaining_lt)))

  -- Everything but the check of the payload's length.
  publish_decode_chain :
      (p old : PublishPacket) (rest : Cursor)
      → IsPublish p
      → publish_decode io old (publish_bytes p ++ rest)
        ≡ (raise_if (length p.payload == 0) short_buffer >> return p) rest
  unfolding publish_decode publish_bytes
  publish_decode_chain p old rest v =
      let id_bytes : List ℕ = bytes_if (with_identifier p) (be16 p.packet_identifier) in
      rw
        (
          append_assoc (header_bytes p.fixed_header ++ variable_header p) p.payload rest,
          append_assoc (header_bytes p.fixed_header) (variable_header p) (p.payload ++ rest),
          append_assoc (buffer_bytes p.topic_name) id_bytes (p.payload ++ rest),
        )
        (>>=-ok (decode_header io old.fixed_header) _ (
            decode_header-Reads io law p.fixed_header old.fixed_header _ v.header_ok (
              ground (
                arith,
                length-append p.topic_name (id_bytes ++ (p.payload ++ rest)),
                length-append id_bytes (p.payload ++ rest),
                length-append p.payload rest,
                v.remaining,
              )))
          ∙ >>=-ok (decode_buffer io) _ (decode_buffer-Reads io law p.topic_name v.topic_fits _)
          ∙ >>=-ok (get_identifier io (publish_qos p.fixed_header)) _ (get_identifier-Reads p v _)
          ∙ >>=-ok (get_slice io (payload_size p.fixed_header p.topic_name)) _
              (payload-Reads p v rest))

  -- A PUBLISH with a payload is read back as it was written.
  pub publish_decode-Reads :
      (p old : PublishPacket)
      → IsPublish p
      → 0 < length p.payload
      → Reads (publish_decode io old) (publish_bytes p) p
  publish_decode-Reads p old v h rest = publish_decode_chain p old rest v ∙ ground arith

  -- The bytes of a well-formed PUBLISH with no payload are refused by the decoder, with
  -- AWS_ERROR_SHORT_BUFFER.
  pub publish_decode_no_payload :
      (p old : PublishPacket) (rest : Cursor)
      → IsPublish p
      → p.payload ≡ []
      → publish_decode io old (publish_bytes p ++ rest) ≡ err short_buffer rest
  publish_decode_no_payload p old rest v e = publish_decode_chain p old rest v ∙ rw e refl

to_bit-lt_two : (b : Bool) → to_bit b < 2
to_bit-lt_two true = omega arith
to_bit-lt_two false = omega arith

pub publish_flags_lem :
    (retain : Bool) (qos : ℕ) (dup : Bool)
    → qos < 4
    → publish_flags retain qos dup ≡ to_bit retain + qos * 2 + to_bit dup * 8
unfolding publish_flags
publish_flags_lem retain qos dup h =
    publish_fields (to_bit retain) qos (to_bit dup) (to_bit-lt_two retain) h (to_bit-lt_two dup)

-- The QoS that a packet was made with is the one that its flags hold.
pub publish_qos-publish_init :
    (retain : Bool) (qos : ℕ) (dup : Bool) (topic : List ℕ) (id : ℕ) (payload : List ℕ)
    → qos < 4
    → publish_qos (publish_init retain qos dup topic id payload).fixed_header ≡ qos
unfolding publish_qos publish_init
publish_qos-publish_init retain qos dup topic id payload h =
    rw (publish_flags_lem retain qos dup h) (
      omega (
        arith,
        bit_and_3 ((to_bit retain + qos * 2 + to_bit dup * 8) / 2)
            (omega (arith, to_bit-lt_two retain, to_bit-lt_two dup)),
        to_bit-lt_two retain,
        to_bit-lt_two dup,
      ))

-- What `aws_mqtt_packet_publish_init` makes can be written, and announces its own length.
pub publish_init-IsPublish :
    (retain : Bool) (qos : ℕ) (dup : Bool) (topic : List ℕ) (id : ℕ) (payload : List ℕ)
    → qos < 4
    → Fits topic
    → id < 65536
    → (0 < qos) ⊎ (id ≡ 0)
    → length topic + length payload + 4 < 2 ^ 28
    → IsPublish (publish_init retain qos dup topic id payload)
unfolding publish_init bad_flags has_flags
publish_init-IsPublish retain qos dup topic id payload hq ht hid ho hl =
    let q = publish_qos-publish_init retain qos dup topic id payload hq in
    let f = publish_flags_lem retain qos dup hq in
    record {
      header_ok = record {
        type_lt = omega arith;
        flags_lt = omega (arith, f, to_bit-lt_two retain, to_bit-lt_two dup);
        remaining_lt = ground arith;
        flags_ok = ground arith;
      };
      topic_fits = ht;
      id_lt = hid;
      id_or_none = ground (arith, q);
      remaining = ground (arith, q);
    }
