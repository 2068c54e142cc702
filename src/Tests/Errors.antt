-- ===== src/Tests/Errors.antt =====
-- What the decoders do where the bytes are not those of an encoder, at concrete bytes.
use aws_c_mqtt.Base.{[], ◌∷◌, ◌++◌, arith, false, true}
use aws_c_mqtt.Bytes.Simple.{simple, simple-IsByteOps}
use aws_c_mqtt.FixedHeader.{FixedHeader, zero_header, bad_flags, has_flags}
use aws_c_mqtt.FixedHeader.Wire.{IsHeader, header_bytes, length_bytes}
use aws_c_mqtt.FixedHeader.RoundTrip.{fixed_header_decode-header_bytes}
use aws_c_mqtt.FixedHeader.Decode.{Accepted, fixed_header_decode-Accepted}
use aws_c_mqtt.Packets.Publish.{PublishPacket, publish_init, publish_flags}
use aws_c_mqtt.Tests.{subscribe_header, subscribe_header-IsHeader}

abbrev empty_publish : PublishPacket
unfolding publish_init publish_flags
empty_publish = publish_init true 1 false (97 ∷ []) 513 []

-- A CONNACK header with a flag.
abbrev flagged : FixedHeader
flagged = record { packet_type = 8; remaining_length = 2; flags = 3 }

flagged-IsHeader : IsHeader flagged
unfolding bad_flags has_flags
flagged-IsHeader = ground arith

fixed_header_decode-Accepted_example :
    Accepted
      (header_bytes subscribe_header ++ (7 ∷ []))
      (record { cur = 7 ∷ []; header = subscribe_header })
fixed_header_decode-Accepted_example =
    fixed_header_decode-Accepted simple simple-IsByteOps (header_bytes subscribe_header ++ (7 ∷ []))
      zero_header (record { cur = 7 ∷ []; header = subscribe_header })
      (unfold header_bytes length_bytes in ground arith)
      (fixed_header_decode-header_bytes simple simple-IsByteOps subscribe_header zero_header
        (7 ∷ []) subscribe_header-IsHeader (omega arith))
