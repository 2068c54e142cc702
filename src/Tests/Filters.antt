-- ===== src/Tests/Filters.antt =====
-- SUBSCRIBE and UNSUBSCRIBE at concrete packets.
use aws_c_mqtt.Base.{
  ℕ, zero, suc, ◌+◌, ◌≤◌, ◌≡◌, refl, inr, List, [], ◌∷◌, ◌++◌, length, arith, All,
}
use aws_c_mqtt.Bytes.{Cursor, ok, append, IsByte}
use aws_c_mqtt.Bytes.Simple.{simple, simple-IsByteOps}
use aws_c_mqtt.FixedHeader.{bad_flags, has_flags}
use aws_c_mqtt.FixedHeader.Wire.{header_bytes, length_bytes}
use aws_c_mqtt.Packets.Filters.{IsArrayOps, growing}
use aws_c_mqtt.Packets.Subscribe.{SubscribePacket, subscribe_encode, subscribe_decode}
use aws_c_mqtt.Packets.Subscribe.Wire.{IsSubscribe, subscribe_bytes}
use aws_c_mqtt.Packets.Subscribe.Decode.{subscribe_decode_takes, subscribe_decode-Reads}
use aws_c_mqtt.Packets.Unsubscribe.{UnsubscribePacket, unsubscribe_encode, unsubscribe_decode}
use aws_c_mqtt.Packets.Unsubscribe.Laws.{IsUnsubscribe, unsubscribe_bytes}
use aws_c_mqtt.Packets.RoundTrips.{subscribe_round_trip, unsubscribe_round_trip}
use aws_c_mqtt.Tests.{empty_buffer}

growing-IsArrayOps : {A : Type 0} → IsArrayOps {A = A} growing
growing-IsArrayOps = record { push_back_lem = λ xs x. inr refl }

abbrev two_filters : SubscribePacket
two_filters = record {
  fixed_header = record { packet_type = 8; remaining_length = 10; flags = 2 };
  packet_identifier = 7;
  topic_filters =
      record { topic_filter = 97 ∷ []; qos = 1 } ∷ record { topic_filter = 98 ∷ []; qos = 2 } ∷ [];
}

abbrev no_filters : SubscribePacket
no_filters = record {
  fixed_header = record { packet_type = 8; remaining_length = 2; flags = 2 };
  packet_identifier = 7;
  topic_filters = [];
}

two_filters-IsSubscribe : IsSubscribe two_filters
unfolding bad_flags has_flags
two_filters-IsSubscribe = ground arith

no_filters-IsSubscribe : IsSubscribe no_filters
unfolding bad_flags has_flags
no_filters-IsSubscribe = ground arith

subscribe_round_trip_example :
    (subscribe_encode simple two_filters empty_buffer
      ≡ ok tt (append empty_buffer (subscribe_bytes two_filters)))
    × (subscribe_decode simple growing no_filters (subscribe_bytes two_filters ++ (1 ∷ []))
        ≡ ok two_filters (1 ∷ []))
subscribe_round_trip_example =
    subscribe_round_trip simple simple-IsByteOps two_filters no_filters empty_buffer (1 ∷ [])
      two_filters-IsSubscribe (unfold subscribe_bytes header_bytes length_bytes in omega arith)

-- The packet that takes one filter.
abbrev one_filter : SubscribePacket
one_filter = record {
  fixed_header = record { packet_type = 8; remaining_length = 6; flags = 2 };
  packet_identifier = 7;
  topic_filters = record { topic_filter = 97 ∷ []; qos = 1 } ∷ [];
}

-- One byte behind a SUBSCRIBE.
abbrev subscribe_input : Cursor
unfolding subscribe_bytes
subscribe_input = subscribe_bytes two_filters ++ (99 ∷ [])

subscribe_input-IsByte : All IsByte subscribe_input
unfolding subscribe_input subscribe_bytes header_bytes length_bytes
subscribe_input-IsByte = ground arith

subscribe_decode_takes_example :
    (pre : List ℕ) × (mid : List ℕ) × (subscribe_input ≡ pre ++ mid)
    × (2 ≤ length pre)
    × (length pre ≤ 5)
    × (length mid ≡ 1 + two_filters.fixed_header.remaining_length)
unfolding subscribe_input subscribe_bytes header_bytes length_bytes
subscribe_decode_takes_example =
    subscribe_decode_takes simple simple-IsByteOps growing no_filters two_filters subscribe_input
      (99 ∷ []) subscribe_input-IsByte (omega arith)
      (subscribe_decode-Reads simple simple-IsByteOps two_filters no_filters two_filters-IsSubscribe
        (99 ∷ []))

abbrev unsubscribe_two : UnsubscribePacket
unsubscribe_two = record {
  fixed_header = record { packet_type = 10; remaining_length = 8; flags = 2 };
  packet_identifier = 7;
  topic_filters = (97 ∷ []) ∷ (98 ∷ []) ∷ [];
}

abbrev unsubscribe_none : UnsubscribePacket
unsubscribe_none = record {
  fixed_header = record { packet_type = 10; remaining_length = 2; flags = 2 };
  packet_identifier = 7;
  topic_filters = [];
}

unsubscribe_two-IsUnsubscribe : IsUnsubscribe unsubscribe_two
unfolding bad_flags has_flags
unsubscribe_two-IsUnsubscribe = ground arith

unsubscribe_none-IsUnsubscribe : IsUnsubscribe unsubscribe_none
unfolding bad_flags has_flags
unsubscribe_none-IsUnsubscribe = ground arith

unsubscribe_round_trip_example :
    (unsubscribe_encode simple unsubscribe_two empty_buffer
      ≡ ok tt (append empty_buffer (unsubscribe_bytes unsubscribe_two)))
    × (unsubscribe_decode simple growing unsubscribe_none
          (unsubscribe_bytes unsubscribe_two ++ (1 ∷ []))
        ≡ ok unsubscribe_two (1 ∷ []))
unsubscribe_round_trip_example =
    unsubscribe_round_trip simple simple-IsByteOps unsubscribe_two unsubscribe_none empty_buffer
      (1 ∷ []) unsubscribe_two-IsUnsubscribe
      (unfold unsubscribe_bytes header_bytes length_bytes in omega arith)

abbrev unsubscribe_input : Cursor
unfolding unsubscribe_bytes
unsubscribe_input = unsubscribe_bytes unsubscribe_two ++ (99 ∷ [])

unsubscribe_input-IsByte : All IsByte unsubscribe_input
unfolding unsubscribe_input unsubscribe_bytes header_bytes length_bytes
unsubscribe_input-IsByte = ground arith

abbrev unsubscribe_one : UnsubscribePacket
unsubscribe_one = record {
  fixed_header = record { packet_type = 10; remaining_length = 5; flags = 2 };
  packet_identifier = 7;
  topic_filters = (97 ∷ []) ∷ [];
}

abbrev many : ℕ → List ℕ
many zero = []
many (suc n) = 97 ∷ many n

length-many : (n : ℕ) → length (many n) ≡ n
length-many zero = refl
length-many (suc n) = omega (arith, length-many n)
