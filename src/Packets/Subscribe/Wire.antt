-- ===== src/Packets/Subscribe/Wire.antt =====
-- What a SUBSCRIBE is on the wire, and that `aws_mqtt_packet_subscribe_encode` writes it.
use aws_c_mqtt.Base.{
  ℕ, ◌+◌, ◌%◌, ◌^◌, ◌≤◌, ◌≡◌, refl, subst, ◌⊎◌, ◌∙◌, true, List, [], ◌∷◌, ◌++◌, none, some, length,
  length-append, bit_and, arith, All, All-append, ◌<◌,
}
use aws_c_mqtt.Base.Bits.{bit_and_3}
use aws_c_mqtt.Bytes.{ByteBuf, ByteOps, IsByteOps, ok, be16, append, >>=-ok}
use aws_c_mqtt.Bytes.Encoder.{put_u8-Writes, put_be16-Writes}
use aws_c_mqtt.FixedHeader.{bad_flags, has_flags}
use aws_c_mqtt.FixedHeader.Wire.{IsHeader, header_bytes, fixed_header_encode-Writes}
use aws_c_mqtt.Packets.Field.{
  grow, sizeof_encoded_buffer, encode_buffer, buffer_bytes, Fits, encode_buffer-Writes,
  encode_buffer_too_big,
}
use aws_c_mqtt.Packets.Filters.{ArrayOps, IsArrayOps, ignoring}
use aws_c_mqtt.Packets.Filters.Laws.{
  Emits, Emits-ignoring, length-wire_all_snoc, Writes→Emits, Emits->>, wire_all, encode_each-Emits,
}
use aws_c_mqtt.Packets.Subscribe.{
  Subscription, SubscribePacket, subscribe_init, subscribe_add_topic, encode_subscription,
  subscribe_encode,
}

-- A subscription that both routines take.
pub record IsSubscription (s : Subscription) : Type 0 where
  pub filter_fits : Fits s.topic_filter
  pub qos_lt : s.qos < 3

abbrev pub subscription_bytes : Subscription → List ℕ
subscription_bytes s = buffer_bytes s.topic_filter ++ (s.qos ∷ [])

abbrev pub subscribe_body : SubscribePacket → List ℕ
subscribe_body p = be16 p.packet_identifier ++ wire_all subscription_bytes p.topic_filters

pub record IsSubscribe (p : SubscribePacket) : Type 0 where
  pub header_ok : IsHeader p.fixed_header
  pub id_lt : p.packet_identifier < 65536
  pub filters_ok : All IsSubscription p.topic_filters
  pub remaining : p.fixed_header.remaining_length ≡ length (subscribe_body p)

unfoldable pub subscribe_bytes : SubscribePacket → List ℕ
subscribe_bytes p = header_bytes p.fixed_header ++ subscribe_body p

module _ (io : ByteOps) (law : IsByteOps io) where
  encode_subscription-Emits :
      (s : Subscription)
      → IsSubscription s
      → Emits (encode_subscription io s) (subscription_bytes s)
  unfolding encode_subscription
  encode_subscription-Emits s v =
      let e : bit_and s.qos 3 ≡ s.qos = omega (arith, bit_and_3 s.qos, v.qos_lt) in
      rw e (
        Emits->> _ _ (buffer_bytes s.topic_filter) (s.qos ∷ [])
          (Emits-ignoring _ _
            (Writes→Emits _ _ (encode_buffer-Writes io law s.topic_filter v.filter_fits)))
          (Writes→Emits _ _ (put_u8-Writes io law s.qos (omega (arith, v.qos_lt)))))

  each-Emits :
      (xs : List Subscription)
      → All IsSubscription xs
      → All (λ s. Emits (encode_subscription io s) (subscription_bytes s)) xs
  each-Emits [] h = tt
  each-Emits (s ∷ xs) h = (encode_subscription-Emits s h.0, each-Emits xs h.1)

  pub subscribe_encode-Emits :
      (p : SubscribePacket) → IsSubscribe p → Emits (subscribe_encode io p) (subscribe_bytes p)
  unfolding subscribe_encode subscribe_bytes
  subscribe_encode-Emits p v =
      Emits->> _ _ (header_bytes p.fixed_header) (subscribe_body p)
        (Writes→Emits _ _ (fixed_header_encode-Writes io law p.fixed_header v.header_ok))
        (Emits->> _ _ (be16 p.packet_identifier) _
          (Writes→Emits _ _ (put_be16-Writes io law p.packet_identifier v.id_lt))
          (encode_each-Emits (encode_subscription io) subscription_bytes p.topic_filters
            (each-Emits p.topic_filters v.filters_ok)))

  -- A filter of 65536 bytes or more: nothing of it is written, not even its length, its QoS byte is
  -- if the buffer has room for it, and no error is reported.
  pub encode_subscription_too_big :
      (s : Subscription) (b : ByteBuf)
      → 65536 ≤ length s.topic_filter
      → s.qos < 4
      → length b.buffer + 1 ≤ b.capacity
      → encode_subscription io s b ≡ ok tt (append b (s.qos ∷ []))
  unfolding encode_subscription
  encode_subscription_too_big s b h hq room =
      let e : bit_and s.qos 3 ≡ s.qos = omega (arith, bit_and_3 s.qos) in
      rw e (
        >>=-ok (ignoring (encode_buffer io s.topic_filter)) _
          (rw (encode_buffer_too_big io law s.topic_filter b h, ignoring) refl)
        ∙ Writes→Emits _ _ (put_u8-Writes io law s.qos (omega arith)) b room)

-- The packet that `aws_mqtt_packet_subscribe_init` makes where the array list gets its memory.
pub subscribe_init-IsSubscribe :
    (id : ℕ) (old : SubscribePacket)
    → id < 65536
    → (p : SubscribePacket) × (subscribe_init true id old ≡ ok tt p)
      × IsSubscribe p
      × (p.topic_filters ≡ [])
unfolding subscribe_init bad_flags has_flags
subscribe_init-IsSubscribe id old h = (_, refl, ground arith, refl)

abbrev with_topic : SubscribePacket → Subscription → SubscribePacket
with_topic p s = record p {
  fixed_header = grow p.fixed_header ((sizeof_encoded_buffer s.topic_filter + 1) % 2 ^ 64);
  topic_filters = p.topic_filters ++ (s ∷ []);
}

with_topic-IsSubscribe :
    (p : SubscribePacket) (s : Subscription)
    → IsSubscribe p
    → IsSubscription s
    → p.fixed_header.remaining_length + 3 + length s.topic_filter < 2 ^ 28
    → IsSubscribe (with_topic p s)
unfolding bad_flags has_flags
with_topic-IsSubscribe p s v h small =
    let n = length-wire_all_snoc subscription_bytes p.topic_filters s in
    let k = length-append s.topic_filter (s.qos ∷ []) in
    record {
      header_ok = ground (arith, v.header_ok.type_lt, v.header_ok.flags_lt, v.header_ok.flags_ok);
      id_lt = v.id_lt;
      filters_ok = All-append IsSubscription p.topic_filters (s ∷ []) v.filters_ok (h, tt);
      remaining = omega (arith, n, k, v.remaining, v.header_ok.remaining_lt);
    }

-- A filter below 65536 bytes with a QoS below 3 that is added to a well-formed SUBSCRIBE, over an array
-- list that appends or fails: where the call succeeds and the remaining length stays below 2 ^ 28,
-- the filter stands behind the others, and the remaining length is the number of bytes that are
-- written behind the fixed header.
pub subscribe_add_topic-IsSubscribe :
    (array : ArrayOps Subscription) (p q : SubscribePacket) (topic_filter : List ℕ) (qos : ℕ)
    → IsArrayOps array
    → IsSubscribe p
    → Fits topic_filter
    → qos < 3
    → p.fixed_header.remaining_length + 3 + length topic_filter < 2 ^ 28
    → subscribe_add_topic array topic_filter qos p ≡ ok tt q
    → IsSubscribe q
      × (q.topic_filters
          ≡ p.topic_filters ++ (record { topic_filter = topic_filter; qos = qos } ∷ []))
subscribe_add_topic-IsSubscribe array p q topic_filter qos law v hf hq small e =
    subst (λ (r : SubscribePacket). IsSubscribe r × (r.topic_filters ≡ p.topic_filters ++ (s ∷ [])))
      (added (law.push_back_lem p.topic_filters s))
      (with_topic-IsSubscribe p s v (record { filter_fits = hf; qos_lt = hq }) small, refl)
  where
    s : Subscription
    s = record { topic_filter = topic_filter; qos = qos }

    added :
        (array.push_back p.topic_filters s ≡ none)
          ⊎ (array.push_back p.topic_filters s ≡ some (p.topic_filters ++ (s ∷ [])))
        → with_topic p s ≡ q
    added c = unfold subscribe_add_topic in ground (arith, e, c)
