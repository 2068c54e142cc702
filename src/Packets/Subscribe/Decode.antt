-- ===== src/Packets/Subscribe/Decode.antt =====
-- A SUBSCRIBE is read back, and the reading of one from any bytes.
use aws_c_mqtt.Base.{
  ℕ, suc, ◌+◌, ◌/◌, ◌^◌, ◌<◌, ◌≤◌, ◌≡◌, ◌≢◌, ap, ◌∙◌, not, List, [], ◌∷◌, ◌++◌, ◌==◌, length,
  length-append, bit_and, arith, All, append_assoc,
}
use aws_c_mqtt.Base.Bits.{bit_and_3}
use aws_c_mqtt.Bytes.{
  ByteOps, IsByteOps, Cursor, invalid_reserved_bits, invalid_qos, ok, err, ◌>>◌, return,
  IsTotal-return, raise_if, out_of_fuel, >>=-ok, >>=-eq-ok, >>=-ne-err, IsByte,
  invalid_reserved_bits, invalid_qos,
}
use aws_c_mqtt.Bytes.Decoder.{
  Reads, get_u8, get_be16, get_u8-Reads, get_be16-Reads, get_u8_inv, get_be16_inv, get_be16-IsTotal,
  get_slice,
}
use aws_c_mqtt.FixedHeader.{FixedHeader}
use aws_c_mqtt.Packets.Field.{
  decode_header, decode_buffer, buffer_bytes, decode_buffer-Reads, decode_buffer_inv, packet-Reads,
  decode_header_inv, decode_header-IsTotal,
}
use aws_c_mqtt.Packets.Filters.{ArrayOps, growing, decode_filters}
use aws_c_mqtt.Packets.Filters.Laws.{
  wire_all, IsSized, decode_filters-ne-out_of_fuel, decode_filters_takes, decode_filters-Reads,
}
use aws_c_mqtt.Packets.Subscribe.{
  Subscription, SubscribePacket, decode_subscription, subscription_size, subscribe_decode,
}
use aws_c_mqtt.Packets.Subscribe.Wire.{
  IsSubscription, IsSubscribe, subscription_bytes, subscribe_body, subscribe_bytes,
}

abbrev with_filters : FixedHeader → ℕ → List Subscription → SubscribePacket
with_filters h id fs = record { fixed_header = h; packet_identifier = id; topic_filters = fs }

with_filters_inv :
    (h : FixedHeader) (id : ℕ) (fs : List Subscription) (u : Cursor) (p : SubscribePacket)
    (t : Cursor)
    → return (with_filters h id fs) u ≡ ok p t
    → (h ≡ p.fixed_header) × (u ≡ t)
with_filters_inv h id fs u p t e = ground arith

module _ (io : ByteOps) (law : IsByteOps io) where
  decode_subscription-Reads :
      (s : Subscription)
      → IsSubscription s
      → Reads (decode_subscription io) (subscription_bytes s) s
  unfolding decode_subscription
  decode_subscription-Reads s v rest =
      rw (append_assoc (buffer_bytes s.topic_filter) (s.qos ∷ []) rest) (
        >>=-ok (decode_buffer io) _
          (decode_buffer-Reads io law s.topic_filter v.filter_fits (s.qos ∷ rest))
        ∙ >>=-ok (get_u8 io) _ (get_u8-Reads io law s.qos rest)
        ∙ ground (arith, bit_and_3 s.qos, v.qos_lt))

  each-Reads :
      (xs : List Subscription)
      → All IsSubscription xs
      → All
          (λ s.
            Reads (decode_subscription io) (subscription_bytes s) s
            × (subscription_size s ≡ length (subscription_bytes s))
            × (1 ≤ subscription_size s))
          xs
  unfolding subscription_size
  each-Reads [] h = tt
  each-Reads (s ∷ xs) (v, h) =
      let n = length-append s.topic_filter (s.qos ∷ []) in
      (
        (
          decode_subscription-Reads s v,
          omega (arith, n, v.filter_fits),
          omega (arith, v.filter_fits),
        ),
        each-Reads xs h,
      )

  subscription_sized :
      (cur : Cursor) (s : Subscription) (rest : Cursor)
      → decode_subscription io cur ≡ ok s rest
      → length cur < 2 ^ 63
      → (length cur ≡ length rest + subscription_size s) × (1 ≤ subscription_size s)
  unfolding decode_subscription subscription_size
  subscription_sized cur s rest e hl =
      let (bs, mid, f, g) = >>=-eq-ok (decode_buffer io) _ cur e in
      let (x, y, ec) = decode_buffer_inv io law cur bs mid f hl in
      let (eos, t, f', g') = >>=-eq-ok (get_u8 io) _ mid g in
      let et = get_u8_inv io law mid eos t f' in
      let n : length cur ≡ 2 + length bs + suc (length t) =
        omega (arith, ap length ec, length-append bs mid, ap length et) in
      let (es, er) = last_part eos bs t s rest g' in
      (omega (arith, n, ap length es, ap length er), omega (arith, n, ap length es, ap length er))
    where
      last_part :
          (eos : ℕ) (bs : List ℕ) (t : Cursor) (s : Subscription) (rest : Cursor)
          → (raise_if (not (eos / 4 == 0)) invalid_reserved_bits
                >> (raise_if (eos == 3) invalid_qos
                    >> return (record { topic_filter = bs; qos = bit_and eos 3 })))
              t
            ≡ ok s rest
          → (bs ≡ s.topic_filter) × (t ≡ rest)
      last_part eos bs t s rest e = ground arith

  subscription_has_fuel : (cur rest : Cursor) → decode_subscription io cur ≢ err out_of_fuel rest
  unfolding decode_subscription decode_buffer get_u8 get_be16 get_slice
  subscription_has_fuel cur rest e = ground arith

  pub subscription-IsSized : IsSized (decode_subscription io) subscription_size
  subscription-IsSized = record { takes = subscription_sized; has_fuel = subscription_has_fuel }

  -- What the encoder wrote is read back, behind the filters that the packet held before.
  pub subscribe_decode-Reads :
      (p old : SubscribePacket)
      → IsSubscribe p
      → Reads
          (subscribe_decode io growing old)
          (subscribe_bytes p)
          (record p { topic_filters = old.topic_filters ++ p.topic_filters })
  unfolding subscribe_decode subscribe_bytes
  subscribe_decode-Reads p old v =
      let filters : List ℕ = wire_all subscription_bytes p.topic_filters in
      packet-Reads io law _ p.fixed_header old.fixed_header (subscribe_body p) _ v.header_ok
        v.remaining
        (λ rest.
          >>=-ok (get_be16 io) _ (get_be16-Reads io law p.packet_identifier (filters ++ rest))
          ∙ >>=-ok
              (decode_filters growing (decode_subscription io) subscription_size p.fixed_header
                old.topic_filters)
              _
              (decode_filters-Reads (decode_subscription io) subscription_size subscription_bytes
                p.topic_filters old.topic_filters p.fixed_header
                (each-Reads p.topic_filters v.filters_ok) (omega (arith, v.remaining))
                (omega (arith, v.header_ok.remaining_lt)) rest))

  -- On any bytes, fewer than 2 ^ 63, the decoder of SUBSCRIBE ends: its loop over the filters does not run
  -- out of fuel.
  pub subscribe_decode-ne-out_of_fuel :
      (array : ArrayOps Subscription) (old : SubscribePacket) (cur t : Cursor)
      → All IsByte cur
      → length cur < 2 ^ 63
      → subscribe_decode io array old cur ≢ err out_of_fuel t
  unfolding subscribe_decode
  subscribe_decode-ne-out_of_fuel array old cur t hb hl =
      >>=-ne-err (decode_header io old.fixed_header) _ cur out_of_fuel
        (decode_header-IsTotal io law old.fixed_header cur t)
        λ h mid e.
          let (pre, ec, _, _, _, _) = decode_header_inv io law old.fixed_header h cur mid hb e in
          >>=-ne-err (get_be16 io) _ mid out_of_fuel (get_be16-IsTotal io mid t) λ id s f.
            let (x, y, es, _) = get_be16_inv io law mid id s f in
            >>=-ne-err
              (decode_filters array (decode_subscription io) subscription_size h old.topic_filters)
              (λ fs. return (with_filters h id fs)) s out_of_fuel
              (decode_filters-ne-out_of_fuel array (decode_subscription io) subscription_size
                subscription-IsSized h old.topic_filters s t
                (omega (arith, ap length ec, length-append pre mid, ap length es)))
              (λ fs u g. IsTotal-return (with_filters h id fs) u t)

  -- On any bytes, fewer than 2 ^ 63: where the decoder of SUBSCRIBE succeeds it has taken a fixed header
  -- of 2 to 5 bytes, and behind it exactly as many bytes as the fixed header announces.
  pub subscribe_decode_takes :
      (array : ArrayOps Subscription) (old p : SubscribePacket) (cur t : Cursor)
      → All IsByte cur
      → length cur < 2 ^ 63
      → subscribe_decode io array old cur ≡ ok p t
      → (pre : List ℕ) × (mid : List ℕ) × (cur ≡ pre ++ mid)
        × (2 ≤ length pre)
        × (length pre ≤ 5)
        × (length mid ≡ length t + p.fixed_header.remaining_length)
  unfolding subscribe_decode
  subscribe_decode_takes array old p cur t hb hl e =
      let (h, mid, eh, k) = >>=-eq-ok (decode_header io old.fixed_header) _ cur e in
      let (pre, ec, lo, hi, fits, v) = decode_header_inv io law old.fixed_header h cur mid hb eh in
      let (id, s, eb, k') = >>=-eq-ok (get_be16 io) _ mid k in
      let (x, y, es, _) = get_be16_inv io law mid id s eb in
      let (fs, u, ed, k'') =
        >>=-eq-ok
          (decode_filters array (decode_subscription io) subscription_size h old.topic_filters)
          (λ fs. return (with_filters h id fs)) s k' in
      let n =
        decode_filters_takes array (decode_subscription io) subscription_size subscription-IsSized h
          old.topic_filters fs s u
          (omega (arith, ap length ec, length-append pre mid, ap length es)) ed in
      let (eh, et) = with_filters_inv h id fs u p t k'' in
      (
        pre,
        mid,
        ec,
        lo,
        hi,
        omega (
          arith,
          n,
          v.remaining_lt,
          ap length ec,
          length-append pre mid,
          ap length es,
          ap length et,
          ap (λ (g : FixedHeader). g.remaining_length) eh,
        ),
      )
