-- ===== src/Packets/Unsubscribe/Laws.antt =====
-- What an UNSUBSCRIBE is on the wire, that it is read back, and the reading of one from any bytes.
use aws_c_mqtt.Base.{
  ℕ, ◌+◌, ◌^◌, ◌<◌, ◌≤◌, ◌≡◌, ◌≢◌, refl, ap, subst, ◌⊎◌, ◌∙◌, true, List, [], ◌∷◌, ◌++◌, none, some,
  length, length-append, arith, All, All-append,
}
use aws_c_mqtt.Bytes.{
  ByteOps, IsByteOps, Cursor, ok, err, return, IsTotal-return, be16, out_of_fuel, >>=-ok, >>=-eq-ok,
  >>=-ne-err, IsByte,
}
use aws_c_mqtt.Bytes.Encoder.{put_be16-Writes}
use aws_c_mqtt.Bytes.Decoder.{
  Reads, get_be16, get_be16-Reads, get_be16_inv, get_be16-IsTotal, get_slice,
}
use aws_c_mqtt.FixedHeader.{FixedHeader, bad_flags, has_flags}
use aws_c_mqtt.FixedHeader.Wire.{IsHeader, header_bytes, fixed_header_encode-Writes}
use aws_c_mqtt.Packets.Field.{
  grow, sizeof_encoded_buffer, decode_header, decode_buffer, buffer_bytes, Fits,
  encode_buffer-Writes, decode_buffer-Reads, decode_buffer_inv, packet-Reads, decode_header_inv,
  decode_header-IsTotal,
}
use aws_c_mqtt.Packets.Filters.{ArrayOps, IsArrayOps, growing, decode_filters}
use aws_c_mqtt.Packets.Filters.Laws.{
  Emits, Emits-ignoring, length-wire_all_snoc, Writes→Emits, Emits->>, wire_all, encode_each-Emits,
  IsSized, decode_filters-ne-out_of_fuel, decode_filters_takes, decode_filters-Reads,
}
use aws_c_mqtt.Packets.Unsubscribe.{
  UnsubscribePacket, unsubscribe_init, unsubscribe_add_topic, filter_size, encode_filter,
  unsubscribe_encode, unsubscribe_decode,
}

abbrev pub unsubscribe_body : UnsubscribePacket → List ℕ
unsubscribe_body p = be16 p.packet_identifier ++ wire_all buffer_bytes p.topic_filters

-- A packet that both routines take.
pub record IsUnsubscribe (p : UnsubscribePacket) : Type 0 where
  pub header_ok : IsHeader p.fixed_header
  pub id_lt : p.packet_identifier < 65536
  pub filters_ok : All Fits p.topic_filters
  pub remaining : p.fixed_header.remaining_length ≡ length (unsubscribe_body p)

unfoldable pub unsubscribe_bytes : UnsubscribePacket → List ℕ
unsubscribe_bytes p = header_bytes p.fixed_header ++ unsubscribe_body p

-- The packet that `aws_mqtt_packet_unsubscribe_init` makes where the array list gets its memory.
pub unsubscribe_init-IsUnsubscribe :
    (id : ℕ) (old : UnsubscribePacket)
    → id < 65536
    → (p : UnsubscribePacket) × (unsubscribe_init true id old ≡ ok tt p)
      × IsUnsubscribe p
      × (p.topic_filters ≡ [])
unfolding unsubscribe_init bad_flags has_flags
unsubscribe_init-IsUnsubscribe id old h = (_, refl, ground arith, refl)

abbrev with_topic : UnsubscribePacket → List ℕ → UnsubscribePacket
with_topic p s = record p {
  fixed_header = grow p.fixed_header (sizeof_encoded_buffer s);
  topic_filters = p.topic_filters ++ (s ∷ []);
}

with_topic-IsUnsubscribe :
    (p : UnsubscribePacket) (s : List ℕ)
    → IsUnsubscribe p
    → Fits s
    → p.fixed_header.remaining_length + 2 + length s < 2 ^ 28
    → IsUnsubscribe (with_topic p s)
unfolding bad_flags has_flags
with_topic-IsUnsubscribe p s v h small =
    let n = length-wire_all_snoc buffer_bytes p.topic_filters s in
    record {
      header_ok = ground (arith, v.header_ok.type_lt, v.header_ok.flags_lt, v.header_ok.flags_ok);
      id_lt = v.id_lt;
      filters_ok = All-append Fits p.topic_filters (s ∷ []) v.filters_ok (h, tt);
      remaining = omega (arith, n, v.remaining, v.header_ok.remaining_lt);
    }

-- A filter below 65536 bytes that is added to a well-formed UNSUBSCRIBE, over an array
-- list that appends or fails: where the call succeeds and the remaining length stays below 2 ^ 28,
-- the filter stands behind the others, and the remaining length is the number of bytes that are
-- written behind the fixed header.
pub unsubscribe_add_topic-IsUnsubscribe :
    (array : ArrayOps (List ℕ)) (p q : UnsubscribePacket) (topic_filter : List ℕ)
    → IsArrayOps array
    → IsUnsubscribe p
    → Fits topic_filter
    → p.fixed_header.remaining_length + 2 + length topic_filter < 2 ^ 28
    → unsubscribe_add_topic array topic_filter p ≡ ok tt q
    → IsUnsubscribe q × (q.topic_filters ≡ p.topic_filters ++ (topic_filter ∷ []))
unsubscribe_add_topic-IsUnsubscribe array p q s law v hf small e =
    subst
      (λ (r : UnsubscribePacket). IsUnsubscribe r × (r.topic_filters ≡ p.topic_filters ++ (s ∷ [])))
      (added (law.push_back_lem p.topic_filters s)) (with_topic-IsUnsubscribe p s v hf small, refl)
  where
    added :
        (array.push_back p.topic_filters s ≡ none)
          ⊎ (array.push_back p.topic_filters s ≡ some (p.topic_filters ++ (s ∷ [])))
        → with_topic p s ≡ q
    added c = unfold unsubscribe_add_topic in ground (arith, e, c)

abbrev with_filters : FixedHeader → ℕ → List (List ℕ) → UnsubscribePacket
with_filters h id fs = record { fixed_header = h; packet_identifier = id; topic_filters = fs }

with_filters_inv :
    (h : FixedHeader) (id : ℕ) (fs : List (List ℕ)) (u : Cursor) (p : UnsubscribePacket)
    (t : Cursor)
    → return (with_filters h id fs) u ≡ ok p t
    → (h ≡ p.fixed_header) × (u ≡ t)
with_filters_inv h id fs u p t e = ground arith

module _ (io : ByteOps) (law : IsByteOps io) where
  encode_each_filter :
      (xs : List (List ℕ)) → All Fits xs → All (λ s. Emits (encode_filter io s) (buffer_bytes s)) xs
  unfolding encode_filter
  encode_each_filter [] h = tt
  encode_each_filter (s ∷ xs) h = (
    Emits-ignoring _ _ (Writes→Emits _ _ (encode_buffer-Writes io law s h.0)),
    encode_each_filter xs h.1,
  )

  pub unsubscribe_encode-Emits :
      (p : UnsubscribePacket)
      → IsUnsubscribe p
      → Emits (unsubscribe_encode io p) (unsubscribe_bytes p)
  unfolding unsubscribe_encode unsubscribe_bytes
  unsubscribe_encode-Emits p v =
      Emits->> _ _ (header_bytes p.fixed_header) (unsubscribe_body p)
        (Writes→Emits _ _ (fixed_header_encode-Writes io law p.fixed_header v.header_ok))
        (Emits->> _ _ (be16 p.packet_identifier) _
          (Writes→Emits _ _ (put_be16-Writes io law p.packet_identifier v.id_lt))
          (encode_each-Emits (encode_filter io) buffer_bytes p.topic_filters
            (encode_each_filter p.topic_filters v.filters_ok)))

  each-Reads :
      (xs : List (List ℕ))
      → All Fits xs
      → All
          (λ s.
            Reads (decode_buffer io) (buffer_bytes s) s
            × (filter_size s ≡ length (buffer_bytes s))
            × (1 ≤ filter_size s))
          xs
  unfolding filter_size
  each-Reads [] h = tt
  each-Reads (s ∷ xs) (v, h) =
      ((decode_buffer-Reads io law s v, omega arith, omega arith), each-Reads xs h)

  filter_sized :
      (cur : Cursor) (s : List ℕ) (rest : Cursor)
      → decode_buffer io cur ≡ ok s rest
      → length cur < 2 ^ 63
      → (length cur ≡ length rest + filter_size s) × (1 ≤ filter_size s)
  unfolding filter_size
  filter_sized cur s rest e hl =
      let (x, y, ec) = decode_buffer_inv io law cur s rest e hl in
      let n : length cur ≡ 2 + length s + length rest =
        omega (arith, ap length ec, length-append s rest) in
      (omega arith, omega arith)

  filter_has_fuel : (cur rest : Cursor) → decode_buffer io cur ≢ err out_of_fuel rest
  unfolding decode_buffer get_be16 get_slice
  filter_has_fuel cur rest e = ground arith

  filter-IsSized : IsSized (decode_buffer io) filter_size
  filter-IsSized = record { takes = filter_sized; has_fuel = filter_has_fuel }

  -- What the encoder wrote is read back, behind the filters that the packet held before.
  pub unsubscribe_decode-Reads :
      (p old : UnsubscribePacket)
      → IsUnsubscribe p
      → Reads
          (unsubscribe_decode io growing old)
          (unsubscribe_bytes p)
          (record p { topic_filters = old.topic_filters ++ p.topic_filters })
  unfolding unsubscribe_decode unsubscribe_bytes
  unsubscribe_decode-Reads p old v =
      let filters : List ℕ = wire_all buffer_bytes p.topic_filters in
      packet-Reads io law _ p.fixed_header old.fixed_header (unsubscribe_body p) _ v.header_ok
        v.remaining
        (λ rest.
          >>=-ok (get_be16 io) _ (get_be16-Reads io law p.packet_identifier (filters ++ rest))
          ∙ >>=-ok
              (decode_filters growing (decode_buffer io) filter_size p.fixed_header
                old.topic_filters)
              _
              (decode_filters-Reads (decode_buffer io) filter_size buffer_bytes p.topic_filters
                old.topic_filters p.fixed_header (each-Reads p.topic_filters v.filters_ok)
                (omega (arith, v.remaining)) (omega (arith, v.header_ok.remaining_lt)) rest))

  -- On any bytes, fewer than 2 ^ 63, the decoder of UNSUBSCRIBE ends: its loop over the filters does not run
  -- out of fuel.
  pub unsubscribe_decode-ne-out_of_fuel :
      (array : ArrayOps (List ℕ)) (old : UnsubscribePacket) (cur t : Cursor)
      → All IsByte cur
      → length cur < 2 ^ 63
      → unsubscribe_decode io array old cur ≢ err out_of_fuel t
  unfolding unsubscribe_decode
  unsubscribe_decode-ne-out_of_fuel array old cur t hb hl =
      >>=-ne-err (decode_header io old.fixed_header) _ cur out_of_fuel
        (decode_header-IsTotal io law old.fixed_header cur t)
        λ h mid e.
          let (pre, ec, _, _, _, _) = decode_header_inv io law old.fixed_header h cur mid hb e in
          >>=-ne-err (get_be16 io) _ mid out_of_fuel (get_be16-IsTotal io mid t) λ id s f.
            let (x, y, es, _) = get_be16_inv io law mid id s f in
            >>=-ne-err (decode_filters array (decode_buffer io) filter_size h old.topic_filters)
              (λ fs. return (with_filters h id fs)) s out_of_fuel
              (decode_filters-ne-out_of_fuel array (decode_buffer io) filter_size filter-IsSized h
                old.topic_filters s t
                (omega (arith, ap length ec, length-append pre mid, ap length es)))
              (λ fs u g. IsTotal-return (with_filters h id fs) u t)

  -- On any bytes, fewer than 2 ^ 63: where the decoder of UNSUBSCRIBE succeeds it has taken a fixed header
  -- of 2 to 5 bytes, and behind it exactly as many bytes as the fixed header announces.
  pub unsubscribe_decode_takes :
      (array : ArrayOps (List ℕ)) (old p : UnsubscribePacket) (cur t : Cursor)
      → All IsByte cur
      → length cur < 2 ^ 63
      → unsubscribe_decode io array old cur ≡ ok p t
      → (pre : List ℕ) × (mid : List ℕ) × (cur ≡ pre ++ mid)
        × (2 ≤ length pre)
        × (length pre ≤ 5)
        × (length mid ≡ length t + p.fixed_header.remaining_length)
  unfolding unsubscribe_decode
  unsubscribe_decode_takes array old p cur t hb hl e =
      let (h, mid, eh, k) = >>=-eq-ok (decode_header io old.fixed_header) _ cur e in
      let (pre, ec, lo, hi, fits, v) = decode_header_inv io law old.fixed_header h cur mid hb eh in
      let (id, s, eb, k') = >>=-eq-ok (get_be16 io) _ mid k in
      let (x, y, es, _) = get_be16_inv io law mid id s eb in
      let (fs, u, ed, k'') =
        >>=-eq-ok (decode_filters array (decode_buffer io) filter_size h old.topic_filters)
          (λ fs. return (with_filters h id fs)) s k' in
      let n =
        decode_filters_takes array (decode_buffer io) filter_size filter-IsSized h old.topic_filters
          fs s u (omega (arith, ap length ec, length-append pre mid, ap length es)) ed in
      let (eh, et) = with_filters_inv h id fs u p t k'' in
      (
        pre,
        mid,
        ec,
        lo,
        hi,
        omega (
          arith,
          n,
          v.remaining_lt,
          ap length ec,
          length-append pre mid,
          ap length es,
          ap length et,
          ap (λ (g : FixedHeader). g.remaining_length) eh,
        ),
      )
