-- ===== src/Channel/Resume.antt =====
-- What a message does to a connection that has a part of a packet pending.
use aws_c_mqtt.Base.{
  ℕ, ◌+◌, ◌/◌, ◌^◌, ◌≤◌, ◌<◌, ◌≡◌, refl, sym, ap, ◌∙◌, true, List, [], ◌∷◌, ◌++◌, none, some,
  bit_and, length, length-append, append_assoc, All, arith,
}
use aws_c_mqtt.Bytes.{
  ByteBuf, ByteOps, IsByteOps, Error, Op, Outcome, ok, err, ◌>>=◌, ◌>>◌, return, >>=-ok, >>=-err,
}
use aws_c_mqtt.FixedHeader.{HeaderState, zero_header, get_packet_type}
use aws_c_mqtt.FixedHeader.Wire.{header_bytes}
use aws_c_mqtt.Client.{
  Connection, ChannelOps, emit, zero_buf, increment_read_window, release_message,
}
use aws_c_mqtt.Channel.{
  Message, Process, set_pending, first_byte_of, handle_pending, complete_pending, read_packets,
  finish_message, read_and_finish, process_read_message,
}
use aws_c_mqtt.FixedHeader.Decode.{fixed_header_decode_first_byte}
use aws_c_mqtt.FixedHeader.RoundTrip.{at_header}
use aws_c_mqtt.Channel.Messages.{nothing_pending, store_lem}
use aws_c_mqtt.Channel.Framing.{
  Frame, IsFrame, frame_bytes, stream, header_nonempty, advance_front, take_all, process_all,
  step_cut, >>-cong, >>-assoc_lem, >>-first, read_stream,
}

-- What becomes of a packet that was pending and is complete: it is handled, and the buffer is
-- cleaned up whatever comes of it.
abbrev pub handled : Process → Frame → Op Connection (Unit {0})
handled process f c = elim (process f.header.packet_type (frame_bytes f) c) [
  | ok _ d ↦ ok tt (set_pending zero_buf d)
  | err e d ↦ err e (set_pending zero_buf d)
]

-- A connection that has kept a message of one byte.
abbrev pub kept_byte : ℕ → Connection → Connection
kept_byte b c =
    emit release_message
      (emit (increment_read_window 1) (set_pending (record { buffer = b ∷ []; capacity = 1 }) c))

module _ (io : ByteOps) (law : IsByteOps io) (channel : ChannelOps) (process : Process) where
  something_pending :
      (m : Message) (c : Connection)
      → m.is_application_data ≡ true
      → 1 ≤ length m.message_data
      → 1 ≤ length c.pending_packet.buffer
      → process_read_message io channel process m c
        ≡ (complete_pending io channel process m.message_data
              >>= read_and_finish io channel process m)
            c
  unfolding process_read_message
  something_pending m c a h p = ground arith

  completed :
      (part left rest : List ℕ) (c : Connection)
      → c.pending_packet ≡ record { buffer = part; capacity = length part + length left }
      → length part + length left < 2 ^ 63
      → complete_pending io channel process (left ++ rest) c
        ≡ (handle_pending io channel process >> return (some rest))
            (set_pending (record { buffer = part ++ left; capacity = length part + length left }) c)
  unfolding complete_pending
  completed part left rest c e h = ground (
    arith,
    ap (λ (b : ByteBuf). b.buffer) e,
    ap (λ (b : ByteBuf). b.capacity) e,
    length-append left rest,
    advance_front io law left rest (length left) refl (omega arith),
    law.write_lem c.pending_packet left,
  )

  handle_pending-frame :
      (f : Frame) (size : ℕ) (c : Connection)
      → IsFrame f
      → handle_pending io channel process
          (set_pending (record { buffer = frame_bytes f; capacity = size }) c)
        ≡ handled process f (set_pending (record { buffer = frame_bytes f; capacity = size }) c)
  unfolding handle_pending
  handle_pending-frame f size c v =
      let e : get_packet_type (first_byte_of (frame_bytes f)) ≡ f.header.packet_type =
        unfold get_packet_type frame_bytes header_bytes in omega (arith, v.header_ok.flags_lt) in
      ap after e
    where
      after : ℕ → Outcome Connection (Unit {0})
      after type =
          elim (process type (frame_bytes f)
            (set_pending (record { buffer = frame_bytes f; capacity = size }) c)) [
              | ok _ d ↦ ok tt (set_pending zero_buf d)
              | err e d ↦ err e (set_pending zero_buf d)
            ]

  go_on :
      (m : Message) (bytes rest : List ℕ) (c d : Connection)
      → complete_pending io channel process bytes c
        ≡ (handle_pending io channel process >> return (some rest)) d
      → (complete_pending io channel process bytes >>= read_and_finish io channel process m) c
        ≡ ((handle_pending io channel process >> read_packets io channel process (length rest) rest)
              >> finish_message io channel process m)
            d
  unfolding read_and_finish
  go_on m bytes rest c d e = inner (handle_pending io channel process d) refl
    where
      handle : Op Connection (Unit {0})
      handle = handle_pending io channel process

      read : Op Connection (Unit {0})
      read = read_packets io channel process (length rest) rest

      finish : Op Connection (Unit {0})
      finish = finish_message io channel process m

      inner :
          (r : Outcome Connection (Unit {0}))
          → handle_pending io channel process d ≡ r
          → (complete_pending io channel process bytes >>= read_and_finish io channel process m) c
            ≡ ((handle_pending io channel process
                    >> read_packets io channel process (length rest) rest)
                  >> finish_message io channel process m)
                d
      inner (ok a s) q =
          >>=-ok (complete_pending io channel process bytes) (read_and_finish io channel process m)
            (e ∙ >>=-ok handle (λ _. return (some rest)) q)
          ∙ sym (>>-assoc_lem handle read finish d ∙ >>=-ok handle (λ _. read >> finish) q)
      inner (err x s) q =
          >>=-err (complete_pending io channel process bytes) (read_and_finish io channel process m)
            (e ∙ >>=-err handle (λ _. return (some rest)) q)
          ∙ sym (>>-assoc_lem handle read finish d ∙ >>=-err handle (λ _. read >> finish) q)

  whole_pending :
      (f : Frame) (part left rest : List ℕ) (c : Connection)
      → IsFrame f
      → f.body ≡ part ++ left
      → 0 < length left
      → c.pending_packet
        ≡ record { buffer = header_bytes f.header ++ part; capacity = length (frame_bytes f) }
      → complete_pending io channel process (left ++ rest) c
        ≡ (handle_pending io channel process >> return (some rest))
            (set_pending (record { buffer = frame_bytes f; capacity = length (frame_bytes f) }) c)
  unfolding frame_bytes
  whole_pending f part left rest c v e hl p =
      let pre : List ℕ = header_bytes f.header ++ part in
      let b : pre ++ left ≡ frame_bytes f =
        append_assoc (header_bytes f.header) part left
        ∙ ap (λ (t : List ℕ). header_bytes f.header ++ t) (sym e) in
      let n : length (frame_bytes f) ≡ length pre + length left =
        ap length (sym b) ∙ length-append pre left in
      let m = length-append (header_bytes f.header) f.body in
      completed pre left rest c (p ∙ ap (λ (k : ℕ). record { buffer = pre; capacity = k }) n)
        (omega (arith, n, m, v.remaining, v.header_ok.remaining_lt, header_nonempty f.header))
      ∙ ap
          (λ (q : ByteBuf).
            (handle_pending io channel process >> return (some rest)) (set_pending q c))
          (λ i. record { buffer = b i; capacity = (sym n) i })

  -- The rest of the packet that is pending, and well-formed packets behind it: the pending packet is
  -- handled with exactly its bytes, then, if that succeeded, the others are in turn, and the message
  -- is given back.
  pub process_read_message_rest :
      (f : Frame) (part left : List ℕ) (gs : List Frame) (c : Connection)
      → IsFrame f
      → All IsFrame gs
      → f.body ≡ part ++ left
      → 0 < length left
      → c.pending_packet
        ≡ record { buffer = header_bytes f.header ++ part; capacity = length (frame_bytes f) }
      → let m : Message = record { is_application_data = true; message_data = left ++ stream gs } in
        process_read_message io channel process m c
        ≡ ((handled process f >> process_all io channel process gs)
              >> finish_message io channel process m)
            (set_pending (record { buffer = frame_bytes f; capacity = length (frame_bytes f) }) c)
  unfolding read_and_finish
  process_read_message_rest f part left gs c v h e hl p =
      let m : Message = record { is_application_data = true; message_data = left ++ stream gs } in
      let d =
        set_pending (record { buffer = frame_bytes f; capacity = length (frame_bytes f) }) c in
      let rest = read_packets io channel process (length (stream gs)) (stream gs) in
      let finish = finish_message io channel process m in
      let n = length-append (header_bytes f.header) part in
      something_pending m c refl (omega (arith, length-append left (stream gs)))
        (omega (arith, ap (λ (b : ByteBuf). length b.buffer) p, n, header_nonempty f.header))
      ∙ go_on m (left ++ stream gs) (stream gs) c d
          (whole_pending f part left (stream gs) c v e hl p)
      ∙ >>-first (handle_pending io channel process >> rest)
          (handled process f >> process_all io channel process gs) finish d
          (>>-first (handle_pending io channel process) (handled process f) rest d
              (handle_pending-frame f (length (frame_bytes f)) c v)
            ∙ >>-cong (handled process f) rest (process_all io channel process gs) d
                (λ d'. read_stream io law channel process gs d' h))

  -- A message of application data, one byte at least, that does not complete the pending packet: its
  -- bytes are kept, and that is all. The read window is not opened again by the size of the message,
  -- and the message is not released.
  pub process_read_message_incomplete :
      (m : Message) (part : List ℕ) (size : ℕ) (c : Connection)
      → m.is_application_data ≡ true
      → 1 ≤ length m.message_data
      → 1 ≤ length part
      → c.pending_packet ≡ record { buffer = part; capacity = size }
      → length part + length m.message_data < size
      → size < 2 ^ 63
      → process_read_message io channel process m c
        ≡ ok tt (set_pending (record { buffer = part ++ m.message_data; capacity = size }) c)
  process_read_message_incomplete m part size c a h hp p lt small =
      something_pending m c a h (omega (arith, ap (λ (b : ByteBuf). length b.buffer) p))
      ∙ >>=-ok (complete_pending io channel process m.message_data)
          (read_and_finish io channel process m) (kept m.message_data part size c p lt small)
      ∙ unfold read_and_finish in refl
    where
      kept :
          (bytes part : List ℕ) (size : ℕ) (c : Connection)
          → c.pending_packet ≡ record { buffer = part; capacity = size }
          → length part + length bytes < size
          → size < 2 ^ 63
          → complete_pending io channel process bytes c
            ≡ ok none (set_pending (record { buffer = part ++ bytes; capacity = size }) c)
      kept bytes part size c e lt small =
          unfold complete_pending in
          ground (
            arith,
            ap (λ (b : ByteBuf). b.buffer) e,
            ap (λ (b : ByteBuf). b.capacity) e,
            law.advance_lem bytes (length bytes) (omega arith) (omega arith),
            take_all bytes,
            law.write_lem c.pending_packet bytes,
          )

  byte_kept :
      (b : ℕ) (c : Connection)
      → channel.can_allocate 1 ≡ true
      → c.pending_packet.buffer ≡ []
      → process_read_message io channel process
          (record { is_application_data = true; message_data = b ∷ [] })
          c
        ≡ ok tt (kept_byte b c)
  byte_kept b c a p =
      let m : Message = record { is_application_data = true; message_data = b ∷ [] } in
      let s : HeaderState = at_header [] (b / 16) 0 (bit_and b 15) in
      nothing_pending io law channel process m c refl (omega arith) p
      ∙ >>=-ok (read_packets io channel process 1 (b ∷ []))
          (λ _. finish_message io channel process m)
          (step_cut io law channel process (b ∷ []) s 0 c (omega arith)
              (fixed_header_decode_first_byte io law b zero_header)
            ∙ store_lem io law channel process (b ∷ []) 1 c a (omega arith))
      ∙ unfold finish_message in refl

  -- A fixed header that is cut behind its first byte, no packet being pending: the byte is kept in a
  -- buffer of capacity 1. So on any next message of application data it counts as a complete packet
  -- of one byte, and where the handler of its type refuses that packet, the whole message is refused.
  pub process_read_message_split_header :
      (b : ℕ) (m : Message) (c d : Connection) (e : Error)
      → channel.can_allocate 1 ≡ true
      → c.pending_packet.buffer ≡ []
      → m.is_application_data ≡ true
      → 1 ≤ length m.message_data
      → process (b / 16) (b ∷ []) (kept_byte b c) ≡ err e d
      → (process_read_message io channel process
            (record { is_application_data = true; message_data = b ∷ [] })
            c
          ≡ ok tt (kept_byte b c))
        × (process_read_message io channel process m (kept_byte b c)
            ≡ err e (set_pending zero_buf d))
  unfolding handle_pending get_packet_type
  process_read_message_split_header b m c d e a p am hm h = (
    byte_kept b c a p,
    something_pending m (kept_byte b c) am hm (omega arith)
        ∙ go_on m m.message_data m.message_data (kept_byte b c) (kept_byte b c)
            (completed (b ∷ []) [] m.message_data (kept_byte b c) refl (omega arith))
        ∙ >>=-err
            (handle_pending io channel process
              >> read_packets io channel process (length m.message_data) m.message_data)
            (λ _. finish_message io channel process m) {s = kept_byte b c}
            (>>=-err (handle_pending io channel process)
              (λ _. read_packets io channel process (length m.message_data) m.message_data)
              {s = kept_byte b c} (refused (process (b / 16) (b ∷ []) (kept_byte b c)) h)),
  )
    where
      refused :
          (r : Outcome Connection (Unit {0}))
          → r ≡ err e d
          → ◌≡◌ {A = Outcome Connection (Unit {0})}
              (elim r [
                | ok _ c' ↦ ok tt (set_pending zero_buf c')
                | err x c' ↦ err x (set_pending zero_buf c')
              ])
              (err e (set_pending zero_buf d))
      refused r q = rw q refl
