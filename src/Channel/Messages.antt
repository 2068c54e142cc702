-- ===== src/Channel/Messages.antt =====
-- What a message does to a connection that has no packet pending.
use aws_c_mqtt.Base.{
  ℕ, suc, ◌+◌, ◌-◌, ◌≤◌, ◌<◌, ◌≡◌, refl, ap, ◌∙◌, true, List, [], ◌∷◌, ◌++◌, length, length-append,
  append_assoc, All, arith,
}
use aws_c_mqtt.Bytes.{
  ByteOps, IsByteOps, Cursor, Error, Op, Outcome, ok, err, ◌>>◌, null_dereference, >>=-ok, >>=-err,
}
use aws_c_mqtt.FixedHeader.{HeaderState, zero_header}
use aws_c_mqtt.FixedHeader.Wire.{header_bytes}
use aws_c_mqtt.FixedHeader.RoundTrip.{fixed_header_decode_cut}
use aws_c_mqtt.Client.{Event, Connection, ChannelOps, increment_read_window, release_message}
use aws_c_mqtt.Channel.{
  Message, Process, set_pending, process_and_go_on, store_partial, read_packets, finish_message,
  read_and_finish, process_read_message,
}
use aws_c_mqtt.Channel.Framing.{
  Frame, IsFrame, frame_bytes, stream, header_nonempty, process_all, size_of, step_cut, >>-cong,
  >>-first, read_frames, length-stream, read_stream,
}

-- The state in which the part `part` of a packet of `size` bytes is kept.
abbrev pub keep : List ℕ → ℕ → Op Connection (Unit {0})
keep part size c = ok tt (set_pending (record { buffer = part; capacity = size }) c)

-- What becomes of whole packets: each is processed with its type and its bytes, whether the one before
-- it was processed without an error or not; a null pointer read is the end.
unfoldable pub answers : Process → List Frame → Connection → Outcome Connection (Unit {0})
answers process [] c = ok tt c
answers process (f ∷ fs) c = elim (process f.header.packet_type (frame_bytes f) c) [
  | ok _ d ↦ answers process fs d
  | err e d ↦ elim e [ null_dereference ↦ err null_dereference d | e' ↦ answers process fs d ]
]

-- A message of some bytes is given back: the window is opened by its size, and it is released.
unfoldable pub given_back : ℕ → Outcome Connection (Unit {0}) → Outcome Connection (Unit {0})
given_back size (ok _ d) =
    ok tt (record d { events = d.events ++ (increment_read_window size ∷ release_message ∷ []) })
given_back size (err e d) = err e d

module _ (io : ByteOps) (law : IsByteOps io) (channel : ChannelOps) (process : Process) where
  process_all-answers :
      (fs : List Frame) (c : Connection)
      → process_all io channel process fs c ≡ answers process fs c
  unfolding process_all answers
  process_all-answers [] c = refl
  process_all-answers (f ∷ fs) c =
      step (process f.header.packet_type (frame_bytes f) c) refl (λ d. process_all-answers fs d)
    where
      one : Op Connection (Unit {0})
      one = process_and_go_on io channel process f.header.packet_type (frame_bytes f)

      rest : Op Connection (Unit {0})
      rest = process_all io channel process fs

      after : Outcome Connection (Unit {0}) → Outcome Connection (Unit {0})
      after (ok _ d) = answers process fs d
      after (err e d) = elim e [
        | null_dereference ↦ err null_dereference d
        | e' ↦ answers process fs d
      ]

      went_on :
          (x : Error) (d : Connection) (o : Outcome Connection (Unit {0}))
          → o ≡ elim x as (λ _. Outcome Connection (Unit {0})) [
            | null_dereference ↦ err null_dereference d
            | x' ↦ ok tt d
          ]
          → ((d : Connection) → rest d ≡ answers process fs d)
          → (elim o as (λ _. Outcome Connection (Unit {0})) [ ok a t ↦ rest t | err e t ↦ err e t ])
            ≡ after (err x d)
      went_on null_dereference d o e ih = rw e refl
      went_on x d o e ih = rw e (ih d)

      step :
          (o : Outcome Connection (Unit {0}))
          → process f.header.packet_type (frame_bytes f) c ≡ o
          → ((d : Connection) → rest d ≡ answers process fs d)
          → (one >> rest) c ≡ after o
      step (ok u d) e ih =
          let ran : one c ≡ ok tt d = unfold process_and_go_on in rw (process_and_go_on, e) refl in
          >>=-ok one (λ _. rest) ran ∙ ih d
      step (err x d) e ih =
          went_on x d (one c) (unfold process_and_go_on in rw (process_and_go_on, e) refl) ih

  finish-given_back :
      (bytes : List ℕ) (m : Op Connection (Unit {0})) (c : Connection)
      → (m
            >> finish_message io channel process
                (record { is_application_data = true; message_data = bytes }))
          c
        ≡ given_back (length bytes) (m c)
  unfolding finish_message given_back
  finish-given_back bytes m c = step (m c) refl
    where
      finish : Op Connection (Unit {0})
      finish =
          finish_message io channel process
            (record { is_application_data = true; message_data = bytes })

      step :
          (o : Outcome Connection (Unit {0}))
          → m c ≡ o
          → (m >> finish) c ≡ given_back (length bytes) o
      step (ok u d) e =
          >>=-ok m (λ _. finish) e
          ∙ ap (λ (es : List Event). ok tt (record d { events = es }))
              (append_assoc d.events (increment_read_window (length bytes) ∷ [])
                (release_message ∷ []))
      step (err x d) e = >>=-err m (λ _. finish) e

  pub nothing_pending :
      (m : Message) (c : Connection)
      → m.is_application_data ≡ true
      → 1 ≤ length m.message_data
      → c.pending_packet.buffer ≡ []
      → process_read_message io channel process m c
        ≡ (read_packets io channel process (length m.message_data) m.message_data
              >> finish_message io channel process m)
            c
  unfolding process_read_message read_and_finish
  nothing_pending m c a h p = ground (arith, ap length p)

  -- A message of application data that holds whole well-formed packets, one at least, while no packet
  -- is pending: each packet is handled in turn with its type and exactly its bytes, an error result of
  -- a packet that is no null pointer read is dropped, and at the end the window is opened by the size
  -- of the message, and the message is released.
  pub process_read_message_whole :
      (f : Frame) (fs : List Frame) (c : Connection)
      → IsFrame f
      → All IsFrame fs
      → c.pending_packet.buffer ≡ []
      → process_read_message io channel process
          (record { is_application_data = true; message_data = stream (f ∷ fs) })
          c
        ≡ given_back (length (stream (f ∷ fs))) (answers process (f ∷ fs) c)
  unfolding frame_bytes
  process_read_message_whole f fs c v h p =
      let m : Message = record { is_application_data = true; message_data = stream (f ∷ fs) } in
      nothing_pending m c refl (omega (arith, length-stream io law channel process (f ∷ fs))) p
      ∙ >>-first (read_packets io channel process (length (stream (f ∷ fs))) (stream (f ∷ fs)))
          (process_all io channel process (f ∷ fs)) (finish_message io channel process m) c
          (read_stream io law channel process (f ∷ fs) c (v, h))
      ∙ finish-given_back (stream (f ∷ fs)) (process_all io channel process (f ∷ fs)) c
      ∙ ap (given_back (length (stream (f ∷ fs)))) (process_all-answers (f ∷ fs) c)

  pub store_lem :
      (part : List ℕ) (size : ℕ) (c : Connection)
      → channel.can_allocate size ≡ true
      → length part ≤ size
      → store_partial io channel process size part c ≡ keep part size c
  unfolding store_partial
  store_lem part size c a h =
      rw (law.write_lem (record { buffer = []; capacity = size }) part, a) (ground arith)

  read_part :
      (f : Frame) (part left : List ℕ) (k : ℕ) (c : Connection)
      → IsFrame f
      → f.body ≡ part ++ left
      → 0 < length left
      → channel.can_allocate (length (frame_bytes f)) ≡ true
      → read_packets io channel process (suc k) (header_bytes f.header ++ part) c
        ≡ keep (header_bytes f.header ++ part) (length (frame_bytes f)) c
  unfolding frame_bytes
  read_part f part left k c v e hl a =
      let s : HeaderState = record { cur = part; header = f.header } in
      let cur : Cursor = header_bytes f.header ++ part in
      let n = length-append (header_bytes f.header) part in
      let m = length-append (header_bytes f.header) f.body in
      let b : length f.body ≡ length part + length left = ap length e ∙ length-append part left in
      let size : size_of io law channel process cur s ≡ length (frame_bytes f) =
        omega (arith, n, m, b, v.remaining, v.header_ok.remaining_lt, header_nonempty f.header) in
      step_cut io law channel process cur s k c (omega (arith, n, header_nonempty f.header)) (
        fixed_header_decode_cut io law f.header zero_header part v.header_ok
          (omega (arith, b, v.remaining)))
      ∙ ap (λ (z : ℕ). store_partial io channel process z cur c) size
      ∙ store_lem cur (length (frame_bytes f)) c a (omega (arith, n, m, b))

  -- A message of application data that holds well-formed packets and then a packet cut behind its
  -- fixed header, while no packet is pending and there is memory for the packet: the packets are
  -- handled in turn, then what there is of the last one is kept, in a buffer of the size of the
  -- whole packet, and the message is given back.
  pub process_read_message_cut :
      (fs : List Frame) (f : Frame) (part left : List ℕ) (c : Connection)
      → All IsFrame fs
      → IsFrame f
      → f.body ≡ part ++ left
      → 0 < length left
      → channel.can_allocate (length (frame_bytes f)) ≡ true
      → c.pending_packet.buffer ≡ []
      → let m : Message = record {
        is_application_data = true;
        message_data = stream fs ++ (header_bytes f.header ++ part);
      } in
        process_read_message io channel process m c
        ≡ ((process_all io channel process fs
                >> keep (header_bytes f.header ++ part) (length (frame_bytes f)))
              >> finish_message io channel process m)
            c
  process_read_message_cut fs f part left c h v e hl a p =
      let tail : List ℕ = header_bytes f.header ++ part in
      let bytes : List ℕ = stream fs ++ tail in
      let m : Message = record { is_application_data = true; message_data = bytes } in
      let n = length-append (stream fs) tail in
      let t = length-append (header_bytes f.header) part in
      let k = length bytes - length fs - 1 in
      nothing_pending m c refl (omega (arith, n, t, header_nonempty f.header)) p
      ∙ >>-first (read_packets io channel process (length bytes) bytes)
          (process_all io channel process fs >> keep tail (length (frame_bytes f)))
          (finish_message io channel process m) c
          (read_frames io law channel process fs tail (length bytes) (suc k) c h (
              omega
                (arith, n, t, header_nonempty f.header, length-stream io law channel process fs))
            ∙ >>-cong (process_all io channel process fs)
                (read_packets io channel process (suc k) tail) (keep tail (length (frame_bytes f)))
                c (λ d. read_part f part left k d v e hl a))
