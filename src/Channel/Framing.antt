-- ===== src/Channel/Framing.antt =====
-- Well-formed packets on the wire, and the loop that reads them.
use aws_c_mqtt.Base.{
  ℕ, zero, suc, ◌+◌, ◌-◌, ◌%◌, ◌^◌, ◌*◌, ◌≤◌, ◌<◌, ◌≡◌, refl, sym, ap, ◌∙◌, List, [], ◌∷◌, ◌++◌,
  length, length-append, append_assoc, append-nil, take, take-append_length, drop-append_length,
  All, arith,
}
use aws_c_mqtt.Bytes.{
  ByteOps, IsByteOps, Cursor, Op, Outcome, ok, err, ◌>>=◌, ◌>>◌, return, short_buffer,
}
use aws_c_mqtt.FixedHeader.{FixedHeader, HeaderState, zero_header, fixed_header_decode}
use aws_c_mqtt.FixedHeader.Wire.{IsHeader, header_bytes, length-length_bytes}
use aws_c_mqtt.FixedHeader.RoundTrip.{fixed_header_decode-header_bytes}
use aws_c_mqtt.Packets.Filters.Laws.{wire_all}
use aws_c_mqtt.Client.{Connection, ChannelOps}
use aws_c_mqtt.Channel.{Process, store_partial, process_and_go_on, read_packets}

-- A packet on the wire: its fixed header, and the bytes that the header announces.
pub record Frame : Type 0 where
  pub header : FixedHeader
  pub body : List ℕ

pub record IsFrame (f : Frame) : Type 0 where
  pub header_ok : IsHeader f.header
  pub remaining : f.header.remaining_length ≡ length f.body

unfoldable pub frame_bytes : Frame → List ℕ
frame_bytes f = header_bytes f.header ++ f.body

abbrev pub stream : List Frame → List ℕ
stream = wire_all frame_bytes

pub header_nonempty :
    (h : FixedHeader) → (2 ≤ length (header_bytes h)) × (length (header_bytes h) ≤ 5)
unfolding header_bytes
header_nonempty h = omega (arith, length-length_bytes 3 h.remaining_length)

pub take_all : (xs : List ℕ) → take (length xs) xs ≡ xs
take_all [] = refl
take_all (x ∷ xs) = ap (◌∷◌ x) (take_all xs)

pub advance_front :
    (io : ByteOps) (law : IsByteOps io) (xs ys : List ℕ) (n : ℕ)
    → n ≡ length xs
    → length xs < 2 ^ 63
    → io.advance (xs ++ ys) n ≡ (xs, ys)
advance_front io law xs ys n e h = rw e (
    law.advance_lem (xs ++ ys) (length xs) (omega (arith, length-append xs ys)) h ∙ λ i.
    (take-append_length xs ys i, drop-append_length xs ys i))

-- Two chains of calls that do the same.
pub >>-cong :
    (m k l : Op Connection (Unit {0})) (c : Connection)
    → ((d : Connection) → k d ≡ l d)
    → (m >> k) c ≡ (m >> l) c
>>-cong m k l c h = go (m c)
  where
    go :
        (r : Outcome Connection (Unit {0}))
        → ◌≡◌ {A = Outcome Connection (Unit {0})}
            (elim r [ ok a s' ↦ k s' | err e s' ↦ err e s' ])
            (elim r [ ok a s' ↦ l s' | err e s' ↦ err e s' ])
    go (ok a s) = h s
    go (err e s) = refl

pub >>-assoc_lem :
    (m k l : Op Connection (Unit {0})) (c : Connection) → ((m >> k) >> l) c ≡ (m >> (k >> l)) c
>>-assoc_lem m k l c = go (m c) refl
  where
    go : (r : Outcome Connection (Unit {0})) → m c ≡ r → ((m >> k) >> l) c ≡ (m >> (k >> l)) c
    go (ok a s) e = rw (e, ◌>>◌, ◌>>=◌) refl
    go (err x s) e = rw (e, ◌>>◌, ◌>>=◌) refl

pub >>-first :
    (m m' k : Op Connection (Unit {0})) (c : Connection) → m c ≡ m' c → (m >> k) c ≡ (m' >> k) c
>>-first m m' k c e = ap (λ (r : Outcome Connection (Unit {0})). after r) e
  where
    after : Outcome Connection (Unit {0}) → Outcome Connection (Unit {0})
    after r = elim r [ ok a s ↦ k s | err x s ↦ err x s ]

module _ (io : ByteOps) (channel : ChannelOps) (process : Process) where
  -- Each packet is handled in turn, with its type and its bytes; a result that is an error is dropped.
  unfoldable pub process_all : List Frame → Op Connection (Unit {0})
  process_all [] = return tt
  process_all (f ∷ fs) =
      process_and_go_on io channel process f.header.packet_type (frame_bytes f) >> process_all fs

module _ (io : ByteOps) (law : IsByteOps io) (channel : ChannelOps) (process : Process) where
  abbrev pub size_of : Cursor → HeaderState → ℕ
  size_of cur s = (length cur - length s.cur + s.header.remaining_length) % 2 ^ 64

  pub step_ok :
      (cur : Cursor) (s : HeaderState) (packet rest : Cursor) (k : ℕ) (c : Connection)
      → 0 < length cur
      → fixed_header_decode io (record { cur = cur; header = zero_header }) ≡ ok tt s
      → io.advance cur (size_of cur s) ≡ (packet, rest)
      → read_packets io channel process (suc k) cur c
        ≡ (process_and_go_on io channel process s.header.packet_type packet
              >> read_packets io channel process k rest)
            c
  unfolding read_packets
  step_ok cur s packet rest k c h d a = ground arith

  pub step_cut :
      (cur : Cursor) (s : HeaderState) (k : ℕ) (c : Connection)
      → 0 < length cur
      → fixed_header_decode io (record { cur = cur; header = zero_header }) ≡ err short_buffer s
      → read_packets io channel process (suc k) cur c
        ≡ store_partial io channel process (size_of cur s) cur c
  unfolding read_packets
  step_cut cur s k c h d = ground arith

  read_one :
      (f : Frame) (rest : Cursor) (k : ℕ) (c : Connection)
      → IsFrame f
      → read_packets io channel process (suc k) (frame_bytes f ++ rest) c
        ≡ (process_and_go_on io channel process f.header.packet_type (frame_bytes f)
              >> read_packets io channel process k rest)
            c
  unfolding frame_bytes
  read_one f rest k c v =
      let s : HeaderState = record { cur = f.body ++ rest; header = f.header } in
      let a = append_assoc (header_bytes f.header) f.body rest in
      let n = length-append (frame_bytes f) rest in
      let m = length-append (header_bytes f.header) f.body in
      let l = length-append f.body rest in
      step_ok (frame_bytes f ++ rest) s (frame_bytes f) rest k c
        (omega (arith, n, m, header_nonempty f.header))
        (ap (λ (t : Cursor). fixed_header_decode io (record { cur = t; header = zero_header })) a
          ∙ fixed_header_decode-header_bytes io law f.header zero_header (f.body ++ rest)
              v.header_ok (omega (arith, v.remaining, l)))
        (advance_front io law (frame_bytes f) rest (size_of (frame_bytes f ++ rest) s)
          (omega (arith, n, m, l, v.remaining, v.header_ok.remaining_lt, header_nonempty f.header))
          (omega (arith, m, v.remaining, v.header_ok.remaining_lt, header_nonempty f.header)))

  -- The packets at the front are handled one after the other, and what follows is read.
  pub read_frames :
      (fs : List Frame) (rest : Cursor) (n k : ℕ) (c : Connection)
      → All IsFrame fs
      → n ≡ length fs + k
      → read_packets io channel process n (stream fs ++ rest) c
        ≡ (process_all io channel process fs >> read_packets io channel process k rest) c
  unfolding process_all
  read_frames [] rest n k c h e =
      rw e (ap (λ (m : ℕ). read_packets io channel process m rest c) (omega arith))
  read_frames (f ∷ fs) rest zero k c h e = absurd (omega arith)
  read_frames (f ∷ fs) rest (suc n) k c (v, h) e =
      let one = process_and_go_on io channel process f.header.packet_type (frame_bytes f) in
      let more = read_packets io channel process n in
      ap (λ (t : Cursor). read_packets io channel process (suc n) t c)
        (append_assoc (frame_bytes f) (stream fs) rest)
      ∙ read_one f (stream fs ++ rest) n c v
      ∙ >>-cong one (more (stream fs ++ rest))
          (process_all io channel process fs >> read_packets io channel process k rest) c
          (λ d. read_frames fs rest n k d h (omega arith))
      ∙ sym (
          >>-assoc_lem one (process_all io channel process fs)
            (read_packets io channel process k rest) c)

  pub length-stream : (fs : List Frame) → 2 * length fs ≤ length (stream fs)
  unfolding frame_bytes
  length-stream [] = omega arith
  length-stream (f ∷ fs) = omega (
    arith,
    length-stream fs,
    length-append (frame_bytes f) (stream fs),
    length-append (header_bytes f.header) f.body,
    header_nonempty f.header,
  )

  read_nothing : (k : ℕ) (c : Connection) → read_packets io channel process k [] c ≡ ok tt c
  unfolding read_packets
  read_nothing zero c = refl
  read_nothing (suc k) c = refl

  -- From a message, the packets of a stream that ends with the message.
  pub read_stream :
      (fs : List Frame) (c : Connection)
      → All IsFrame fs
      → read_packets io channel process (length (stream fs)) (stream fs) c
        ≡ process_all io channel process fs c
  read_stream fs c h =
      let k = length (stream fs) - length fs in
      ap (λ (t : Cursor). read_packets io channel process (length (stream fs)) t c)
        (sym (append-nil (stream fs)))
      ∙ read_frames fs [] (length (stream fs)) k c h (omega (arith, length-stream fs))
      ∙ >>-cong (process_all io channel process fs) (read_packets io channel process k [])
          (return tt) c (λ d. read_nothing k d)
      ∙ last (process_all io channel process fs c)
    where
      last :
          (r : Outcome Connection (Unit {0}))
          → (elim r [ ok a s ↦ ok tt s | err e s ↦ err e s ]) ≡ r
      last (ok a s) = refl
      last (err e s) = refl
