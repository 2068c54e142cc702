-- ===== src/Sending/Chunks.antt =====
-- The messages that carry a publish (`s_publish_send` of source/client.c).
use aws_c_mqtt.Base.{
  ℕ, zero, suc, ◌+◌, ◌-◌, ◌%◌, ◌^◌, ◌≤◌, ◌<◌, ◌≡◌, ◌≢◌, refl, sym, ap, subst, ◌∙◌, Bool, true,
  false, List, [], ◌∷◌, ◌++◌, Option, none, some, if◌then◌else◌, ◌==◌, length, length-take,
  length-drop, take-append-drop, append_assoc, append-nil, take, drop, map, arith, dec_lt,
}
use aws_c_mqtt.Bytes.{
  ByteBuf, ByteOps, IsByteOps, Outcome, ok, err, append, null_dereference, raised_elsewhere,
}
use aws_c_mqtt.Client.{Event, send_message, Connection, ChannelOps, emit}
use aws_c_mqtt.Sending.{to_write, write_chunk, publish_chunks}

-- A buffer that keeps its capacity.
pub record IsBuffer (m : ByteBuf) : Type 0 where
  pub filled : length m.buffer ≤ m.capacity
  pub small : m.capacity < 2 ^ 64

-- A channel that sends every message, and gives empty messages with room for a byte at least.
pub record IsServing (channel : ChannelOps) : Type 0 where
  pub sends : (bs : List ℕ) → channel.can_send bs ≡ true
  pub gives :
      (size : ℕ)
      → (room : ℕ) × (channel.acquire_message size ≡ some (record { buffer = []; capacity = room }))
        × (0 < room)
        × (room < 2 ^ 64)

nonempty : (bs : List ℕ) → bs ≢ [] → 0 < length bs
nonempty [] h = absurd (h refl)
nonempty (x ∷ bs) h = omega arith

to_write_lem :
    (m : ByteBuf) (payload : List ℕ)
    → IsBuffer m
    → (to_write m payload ≤ length payload)
      × (length m.buffer + to_write m payload ≤ m.capacity)
      × (length m.buffer < m.capacity → payload ≢ [] → 0 < to_write m payload)
to_write_lem m payload v =
    let left : (m.capacity + 2 ^ 64 - length m.buffer) % 2 ^ 64 ≡ m.capacity - length m.buffer =
      omega (arith, v.small, v.filled) in
    (
      ground (arith, left),
      ground (arith, left, v.filled),
      λ room h. ground (arith, left, nonempty payload h),
    )

write_chunk_lem :
    (io : ByteOps) (channel : ChannelOps) (law : IsByteOps io) (m : ByteBuf) (payload : List ℕ)
    → IsBuffer m
    → length payload < 2 ^ 63
    → write_chunk io channel m payload
      ≡ (some (append m (take (to_write m payload) payload)), drop (to_write m payload) payload)
unfolding write_chunk
write_chunk_lem io channel law m payload v short = step (to_write m payload == 0) refl
  where
    n : ℕ
    n = to_write m payload

    target : Option ByteBuf × List ℕ
    target = (some (append m (take n payload)), drop n payload)

    kept : Option ByteBuf × List ℕ
    kept = (some m, payload)

    written : Option ByteBuf × List ℕ
    written = let (chunk, rest) = io.advance payload n in (io.write m chunk, rest)

    nothing : n ≡ 0 → kept ≡ target
    nothing e =
        subst
          (λ (k : ℕ).
            ◌≡◌ {A = Option ByteBuf × List ℕ} kept
              (some (append m (take k payload)), drop k payload))
          (sym e)
          (ap (λ (bs : List ℕ). (some (record m { buffer = bs }), payload))
            (sym (append-nil m.buffer)))

    something : written ≡ target
    something =
        let (within, room, _) = to_write_lem m payload v in
        let put : io.write m (take n payload) ≡ some (append m (take n payload)) =
          law.write_lem m (take n payload) ∙ ground (arith, length-take n payload within, room) in
        ap (λ (r : List ℕ × List ℕ). (io.write m r.0, r.1))
          (law.advance_lem payload n within (omega (arith, within)))
        ∙ ap (λ (o : Option ByteBuf). (o, drop n payload)) put

    step : (b : Bool) → (n == 0) ≡ b → (if b then kept else written) ≡ target
    step true e = nothing (ground arith)
    step false e = something

-- The messages of a publish, as events.
abbrev pub sent_as : List (List ℕ) → Connection → Connection
sent_as messages c = record c { events = c.events ++ map send_message messages }

unfoldable pub join_all : List (List ℕ) → List ℕ
join_all [] = []
join_all (m ∷ ms) = m ++ join_all ms

module _ (io : ByteOps) (channel : ChannelOps) where
  -- What a round does, by whether the message is sent, the rest, and the next message.
  abbrev pub next_round :
      ℕ → ℕ → Connection → ByteBuf → Bool → List ℕ → Option ByteBuf → Outcome Connection (Unit {0})
  next_round fuel size c filled is_sent rest acquired = elim is_sent [
    | false ↦ err raised_elsewhere c
    | true ↦ elim rest [
      | [] ↦ ok tt (emit (send_message filled.buffer) c)
      | byte ∷ bytes ↦ elim acquired [
        | none ↦ err null_dereference (emit (send_message filled.buffer) c)
        | some next ↦
            publish_chunks io channel fuel size next (byte ∷ bytes)
              (emit (send_message filled.buffer) c)
      ]
    ]
  ]

  publish_chunks_round :
      (law : IsByteOps io) (serving : IsServing channel) (fuel size : ℕ) (m : ByteBuf)
      (payload rest : List ℕ) (c : Connection) (acquired : Option ByteBuf)
      → IsBuffer m
      → length payload < 2 ^ 63
      → drop (to_write m payload) payload ≡ rest
      → channel.acquire_message size ≡ acquired
      → publish_chunks io channel (suc fuel) size m payload c
        ≡ next_round fuel size c (append m (take (to_write m payload) payload)) true rest acquired
  unfolding publish_chunks
  publish_chunks_round law serving fuel size m payload rest c acquired v short cut at =
      let filled = append m (take (to_write m payload) payload) in
      ap
        (λ (w : Option ByteBuf × List ℕ). elim w.0 as (λ _. Outcome Connection (Unit {0})) [
          | none ↦ err raised_elsewhere c
          | some filled ↦
              next_round fuel size c filled (channel.can_send filled.buffer) w.1
                (channel.acquire_message size)
        ])
        (write_chunk_lem io channel law m payload v short)
      ∙ ap
          (λ (b : Bool).
            next_round fuel size c filled b (drop (to_write m payload) payload)
              (channel.acquire_message size))
          (serving.sends filled.buffer)
      ∙ ap (λ (r : List ℕ). next_round fuel size c filled true r (channel.acquire_message size)) cut
      ∙ ap (λ (a : Option ByteBuf). next_round fuel size c filled true rest a) at

  -- A payload is sent in chunks behind what the first message holds, with as many rounds as it has
  -- bytes and one more, or two more where the first message is full: every message is sent, and all
  -- of them together are what the first held and the payload. The channel sends every message and
  -- gives messages with room for a byte at least.
  pub publish_chunks_lem :
      (law : IsByteOps io) (serving : IsServing channel) (fuel size : ℕ) (m : ByteBuf)
      (payload : List ℕ) (c : Connection)
      → IsBuffer m
      → length payload < 2 ^ 63
      → length payload < fuel
      → (length m.buffer ≡ m.capacity → suc (length payload) < fuel)
      → (messages : List (List ℕ)) × (publish_chunks io channel fuel size m payload c
          ≡ ok tt (sent_as messages c))
        × (join_all messages ≡ m.buffer ++ payload)
  publish_chunks_lem law serving zero size m payload c v short enough more = absurd (omega arith)
  publish_chunks_lem law serving (suc fuel) size m payload c v short enough more =
      step (drop (to_write m payload) payload) refl
        (λ next rest d. publish_chunks_lem law serving fuel size next rest d)
    where
      n : ℕ
      n = to_write m payload

      filled : ByteBuf
      filled = append m (take n payload)

      whole : (rest : List ℕ) → drop n payload ≡ rest → filled.buffer ++ rest ≡ m.buffer ++ payload
      whole rest cut =
          append_assoc m.buffer (take n payload) rest
          ∙ ap (λ (bs : List ℕ). m.buffer ++ bs)
              (ap (λ (bs : List ℕ). take n payload ++ bs) (sym cut) ∙ take-append-drop n payload)

      rest_length : (rest : List ℕ) → drop n payload ≡ rest → length rest ≡ length payload - n
      rest_length rest cut = sym (ap length cut) ∙ length-drop n payload

      progress : (rest : List ℕ) → drop n payload ≡ rest → rest ≢ [] → length rest < fuel
      progress rest cut h =
          let left = rest_length rest cut in
          let some_left = nonempty rest h in
          let (_, _, positive) = to_write_lem m payload v in
          elim (dec_lt (length m.buffer) m.capacity) [
            | yes room ↦ omega (
              arith,
              left,
              enough,
              positive room (λ e. omega (arith, left, some_left, ap length e)),
              some_left,
            )
            | no full ↦ omega (arith, left, more (omega (arith, full, v.filled)))
          ]

      step :
          (rest : List ℕ)
          → drop n payload ≡ rest
          → ((next : ByteBuf) (rest : List ℕ) (d : Connection)
              → IsBuffer next
              → length rest < 2 ^ 63
              → length rest < fuel
              → (length next.buffer ≡ next.capacity → suc (length rest) < fuel)
              → (messages : List (List ℕ)) × (publish_chunks io channel fuel size next rest d
                  ≡ ok tt (sent_as messages d))
                × (join_all messages ≡ next.buffer ++ rest))
          → (messages : List (List ℕ)) × (publish_chunks io channel (suc fuel) size m payload c
              ≡ ok tt (sent_as messages c))
            × (join_all messages ≡ m.buffer ++ payload)
      step [] cut ih = (
        filled.buffer ∷ [],
        publish_chunks_round law serving fuel size m payload [] c _ v short cut refl,
        unfold join_all in whole [] cut,
      )
      step (byte ∷ bytes) cut ih =
          let (room, at, some_room, small) = serving.gives size in
          let next : ByteBuf = record { buffer = []; capacity = room } in
          let d = emit (send_message filled.buffer) c in
          let (messages, run, all) =
            ih next (byte ∷ bytes) d (record { filled = omega arith; small = small })
              (omega (arith, rest_length (byte ∷ bytes) cut, short))
              (progress (byte ∷ bytes) cut (λ e. cc)) (λ e. absurd (omega (arith, e, some_room))) in
          (
            filled.buffer ∷ messages,
            publish_chunks_round law serving fuel size m payload (byte ∷ bytes) c _ v short cut at
                ∙ run
                ∙ ap (λ (es : List Event). ok tt (record c { events = es }))
                    (append_assoc c.events (send_message filled.buffer ∷ [])
                      (map send_message messages)),
            unfold join_all in
                ap (λ (bs : List ℕ). filled.buffer ++ bs) all ∙ whole (byte ∷ bytes) cut,
          )
