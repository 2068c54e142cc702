-- ===== src/Channel.antt =====
-- The incoming bytes of source/client_channel_handler.c (`s_process_read_message`): the packets of a
-- message are cut out and handed to `s_process_mqtt_packet`, and a packet that is not there in full
-- is kept until more bytes arrive.
pub mod Framing
pub mod Messages
pub mod Resume
pub mod Termination
use aws_c_mqtt.Base.{
  ℕ, zero, suc, ◌+◌, ◌-◌, ◌/◌, ◌%◌, ◌^◌, Bool, true, false, not, List, [], ◌∷◌, ◌++◌, Option, none,
  some, ◌==◌, ltb, if◌then◌else◌, length,
}
use aws_c_mqtt.Bytes.{
  ByteBuf, ByteOps, Cursor, Error, Op, Outcome, ok, err, ◌>>=◌, ◌>>◌, return, raise, out_of_fuel,
  null_dereference, short_buffer, raised_elsewhere,
}
use aws_c_mqtt.FixedHeader.{
  FixedHeader, HeaderState, zero_header, fixed_header_decode, get_packet_type,
}
use aws_c_mqtt.Client.{
  Connection, ChannelOps, emit, zero_buf, increment_read_window, release_message,
}

-- `struct aws_io_message`
pub record Message : Type 0 where
  pub is_application_data : Bool
  pub message_data : List ℕ

-- `s_process_mqtt_packet`: the type and the bytes of a packet.
abbrev pub Process : Type 0
Process = ℕ → Cursor → Op Connection (Unit {0})

abbrev pub set_pending : ByteBuf → Connection → Connection
set_pending b c = record c { pending_packet = b }

-- `*packet_data.ptr`, for a buffer that holds a byte.
abbrev pub first_byte_of : List ℕ → ℕ
first_byte_of [] = 0
first_byte_of (x ∷ bs) = x

module _ (io : ByteOps) (channel : ChannelOps) (process : Process) where
  -- The complete packet is handled; the pending packet is cleaned up whatever comes of it.
  unfoldable pub handle_pending : Op Connection (Unit {0})
  handle_pending c =
      elim (process (get_packet_type (first_byte_of c.pending_packet.buffer))
        c.pending_packet.buffer c) [
          | ok _ d ↦ ok tt (set_pending zero_buf d)
          | err e d ↦ err e (set_pending zero_buf d)
        ]

  -- The bytes that the pending packet lacks are taken from the message. The answer is what is left
  -- of the message, or `none` where the packet is still not complete.
  unfoldable pub complete_pending : Cursor → Op Connection (Option Cursor)
  complete_pending cur c =
      let pending = c.pending_packet in
      let lacks = (pending.capacity + 2 ^ 64 - length pending.buffer) % 2 ^ 64 in
      let packet_complete = not (ltb (length cur) lacks) in
      let (chunk, rest) = io.advance cur (if packet_complete then lacks else length cur) in
      elim (io.write pending chunk) [
        | none ↦ err raised_elsewhere (set_pending zero_buf c)
        | some filled ↦
            if packet_complete
            then (handle_pending >> return (some rest)) (set_pending filled c)
            else ok none (set_pending filled c)
      ]

  -- A packet that the message ends in: what there is of it is stored.
  unfoldable pub store_partial : ℕ → Cursor → Op Connection (Unit {0})
  store_partial size cur c =
      if channel.can_allocate size
      then elim (io.write (record { buffer = []; capacity = size }) cur) [
        | none ↦ err raised_elsewhere (set_pending zero_buf c)
        | some b ↦ ok tt (set_pending b c)
      ]
      else err raised_elsewhere c

  -- The result is dropped; a null pointer that was read through is no result.
  unfoldable pub process_and_go_on : ℕ → Cursor → Op Connection (Unit {0})
  process_and_go_on type packet c = elim (process type packet c) [
    | ok _ d ↦ ok tt d
    | err e d ↦ elim e [ null_dereference ↦ err null_dereference d | e' ↦ ok tt d ]
  ]

  -- `while (message_cursor.len) { ... }`
  unfoldable pub read_packets : ℕ → Cursor → Op Connection (Unit {0})
  read_packets zero cur c = if length cur == 0 then ok tt c else err out_of_fuel c
  read_packets (suc fuel) cur c =
      let more = read_packets fuel in
      if length cur == 0
      then ok tt c
      else elim (fixed_header_decode io (record { cur = cur; header = zero_header })) [
        | ok _ s ↦
            let size = (length cur - length s.cur + s.header.remaining_length) % 2 ^ 64 in
            let (packet, rest) = io.advance cur size in
            (process_and_go_on s.header.packet_type packet >> more rest) c
        | err e s ↦ elim e [
          | short_buffer ↦
              store_partial ((length cur - length s.cur + s.header.remaining_length) % 2 ^ 64) cur c
          | e' ↦ err e' c
        ]
      ]

  -- The message is given back and the window opened by its size.
  unfoldable pub finish_message : Message → Op Connection (Unit {0})
  finish_message m c =
      ok tt (emit release_message (emit (increment_read_window (length m.message_data)) c))

  unfoldable pub read_and_finish : Message → Option Cursor → Op Connection (Unit {0})
  read_and_finish m none = return tt
  read_and_finish m (some cur) = read_packets (length cur) cur >> finish_message m

  unfoldable pub process_read_message : Message → Op Connection (Unit {0})
  process_read_message m c =
      if not m.is_application_data
      then err raised_elsewhere c
      else (if ltb (length m.message_data) 1
          then err raised_elsewhere c
          else (if length c.pending_packet.buffer == 0
              then read_and_finish m (some m.message_data) c
              else (complete_pending m.message_data >>= read_and_finish m) c))
