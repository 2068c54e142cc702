-- ===== src/Sending.antt =====
-- The routines of source/client.c that send the requests of a ping and of a publish.
pub mod Chunks
pub mod Keeps
use aws_c_mqtt.Base.{
  ℕ, zero, suc, ◌+◌, ◌-◌, ◌%◌, ◌^◌, Bool, true, false, List, [], ◌∷◌, ◌++◌, Option, none, some,
  if◌then◌else◌, ◌==◌, ltb, length,
}
use aws_c_mqtt.Bytes.{
  ByteBuf, ByteOps, Op, Outcome, ok, err, out_of_fuel, null_dereference, raised_elsewhere, timeout,
}
use aws_c_mqtt.Client.{Event, send_message, Connection, ChannelOps, emit, disconnect_impl}
use aws_c_mqtt.Packets.Connection.{pingreq_init, connection_encode}
use aws_c_mqtt.Packets.Publish.{PublishPacket, publish_init, publish_encode_headers}
use aws_c_mqtt.Requests.{
  RequestState, request_ongoing, request_complete, request_error, SendRequest,
}

-- How much of the payload the message takes: `left_in_message` is a `size_t`.
abbrev pub to_write : ByteBuf → List ℕ → ℕ
to_write m payload =
    let left_in_message = (m.capacity + 2 ^ 64 - length m.buffer) % 2 ^ 64 in
    if ltb (length payload) left_in_message then length payload else left_in_message

-- What a publish is asked to send.
pub record PublishTask : Type 0 where
  pub topic : List ℕ
  pub qos : ℕ
  pub retain : Bool
  pub payload : List ℕ

module _ (io : ByteOps) (channel : ChannelOps) where
  -- `s_pingreq_send`
  unfoldable pub pingreq_send : SendRequest
  pingreq_send id is_first_attempt c =
      if is_first_attempt
      then (elim (channel.acquire_message 3) [
        | none ↦ (request_error raised_elsewhere, c)
        | some message ↦ elim (connection_encode io pingreq_init message) [
          | err e _ ↦ (request_error e, c)
          | ok _ filled ↦
              if channel.can_send filled.buffer
              then (request_ongoing, emit (send_message filled.buffer) c)
              else (request_error raised_elsewhere, c)
        ]
      ])
      else (
        request_complete,
        if ltb c.request_timeout_ns
              ((channel.current_clock_time + 2 ^ 64 - c.last_pingresp_timestamp) % 2 ^ 64)
            then disconnect_impl timeout c
            else c,
      )

  -- `if (to_write) { ... }`: the message, where it could be written, and the rest of the payload.
  unfoldable pub write_chunk : ByteBuf → List ℕ → Option ByteBuf × List ℕ
  write_chunk m payload =
      if to_write m payload == 0
      then (some m, payload)
      else (let (chunk, rest) = io.advance payload (to_write m payload) in (io.write m chunk, rest))

  -- From `write_payload_chunk` on. `size` is asked for each message. The next message is used without
  -- a look at whether it is null. Each round but the first takes a byte of the payload, where every
  -- message has room for one.
  unfoldable pub publish_chunks : ℕ → ℕ → ByteBuf → List ℕ → Op Connection (Unit {0})
  publish_chunks zero size m payload c = err out_of_fuel c
  publish_chunks (suc fuel) size m payload c =
      let (written, rest) = write_chunk m payload in
      elim written [
        | none ↦ err raised_elsewhere c
        | some filled ↦ elim (channel.can_send filled.buffer) [
          | false ↦ err raised_elsewhere c
          | true ↦ elim rest [
            | [] ↦ ok tt (emit (send_message filled.buffer) c)
            | byte ∷ bytes ↦ elim (channel.acquire_message size) [
              | none ↦ err null_dereference (emit (send_message filled.buffer) c)
              | some next ↦
                  publish_chunks fuel size next (byte ∷ bytes) (emit (send_message filled.buffer) c)
            ]
          ]
        ]
      ]

  -- `s_publish_send`. A publish that is sent again is initialized as it was at first.
  unfoldable pub publish_send : PublishTask → SendRequest
  publish_send task id is_first_attempt c =
      let is_qos_0 = task.qos == 0 in
      let message_id = if is_qos_0 then 0 else id in
      let publish = publish_init task.retain task.qos false task.topic message_id task.payload in
      let size = (3 + publish.fixed_header.remaining_length) % 2 ^ 64 in
      elim (channel.acquire_message size) [
        | none ↦ (request_error raised_elsewhere, c)
        | some message ↦ elim (publish_encode_headers io publish message) [
          | err e _ ↦ (request_error e, c)
          | ok _ filled ↦
              elim (publish_chunks (length task.payload + 2) size filled task.payload c) [
                | err e t ↦ (request_error e, t)
                | ok _ t ↦ (if is_qos_0 then request_complete else request_ongoing, t)
              ]
        ]
      ]
