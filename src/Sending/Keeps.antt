-- ===== src/Sending/Keeps.antt =====
-- The routines of source/client.c that send requests leave the table of requests as it is.
use aws_c_mqtt.Base.{
  ℕ, zero, suc, ◌+◌, ◌%◌, ◌^◌, ◌≡◌, refl, sym, subst, Bool, true, false, List, [], ◌∷◌, Option,
  none, some, if◌then◌else◌, ◌==◌, length,
}
use aws_c_mqtt.Bytes.{ByteBuf, ByteOps, Outcome, ok, err, raised_elsewhere}
use aws_c_mqtt.Client.{send_message, Connection, ChannelOps, emit}
use aws_c_mqtt.Packets.Publish.{PublishPacket, publish_init, publish_encode_headers}
use aws_c_mqtt.Requests.{RequestState, request_ongoing, request_complete, request_error}
use aws_c_mqtt.Requests.Table.{IsDistinct}
use aws_c_mqtt.Requests.Runs.{KeepsDistinctIds}
use aws_c_mqtt.Sending.Chunks.{next_round}
use aws_c_mqtt.Sending.{PublishTask, write_chunk, publish_chunks, publish_send}

-- The connection that a call leaves.
abbrev left_by : Outcome Connection (Unit {0}) → Connection
left_by (ok _ c) = c
left_by (err _ c) = c

module _ (io : ByteOps) (channel : ChannelOps) where
  publish_chunks-outstanding :
      (fuel size : ℕ) (m : ByteBuf) (payload : List ℕ) (c : Connection)
      → (left_by (publish_chunks io channel fuel size m payload c)).outstanding_requests
        ≡ c.outstanding_requests
  unfolding publish_chunks
  publish_chunks-outstanding zero size m payload c = refl
  publish_chunks-outstanding (suc fuel) size m payload c =
      wrote (write_chunk io channel m payload).0 (write_chunk io channel m payload).1
        (λ next rest d. publish_chunks-outstanding fuel size next rest d)
    where
      Same : Outcome Connection (Unit {0}) → Type 0
      Same o = (left_by o).outstanding_requests ≡ c.outstanding_requests

      sent :
          (filled : ByteBuf) (is_sent : Bool) (rest : List ℕ) (acquired : Option ByteBuf)
          → ((next : ByteBuf) (rest : List ℕ) (d : Connection)
              → (left_by (publish_chunks io channel fuel size next rest d)).outstanding_requests
                ≡ d.outstanding_requests)
          → Same (next_round io channel fuel size c filled is_sent rest acquired)
      sent filled false rest acquired ih = refl
      sent filled true [] acquired ih = refl
      sent filled true (byte ∷ bytes) none ih = refl
      sent filled true (byte ∷ bytes) (some next) ih =
          ih next (byte ∷ bytes) (emit (send_message filled.buffer) c)

      wrote :
          (written : Option ByteBuf) (rest : List ℕ)
          → ((next : ByteBuf) (rest : List ℕ) (d : Connection)
              → (left_by (publish_chunks io channel fuel size next rest d)).outstanding_requests
                ≡ d.outstanding_requests)
          → Same (elim written as (λ _. Outcome Connection (Unit {0})) [
            | none ↦ err raised_elsewhere c
            | some filled ↦
                next_round io channel fuel size c filled
                  (channel.can_send filled.buffer)
                  rest
                  (channel.acquire_message size)
          ])
      wrote none rest ih = refl
      wrote (some filled) rest ih =
          sent filled (channel.can_send filled.buffer) rest (channel.acquire_message size) ih

  -- Sending a publish leaves the table of outstanding requests as it is.
  pub publish_send-outstanding :
      (task : PublishTask) (id : ℕ) (first : Bool) (c : Connection)
      → (publish_send io channel task id first c).1.outstanding_requests ≡ c.outstanding_requests
  unfolding publish_send
  publish_send-outstanding task id first c =
      acquired (channel.acquire_message ((3 + publish.fixed_header.remaining_length) % 2 ^ 64))
    where
      publish : PublishPacket
      publish =
          publish_init task.retain task.qos false task.topic (if task.qos == 0 then 0 else id)
            task.payload

      size : ℕ
      size = (3 + publish.fixed_header.remaining_length) % 2 ^ 64

      Kept : RequestState × Connection → Type 0
      Kept r = r.1.outstanding_requests ≡ c.outstanding_requests

      after :
          (o : Outcome Connection (Unit {0}))
          → (left_by o).outstanding_requests ≡ c.outstanding_requests
          → Kept (elim o as (λ _. RequestState × Connection) [
            | err e t ↦ (request_error e, t)
            | ok _ t ↦ (if task.qos == 0 then request_complete else request_ongoing, t)
          ])
      after (ok _ t) h = h
      after (err e t) h = h

      encoded :
          (o : Outcome ByteBuf (Unit {0}))
          → Kept (elim o as (λ _. RequestState × Connection) [
            | err e _ ↦ (request_error e, c)
            | ok _ filled ↦
                elim (publish_chunks io channel
                    (length task.payload + 2)
                    size
                    filled
                    task.payload
                    c)
                  as (λ _. RequestState × Connection) [
                    | err e t ↦ (request_error e, t)
                    | ok _ t ↦ (if task.qos == 0 then request_complete else request_ongoing, t)
                  ]
          ])
      encoded (err e _) = refl
      encoded (ok _ filled) =
          after (publish_chunks io channel (length task.payload + 2) size filled task.payload c)
            (publish_chunks-outstanding (length task.payload + 2) size filled task.payload c)

      acquired :
          (m : Option ByteBuf)
          → Kept (elim m as (λ _. RequestState × Connection) [
            | none ↦ (request_error raised_elsewhere, c)
            | some message ↦
                elim (publish_encode_headers io publish message)
                  as (λ _. RequestState × Connection) [
                    | err e _ ↦ (request_error e, c)
                    | ok _ filled ↦
                        elim (publish_chunks io channel
                            (length task.payload + 2)
                            size
                            filled
                            task.payload
                            c)
                          as (λ _. RequestState × Connection) [
                            | err e t ↦ (request_error e, t)
                            | ok _ t ↦
                                (if task.qos == 0 then request_complete else request_ongoing, t)
                          ]
                  ]
          ])
      acquired none = refl
      acquired (some message) = encoded (publish_encode_headers io publish message)

  -- Sending a publish keeps the message ids of the outstanding requests distinct.
  pub publish_send-KeepsDistinctIds :
      (task : PublishTask) → KeepsDistinctIds (publish_send io channel task)
  publish_send-KeepsDistinctIds task id first c d =
      subst IsDistinct (sym (publish_send-outstanding task id first c)) d
