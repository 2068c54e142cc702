-- ===== src/UserCalls/Pinged.antt =====
-- What the ping task (`s_on_time_to_ping` of source/client_channel_handler.c) comes to while the
-- connection is up.
use aws_c_mqtt.Base.{
  ℕ, ◌+◌, ◌%◌, ◌^◌, ◌<◌, ◌≡◌, refl, ap, ◌∙◌, true, false, List, [], ◌∷◌, ◌++◌, none, some,
  if◌then◌else◌, ◌==◌, length, append_assoc, arith,
}
use aws_c_mqtt.Bytes.{ByteBuf, IsByteOps}
use aws_c_mqtt.FixedHeader.Wire.{header_bytes, length_bytes}
use aws_c_mqtt.Packets.Connection.{pingreq_init, inits-IsConnection, connection_encode-Writes}
use aws_c_mqtt.Client.{
  IsOpen, Event, schedule_retry, schedule_ping, send_message, Connection, emit, find_request,
  schedule_next_ping, default_keep_alive_ping_freq_secs,
}
use aws_c_mqtt.Requests
use aws_c_mqtt.Requests.{
  request_ongoing, run_ready, is_connected, new_request, mark_initiated, create_request,
  SendRequest,
}
use aws_c_mqtt.Requests.Connected.{
  stored, retry, retry-events, retry-found, create_request_connected,
}
use aws_c_mqtt.Sending.{pingreq_send}
use aws_c_mqtt.Subscribing
use aws_c_mqtt.UserCalls.{connection_ping, on_time_to_ping}
use aws_c_mqtt.UserCalls.Subscribed.{IsServed}

-- The PINGREQ.
abbrev pub pingreq_bytes : List ℕ
pingreq_bytes = 192 ∷ 0 ∷ []

module _ (around : Subscribing.Surroundings) (law : IsByteOps around.io)
    (open_law : IsOpen around.channel) (pool : Requests.Surroundings) (served : IsServed pool) where
  pingreq_send_first :
      (id : ℕ) (c : Connection)
      → pingreq_send around.io around.channel id true c
        ≡ (request_ongoing, emit (send_message pingreq_bytes) c)
  unfolding pingreq_send pingreq_init header_bytes length_bytes
  pingreq_send_first id c =
      let (room, acquired, enough) = open_law.gives 3 (omega arith) in
      let b : ByteBuf = record { buffer = []; capacity = room } in
      let written =
        (connection_encode-Writes around.io law pingreq_init inits-IsConnection.0 b (omega arith)).0
          (omega arith) in
      ground (arith, acquired, written, open_law.sends pingreq_bytes)

  -- The ping task on the channel's thread while the connection is up, with memory for a request and fewer than
  -- 65535 outstanding, over an open channel that sends, whose pool gives empty messages of at least the
  -- size that is asked for: the two bytes of a PINGREQ are sent, the look at whether an answer came is
  -- scheduled for when the request times out, and the next ping after the keep alive time of the
  -- connection, or after the default where that is 0; the request is outstanding under an id that
  -- was not in use.
  pub on_time_to_ping_lem :
      (c : Connection)
      → is_connected c.state ≡ true
      → length c.outstanding_requests < 65535
      → (id : ℕ) × (0 < id)
        × (find_request id c.outstanding_requests ≡ none)
        × ((on_time_to_ping around pool run_ready c).events
            ≡ c.events
              ++ (send_message pingreq_bytes
                  ∷ schedule_retry id
                      ((around.channel.current_clock_time + c.request_timeout_ns) % 2 ^ 64)
                  ∷ schedule_ping (
                      if c.keep_alive_time_secs == 0
                      then default_keep_alive_ping_freq_secs
                      else c.keep_alive_time_secs)
                  ∷ []))
        × (find_request id (on_time_to_ping around pool run_ready c).outstanding_requests
            ≡ some (mark_initiated (new_request id false)))
  unfolding on_time_to_ping connection_ping schedule_next_ping
  on_time_to_ping_lem c up few =
      let send : SendRequest = pingreq_send around.io around.channel in
      let (id, above, below, free, created) =
        create_request_connected around.channel send pool false c served.acquires served.puts
          served.on_thread up few
          (λ id a b.
            let e = pingreq_send_first id (stored id false c) in
            (ap (λ r. r.0) e, ap (λ r. r.1.outstanding_requests) e, ap (λ r. r.1.state) e)) in
      let sent : Connection = emit (send_message pingreq_bytes) (stored id false c) in
      let ran : connection_ping around pool c ≡ retry around.channel send id sent =
        ap (λ r. r.1) created
        ∙ ap (λ r. retry around.channel send id r.1) (pingreq_send_first id (stored id false c)) in
      let next : Event = schedule_ping (
        if c.keep_alive_time_secs == 0
        then default_keep_alive_ping_freq_secs
        else c.keep_alive_time_secs) in
      (
        id,
        above,
        free,
        ap (λ (d : Connection). (schedule_next_ping d).events) ran
            ∙ ap (λ (es : List Event). es ++ (next ∷ []))
                (retry-events around.channel send id c sent (send_message pingreq_bytes ∷ []) refl
                  refl)
            ∙ append_assoc c.events _ (next ∷ []),
        ap (λ (d : Connection). find_request id d.outstanding_requests) ran
            ∙ retry-found around.channel send id false c sent refl,
      )
