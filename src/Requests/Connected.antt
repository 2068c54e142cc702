-- ===== src/Requests/Connected.antt =====
-- A request that is created while the connection is up, on the channel's thread: it is sent at once
-- (`mqtt_create_request` of source/client_channel_handler.c).
use aws_c_mqtt.Base.{
  ℕ, ◌+◌, ◌%◌, ◌^◌, ◌<◌, ◌≡◌, refl, ap, ◌∙◌, Bool, true, false, not, List, [], ◌∷◌, none, some,
  ◌++◌, append_assoc, length, arith,
}
use aws_c_mqtt.Client.{Event, schedule_retry, Request, Connection, ChannelOps, emit, find_request}
use aws_c_mqtt.Requests.{
  request_ongoing, run_ready, SendRequest, Surroundings, is_connected, update_outstanding,
  new_request, mark_initiated, settle, request_timeout_task, create_request,
}
use aws_c_mqtt.Requests.Ids.{free_id_lem}
use aws_c_mqtt.Requests.Tasks.{
  request_timeout_task_ready, attempt_ongoing, settle_ongoing, update_request_found,
}

-- The connection with a new request in its table.
abbrev pub stored : ℕ → Bool → Connection → Connection
stored id has_on_complete c = record c {
  outstanding_requests = new_request id has_on_complete ∷ c.outstanding_requests;
}

module _ (channel : ChannelOps) (send : SendRequest) where
  -- The next attempt of a request that was sent.
  abbrev pub retry : ℕ → Connection → Connection
  retry id d =
      emit (schedule_retry id ((channel.current_clock_time + d.request_timeout_ns) % 2 ^ 64))
        (update_outstanding id mark_initiated d)

  request_timeout_task_sent :
      (id : ℕ) (c d : Connection) (r : Request)
      → find_request id c.outstanding_requests ≡ some r
      → r.message_id ≡ id
      → r.cancelled ≡ false
      → r.completed ≡ false
      → send id (not r.initiated) c ≡ (request_ongoing, d)
      → find_request id d.outstanding_requests ≡ some r
      → is_connected d.state ≡ true
      → request_timeout_task channel send id run_ready c ≡ retry id d
  request_timeout_task_sent id c d r found named live undone sent kept up =
      request_timeout_task_ready channel send id c r found live
      ∙ ap (λ (x : Connection). settle channel send id (update_outstanding id mark_initiated x))
          (attempt_ongoing channel send r c d undone
            (ap (λ (i : ℕ). send i (not r.initiated) c) named ∙ sent))
      ∙ settle_ongoing channel send id (update_outstanding id mark_initiated d) (mark_initiated r)
          (update_request_found id mark_initiated d.outstanding_requests r (λ x. refl) kept) undone
      ∙ rw up refl

  pub stored_found :
      (id : ℕ) (b : Bool) (c : Connection)
      → find_request id (stored id b c).outstanding_requests ≡ some (new_request id b)
  unfolding find_request
  stored_found id b c = ground arith

  -- A new request while the connection is up, on the channel's thread, with memory for it and fewer than
  -- 65535 requests outstanding, whose sending goes on and leaves the table and the state of the connection:
  -- its message id is not 0, fits 16 bits and was not in use, and the connection is the one that
  -- sending the request made, with the request marked as sent and its next attempt scheduled.
  pub create_request_connected :
      (around : Surroundings) (has_on_complete : Bool) (c : Connection)
      → around.can_acquire ≡ true
      → around.can_put ≡ true
      → around.is_callers_thread ≡ true
      → is_connected c.state ≡ true
      → length c.outstanding_requests < 65535
      → ((id : ℕ)
          → 0 < id
          → id < 2 ^ 16
          → let s = send id true (stored id has_on_complete c) in
            (s.0 ≡ request_ongoing)
            × (s.1.outstanding_requests ≡ (stored id has_on_complete c).outstanding_requests)
            × (s.1.state ≡ c.state))
      → (id : ℕ) × (0 < id)
        × (id < 2 ^ 16)
        × (find_request id c.outstanding_requests ≡ none)
        × (create_request channel send around has_on_complete c
            ≡ (id, retry id (send id true (stored id has_on_complete c)).1))
  unfolding create_request
  create_request_connected around b c acquire put thread up few sends =
      let (id, found, above, below, free) = free_id_lem c.outstanding_requests few in
      let (ongoing, table, state) = sends id above below in
      let d : Connection = (send id true (stored id b c)).1 in
      let ran : request_timeout_task channel send id run_ready (stored id b c) ≡ retry id d =
        request_timeout_task_sent id (stored id b c) d (new_request id b) (stored_found id b c) refl
          refl refl (ap (λ x. (x, d)) ongoing) (ap (find_request id) table ∙ stored_found id b c)
          (ap is_connected state ∙ up) in
      (id, above, below, free, ground (arith, found, acquire, put, thread, up, ran))

  -- What is sent, and the next attempt.
  pub retry-events :
      (id : ℕ) (c d : Connection) (sent : List Event)
      → d.events ≡ c.events ++ sent
      → d.request_timeout_ns ≡ c.request_timeout_ns
      → (retry id d).events
        ≡ c.events
          ++ (sent
              ++ (schedule_retry id ((channel.current_clock_time + c.request_timeout_ns) % 2 ^ 64)
                  ∷ []))
  retry-events id c d sent e same =
      let next : ℕ → Event = λ n. schedule_retry id ((channel.current_clock_time + n) % 2 ^ 64) in
      ap (λ (es : List Event). es ++ (next d.request_timeout_ns ∷ [])) e
      ∙ append_assoc c.events sent (next d.request_timeout_ns ∷ [])
      ∙ ap (λ (n : ℕ). c.events ++ (sent ++ (next n ∷ []))) same

  -- The request is in the table, marked as sent.
  pub retry-found :
      (id : ℕ) (b : Bool) (c d : Connection)
      → d.outstanding_requests ≡ (stored id b c).outstanding_requests
      → find_request id (retry id d).outstanding_requests ≡ some (mark_initiated (new_request id b))
  retry-found id b c d e =
      update_request_found id mark_initiated d.outstanding_requests (new_request id b) (λ x. refl)
        (ap (find_request id) e ∙ stored_found id b c)
