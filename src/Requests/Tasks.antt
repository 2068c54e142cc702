-- ===== src/Requests/Tasks.antt =====
-- What the task of a request does (`s_request_timeout_task` of source/client_channel_handler.c), and
-- how requests are created.
use aws_c_mqtt.Base.{
  ℕ, ◌+◌, ◌%◌, ◌^◌, ◌<◌, length, ◌≡◌, ◌≢◌, refl, sym, ap, subst, ◌∙◌, Bool, true, false, not, List,
  [], ◌∷◌, ◌++◌, Option, none, some, if◌then◌else◌, arith,
}
use aws_c_mqtt.Bytes.{Error}
use aws_c_mqtt.Client.{
  Event, on_complete, schedule_retry, Request, Connection, ChannelOps, emit, find_request,
}
use aws_c_mqtt.Requests.{
  RequestState, request_ongoing, request_complete as send_complete, request_error, run_ready,
  SendRequest, Surroundings, is_connected, update_request, remove_request, update_outstanding,
  new_request, push_pending, mark_initiated, mark_complete, finish_request, attempt, settle,
  request_timeout_task, create_request,
}
use aws_c_mqtt.Requests.Ids.{free_id_lem}
use aws_c_mqtt.Requests.Table.{
  IsDistinct, distinct_more, find_request-message_id, find_request-update_request,
  find_request-remove_other, find_request-remove_same, update_request-IsDistinct,
}

-- The callback of a request, where it has one.
abbrev pub alerted : Option Error → Request → List Event → List Event
alerted error_code r events =
    if r.has_on_complete then events ++ (on_complete r.message_id error_code ∷ []) else events

-- What a callback is told of the outcome of the sending.
abbrev pub error_of : RequestState → Option Error
error_of request_ongoing = none
error_of send_complete = none
error_of (request_error e) = some e

finish_request-events :
    (e : Option Error) (r : Request) (c : Connection)
    → (finish_request e r c).events ≡ alerted e r c.events
finish_request-events e r c = ground arith

finish_request-outstanding :
    (e : Option Error) (r : Request) (c : Connection)
    → (finish_request e r c).outstanding_requests
      ≡ update_request r.message_id mark_complete c.outstanding_requests
finish_request-outstanding e r c = ground arith

pub update_request_found :
    (id : ℕ) (g : Request → Request) (rs : List Request) (r : Request)
    → ((r : Request) → (g r).message_id ≡ r.message_id)
    → find_request id rs ≡ some r
    → find_request id (update_request id g rs) ≡ some (g r)
update_request_found id g rs r same h = ground (arith, find_request-update_request id id g rs same)

module _ (channel : ChannelOps) (send : SendRequest) where
  settle_completed :
      (id : ℕ) (c : Connection) (r : Request)
      → find_request id c.outstanding_requests ≡ some r
      → r.completed ≡ true
      → settle channel send id c
        ≡ record c { outstanding_requests = remove_request id c.outstanding_requests }
  unfolding settle
  settle_completed id c r h done = ground arith

  -- A task of a request that is there and not cancelled.
  pub request_timeout_task_ready :
      (id : ℕ) (c : Connection) (r : Request)
      → find_request id c.outstanding_requests ≡ some r
      → r.cancelled ≡ false
      → request_timeout_task channel send id run_ready c
        ≡ settle channel send id (update_outstanding id mark_initiated (attempt channel send r c))
  unfolding request_timeout_task
  request_timeout_task_ready id c r h live = ground arith

  attempt_completed :
      (r : Request) (c : Connection) → r.completed ≡ true → attempt channel send r c ≡ c
  unfolding attempt
  attempt_completed r c done = ground arith

  attempt_finished :
      (r : Request) (c c' : Connection) (state : RequestState)
      → r.completed ≡ false
      → send r.message_id (not r.initiated) c ≡ (state, c')
      → state ≢ request_ongoing
      → attempt channel send r c ≡ finish_request (error_of state) r c'
  unfolding attempt
  attempt_finished r c c' request_ongoing undone sent n = absurd (n refl)
  attempt_finished r c c' send_complete undone sent n = ground arith
  attempt_finished r c c' (request_error e) undone sent n = ground arith

  pub attempt_ongoing :
      (r : Request) (c c' : Connection)
      → r.completed ≡ false
      → send r.message_id (not r.initiated) c ≡ (request_ongoing, c')
      → attempt channel send r c ≡ c'
  unfolding attempt
  attempt_ongoing r c c' undone sent = ground arith

  -- The task of a request that an acknowledgement has completed does not send it again and calls
  -- nothing: it takes the request off the table, and leaves all others.
  pub request_timeout_task_acknowledged :
      (id : ℕ) (c : Connection) (r : Request)
      → IsDistinct c.outstanding_requests
      → find_request id c.outstanding_requests ≡ some r
      → r.cancelled ≡ false
      → r.completed ≡ true
      → let d = request_timeout_task channel send id run_ready c in
        (d.events ≡ c.events)
        × (find_request id d.outstanding_requests ≡ none)
        × ((other : ℕ)
            → id ≢ other
            → find_request other d.outstanding_requests ≡ find_request other c.outstanding_requests)
  request_timeout_task_acknowledged id c r distinct h live done =
      let d : Connection = update_outstanding id mark_initiated c in
      let ran : request_timeout_task channel send id run_ready c
          ≡ record d { outstanding_requests = remove_request id d.outstanding_requests } =
        request_timeout_task_ready id c r h live
        ∙ ap (λ (x : Connection). settle channel send id (update_outstanding id mark_initiated x))
            (attempt_completed r c done)
        ∙ settle_completed id d (mark_initiated r)
            (update_request_found id mark_initiated c.outstanding_requests r (λ x. refl) h) done in
      (
        ap (λ x. x.events) ran,
        ap (λ (x : Connection). find_request id x.outstanding_requests) ran
            ∙ find_request-remove_same id d.outstanding_requests (
                update_request-IsDistinct id mark_initiated c.outstanding_requests (λ x. refl)
                  distinct),
        λ other n.
            ap (λ (x : Connection). find_request other x.outstanding_requests) ran
            ∙ find_request-remove_other id other d.outstanding_requests n
            ∙ find_request-update_request id other mark_initiated c.outstanding_requests (λ x. refl)
            ∙ ground arith,
      )

  -- A request whose sending reports that it is complete, or an error: its callback, where it has one,
  -- is called once, after what the sending did, with the error 0 where the sending is complete and the
  -- one that the sending raised where it failed, and the request is taken off the table. The sending is one
  -- that leaves the request as it is and the message ids distinct.
  pub request_timeout_task_finished :
      (id : ℕ) (c c' : Connection) (r : Request) (state : RequestState)
      → find_request id c.outstanding_requests ≡ some r
      → r.cancelled ≡ false
      → r.completed ≡ false
      → send id (not r.initiated) c ≡ (state, c')
      → state ≢ request_ongoing
      → IsDistinct c'.outstanding_requests
      → find_request id c'.outstanding_requests ≡ some r
      → let d = request_timeout_task channel send id run_ready c in
        (d.events ≡ alerted (error_of state) r c'.events)
        × (find_request id d.outstanding_requests ≡ none)
        × ((other : ℕ)
            → id ≢ other
            → find_request other d.outstanding_requests
              ≡ find_request other c'.outstanding_requests)
  request_timeout_task_finished id c c' r state h live undone sent over distinct kept =
      let named = find_request-message_id id c.outstanding_requests r h in
      let b : Connection = finish_request (error_of state) r c' in
      let d : Connection = update_outstanding id mark_initiated b in
      let rs = c'.outstanding_requests in
      let table : b.outstanding_requests ≡ update_request id mark_complete rs =
        finish_request-outstanding (error_of state) r c'
        ∙ ap (λ (i : ℕ). update_request i mark_complete rs) named in
      let there : find_request id b.outstanding_requests ≡ some (mark_complete r) =
        ap (find_request id) table ∙ update_request_found id mark_complete rs r (λ x. refl) kept in
      let b_distinct : IsDistinct b.outstanding_requests =
        subst IsDistinct (sym table)
          (update_request-IsDistinct id mark_complete rs (λ x. refl) distinct) in
      let ran : request_timeout_task channel send id run_ready c
          ≡ record d { outstanding_requests = remove_request id d.outstanding_requests } =
        request_timeout_task_ready id c r h live
        ∙ ap (λ (x : Connection). settle channel send id (update_outstanding id mark_initiated x))
            (attempt_finished r c c' state undone
              (ap (λ (i : ℕ). send i (not r.initiated) c) named ∙ sent) over)
        ∙ settle_completed id d (mark_initiated (mark_complete r))
            (update_request_found id mark_initiated b.outstanding_requests (mark_complete r)
              (λ x. refl) there)
            refl in
      (
        ap (λ x. x.events) ran ∙ finish_request-events (error_of state) r c',
        ap (λ (x : Connection). find_request id x.outstanding_requests) ran
            ∙ find_request-remove_same id d.outstanding_requests (
                update_request-IsDistinct id mark_initiated b.outstanding_requests (λ x. refl)
                  b_distinct),
        λ other n.
            ap (λ (x : Connection). find_request other x.outstanding_requests) ran
            ∙ find_request-remove_other id other d.outstanding_requests n
            ∙ find_request-update_request id other mark_initiated b.outstanding_requests (λ x. refl)
            ∙ ground (
              arith,
              ap (find_request other) table,
              find_request-update_request id other mark_complete rs (λ x. refl),
            ),
      )

  pub settle_ongoing :
      (id : ℕ) (c : Connection) (r : Request)
      → find_request id c.outstanding_requests ≡ some r
      → r.completed ≡ false
      → settle channel send id c ≡ (
          if is_connected c.state
          then emit
              (schedule_retry id ((channel.current_clock_time + c.request_timeout_ns) % 2 ^ 64))
              c
          else push_pending id c)
  unfolding settle
  settle_ongoing id c r h undone = ground arith

  -- A request whose sending goes on is marked as sent and stays in the table; while the connection is
  -- up its task is scheduled for when the request times out, and otherwise it becomes pending.
  pub request_timeout_task_ongoing :
      (id : ℕ) (c c' : Connection) (r : Request)
      → find_request id c.outstanding_requests ≡ some r
      → r.cancelled ≡ false
      → r.completed ≡ false
      → send id (not r.initiated) c ≡ (request_ongoing, c')
      → find_request id c'.outstanding_requests ≡ some r
      → let d = request_timeout_task channel send id run_ready c in
        (find_request id d.outstanding_requests ≡ some (mark_initiated r))
        × (d.events ≡ (
            if is_connected c'.state
            then c'.events
              ++ (schedule_retry id ((channel.current_clock_time + c'.request_timeout_ns) % 2 ^ 64)
                  ∷ [])
            else c'.events))
        × (d.pending_requests ≡ (
            if is_connected c'.state
            then c'.pending_requests
            else c'.pending_requests ++ (id ∷ [])))
  request_timeout_task_ongoing id c c' r h live undone sent kept =
      let named = find_request-message_id id c.outstanding_requests r h in
      let b : Connection = update_outstanding id mark_initiated c' in
      let there =
        update_request_found id mark_initiated c'.outstanding_requests r (λ x. refl) kept in
      let ran =
        request_timeout_task_ready id c r h live
        ∙ ap (λ (x : Connection). settle channel send id (update_outstanding id mark_initiated x))
            (attempt_ongoing r c c' undone
              (ap (λ (i : ℕ). send i (not r.initiated) c) named ∙ sent))
        ∙ settle_ongoing id b (mark_initiated r) there undone in
      rw ran (settled b (is_connected c'.state) there)
    where
      settled :
          (b : Connection) (up : Bool)
          → find_request id b.outstanding_requests ≡ some (mark_initiated r)
          → let retry =
              schedule_retry id ((channel.current_clock_time + b.request_timeout_ns) % 2 ^ 64) in
            let d : Connection = (if up then emit retry b else push_pending id b) in
            (find_request id d.outstanding_requests ≡ some (mark_initiated r))
            × (d.events ≡ (if up then b.events ++ (retry ∷ []) else b.events))
            × (d.pending_requests
                ≡ (if up then b.pending_requests else b.pending_requests ++ (id ∷ [])))
      settled b true there = (there, refl, refl)
      settled b false there = (there, refl, refl)

  -- A new request while the connection is not up, with memory for it and fewer than 65535 requests
  -- outstanding: its message id is not 0, fits 16 bits and was not in use; the request is stored
  -- under it and becomes the last pending one; no other request changes, and message ids stay
  -- distinct.
  pub create_request_pending :
      (around : Surroundings) (has_on_complete : Bool) (c : Connection)
      → around.can_acquire ≡ true
      → around.can_put ≡ true
      → is_connected c.state ≡ false
      → length c.outstanding_requests < 65535
      → IsDistinct c.outstanding_requests
      → (id : ℕ) × (0 < id)
        × (id < 2 ^ 16)
        × (find_request id c.outstanding_requests ≡ none)
        × (create_request channel send around has_on_complete c ≡ (
          id,
          push_pending id (record c {
            outstanding_requests = new_request id has_on_complete ∷ c.outstanding_requests;
          }),
        ))
        × IsDistinct (new_request id has_on_complete ∷ c.outstanding_requests)
  unfolding create_request
  create_request_pending around has_on_complete c acquire put down few distinct =
      let (id, found, above, below, free) = free_id_lem c.outstanding_requests few in
      (
        id,
        above,
        below,
        free,
        ground (arith, found),
        distinct_more (new_request id has_on_complete) c.outstanding_requests free distinct,
      )
