-- ===== src/Tests/Requests.antt =====
-- Requests on a connection with two of them outstanding.
use aws_c_mqtt.Base.{
  ℕ, ◌+◌, ◌%◌, ◌^◌, ◌<◌, ◌≡◌, ◌≢◌, refl, true, false, [], ◌∷◌, ◌++◌, none, some, if◌then◌else◌,
  arith,
}
use aws_c_mqtt.Bytes.{raised_elsewhere}
use aws_c_mqtt.Client.{
  state_number, connecting, connected, on_complete, schedule_retry, send_message, Request,
  Connection, emit, find_request,
}
use aws_c_mqtt.Requests.{
  request_ongoing, request_error, run_ready, canceled, SendRequest, Surroundings, is_connected,
  free_id, new_request, push_pending, mark_initiated, request_timeout_task, create_request,
}
use aws_c_mqtt.Requests.Table.{IsDistinct, distinct_none, distinct_more}
use aws_c_mqtt.Requests.Tasks.{
  request_timeout_task_acknowledged, request_timeout_task_finished, request_timeout_task_ongoing,
  create_request_pending,
}
use aws_c_mqtt.Requests.Runs.{run_none, run_task, HasDistinctIds, Run-HasDistinctIds}
use aws_c_mqtt.Tests.Stream.{idle, open_channel}

-- A request that waits for its acknowledgement, and one that has it.
abbrev waiting : Request
waiting = new_request 1 true

abbrev acknowledged : Request
acknowledged = record (new_request 2 true) { initiated = true; completed = true }

abbrev busy : Connection
busy = record idle { state = connected; outstanding_requests = waiting ∷ (acknowledged ∷ []) }

abbrev offline : Connection
offline = record busy { state = connecting }

-- Sending that writes a byte, and goes on or fails.
abbrev goes_on : SendRequest
goes_on = λ id first c. (request_ongoing, emit (send_message (id ∷ [])) c)

abbrev fails : SendRequest
fails = λ id first c. (request_error raised_elsewhere, emit (send_message (id ∷ [])) c)

abbrev calm : Surroundings
calm = record { can_acquire = true; can_put = true; is_callers_thread = true }

abbrev sent : Connection
sent = emit (send_message (1 ∷ [])) busy

busy_distinct : HasDistinctIds busy
unfolding find_request
busy_distinct = distinct_more waiting _ refl (distinct_more acknowledged [] refl distinct_none)

found_waiting : find_request 1 busy.outstanding_requests ≡ some waiting
unfolding find_request
found_waiting = refl

found_acknowledged : find_request 2 busy.outstanding_requests ≡ some acknowledged
unfolding find_request
found_acknowledged = refl

offline_down : is_connected offline.state ≡ false
unfolding state_number
offline_down = refl

-- The next request has the id 3.
next_id_test : free_id 10 0 busy.outstanding_requests ≡ some 3
unfolding free_id find_request
next_id_test = refl

create_request_pending_example :
    (id : ℕ) × (0 < id)
    × (id < 2 ^ 16)
    × (find_request id offline.outstanding_requests ≡ none)
    × (create_request open_channel goes_on calm true offline ≡ (
      id,
      push_pending id (record offline {
        outstanding_requests = new_request id true ∷ offline.outstanding_requests;
      }),
    ))
    × IsDistinct (new_request id true ∷ offline.outstanding_requests)
create_request_pending_example =
    create_request_pending open_channel goes_on calm true offline refl refl offline_down
      (omega arith) busy_distinct

request_timeout_task_acknowledged_example :
    let d = request_timeout_task open_channel goes_on 2 run_ready busy in
    (d.events ≡ busy.events)
    × (find_request 2 d.outstanding_requests ≡ none)
    × ((other : ℕ)
        → 2 ≢ other
        → find_request other d.outstanding_requests ≡ find_request other busy.outstanding_requests)
request_timeout_task_acknowledged_example =
    request_timeout_task_acknowledged open_channel goes_on 2 busy acknowledged busy_distinct
      found_acknowledged refl refl

request_timeout_task_finished_example :
    let d = request_timeout_task open_channel fails 1 run_ready busy in
    (d.events ≡ sent.events ++ (on_complete 1 (some raised_elsewhere) ∷ []))
    × (find_request 1 d.outstanding_requests ≡ none)
    × ((other : ℕ)
        → 1 ≢ other
        → find_request other d.outstanding_requests ≡ find_request other sent.outstanding_requests)
request_timeout_task_finished_example =
    request_timeout_task_finished open_channel fails 1 busy sent waiting
      (request_error raised_elsewhere) found_waiting refl refl refl (λ e. cc) busy_distinct
      found_waiting

request_timeout_task_ongoing_example :
    let d = request_timeout_task open_channel goes_on 1 run_ready busy in
    (find_request 1 d.outstanding_requests ≡ some (mark_initiated waiting))
    × (d.events ≡ (
        if is_connected sent.state
        then sent.events ++ (schedule_retry 1 ((5 + 3000000000) % 2 ^ 64) ∷ [])
        else sent.events))
    × (d.pending_requests ≡ (
        if is_connected sent.state
        then sent.pending_requests
        else sent.pending_requests ++ (1 ∷ [])))
request_timeout_task_ongoing_example =
    request_timeout_task_ongoing open_channel goes_on 1 busy sent waiting found_waiting refl refl
      refl found_waiting

abbrev canceled_after : Connection
canceled_after =
    request_timeout_task open_channel goes_on 1 canceled
      (request_timeout_task open_channel goes_on 2 run_ready busy)

Run-HasDistinctIds_example : HasDistinctIds canceled_after
Run-HasDistinctIds_example =
    Run-HasDistinctIds open_channel goes_on (λ id first c d. d) busy canceled_after busy_distinct
      (run_task 2 run_ready busy canceled_after
        (run_task 1 canceled _ canceled_after (run_none canceled_after)))
