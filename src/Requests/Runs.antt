-- ===== src/Requests/Runs.antt =====
-- Runs of a connection's requests (source/client_channel_handler.c): requests are created, their tasks
-- run or are canceled, and acknowledgements arrive, in any order.
use aws_c_mqtt.Base.{
  ◌+◌, ℕ, ◌%◌, ◌^◌, ◌≡◌, refl, sym, ap, subst, ◌∙◌, Bool, true, false, not, List, [], ◌∷◌, Option,
  none, some, if◌then◌else◌, arith,
}
use aws_c_mqtt.Bytes.{Error, Outcome, ok, err, null_dereference}
use aws_c_mqtt.Client.{
  Event, schedule_retry, Request, Connection, ChannelOps, emit, on_complete, schedule_request,
  find_request, request_complete, mark_completed,
}
use aws_c_mqtt.Requests.{
  RequestState, request_ongoing, request_complete as send_complete, request_error, TaskStatus,
  run_ready, canceled, SendRequest, Surroundings, is_connected, update_request, remove_request,
  update_outstanding, free_id, new_request, push_pending, mark_initiated, mark_cancelled,
  mark_complete, finish_request, attempt, settle, request_timeout_task, create_request,
}
use aws_c_mqtt.Requests.Table.{
  IsDistinct, distinct_more, update_request-IsDistinct, remove_request-IsDistinct,
  find_request-free_id,
}

-- The message ids of the outstanding requests are distinct.
abbrev pub HasDistinctIds : Connection → Type 0
HasDistinctIds c = IsDistinct c.outstanding_requests

-- Sending a request keeps them so.
abbrev pub KeepsDistinctIds : SendRequest → Type 0
KeepsDistinctIds send =
    (id : ℕ) (first : Bool) (c : Connection) → HasDistinctIds c → HasDistinctIds (send id first c).1

mark_completed_lem :
    (id : ℕ) (rs : List Request) → mark_completed id rs ≡ update_request id mark_complete rs
unfolding mark_completed update_request
mark_completed_lem id [] = refl
mark_completed_lem id (r ∷ rs) = ground (arith, mark_completed_lem id rs)

finish_request-HasDistinctIds :
    (e : Option Error) (r : Request) (c : Connection)
    → HasDistinctIds c
    → HasDistinctIds (finish_request e r c)
finish_request-HasDistinctIds e r c d = step r.has_on_complete
  where
    marked : Connection
    marked = update_outstanding r.message_id mark_complete c

    step :
        (b : Bool) → HasDistinctIds (if b then emit (on_complete r.message_id e) marked else marked)
    step true =
        update_request-IsDistinct r.message_id mark_complete c.outstanding_requests (λ x. refl) d
    step false =
        update_request-IsDistinct r.message_id mark_complete c.outstanding_requests (λ x. refl) d

request_complete-HasDistinctIds :
    (id : ℕ) (c d : Connection)
    → HasDistinctIds c
    → request_complete id c ≡ ok tt d
    → HasDistinctIds d
unfolding request_complete
request_complete-HasDistinctIds id c d h e = step (find_request id c.outstanding_requests) e
  where
    marked : IsDistinct (mark_completed id c.outstanding_requests)
    marked =
        subst IsDistinct (sym (mark_completed_lem id c.outstanding_requests))
          (update_request-IsDistinct id mark_complete c.outstanding_requests (λ x. refl) h)

    outstanding_of : Outcome Connection (Unit {0}) → List Request
    outstanding_of (ok _ x) = x.outstanding_requests
    outstanding_of (err _ x) = x.outstanding_requests

    same :
        (b : Bool)
        → (if b then emit (on_complete id none) c else c).outstanding_requests
          ≡ c.outstanding_requests
    same true = refl
    same false = refl

    step :
        (m : Option Request)
        → (elim m as (λ _. Outcome Connection (Unit {0})) [
          | none ↦ err null_dereference c
          | some r ↦
              let alerted = if r.has_on_complete then emit (on_complete id none) c else c in
              ok tt (record alerted {
                outstanding_requests = mark_completed id alerted.outstanding_requests;
              })
        ])
          ≡ ok tt d
        → HasDistinctIds d
    step none k = absurd (cc k)
    step (some r) k =
        subst IsDistinct
          (ap (mark_completed id) (sym (same r.has_on_complete)) ∙ ap outstanding_of k) marked

module _ (channel : ChannelOps) (send : SendRequest) (keeps : KeepsDistinctIds send) where
  attempt-HasDistinctIds :
      (r : Request) (c : Connection) → HasDistinctIds c → HasDistinctIds (attempt channel send r c)
  unfolding attempt
  attempt-HasDistinctIds r c d = step r.completed (send r.message_id (not r.initiated) c).0
    where
      sent : Connection
      sent = (send r.message_id (not r.initiated) c).1

      sent_distinct : HasDistinctIds sent
      sent_distinct = keeps r.message_id (not r.initiated) c d

      step :
          (b : Bool) (state : RequestState)
          → HasDistinctIds (elim b as (λ _. Connection) [
            | true ↦ c
            | false ↦ elim state as (λ _. Connection) [
              | request_ongoing ↦ sent
              | send_complete ↦ finish_request none r sent
              | request_error e ↦ finish_request (some e) r sent
            ]
          ])
      step true state = d
      step false request_ongoing = sent_distinct
      step false send_complete = finish_request-HasDistinctIds none r sent sent_distinct
      step false (request_error e) = finish_request-HasDistinctIds (some e) r sent sent_distinct

  settle-HasDistinctIds :
      (id : ℕ) (c : Connection) → HasDistinctIds c → HasDistinctIds (settle channel send id c)
  unfolding settle
  settle-HasDistinctIds id c d = step (find_request id c.outstanding_requests)
    where
      waits : (b : Bool) (x : Event) → HasDistinctIds (if b then emit x c else push_pending id c)
      waits true x = d
      waits false x = d

      done :
          (b : Bool) (x : Event)
          → HasDistinctIds (
              if b
              then record c { outstanding_requests = remove_request id c.outstanding_requests }
              else (if is_connected c.state then emit x c else push_pending id c))
      done true x = remove_request-IsDistinct id c.outstanding_requests d
      done false x = waits (is_connected c.state) x

      step :
          (m : Option Request)
          → HasDistinctIds (elim m as (λ _. Connection) [
            | none ↦ c
            | some r ↦
                if r.completed
                then record c { outstanding_requests = remove_request id c.outstanding_requests }
                else (if is_connected c.state
                    then emit
                        (schedule_retry id
                          ((channel.current_clock_time + c.request_timeout_ns) % 2 ^ 64))
                        c
                    else push_pending id c)
          ])
      step none = d
      step (some r) = done r.completed _

  request_timeout_task-HasDistinctIds :
      (id : ℕ) (status : TaskStatus) (c : Connection)
      → HasDistinctIds c
      → HasDistinctIds (request_timeout_task channel send id status c)
  unfolding request_timeout_task
  request_timeout_task-HasDistinctIds id status c d =
      step (find_request id c.outstanding_requests) status
    where
      ran : Request → Connection
      ran r =
          settle channel send id (update_outstanding id mark_initiated (attempt channel send r c))

      live : (r : Request) (b : Bool) → HasDistinctIds (if b then c else ran r)
      live r true = d
      live r false =
          settle-HasDistinctIds id _ (
            update_request-IsDistinct id mark_initiated _ (λ x. refl)
              (attempt-HasDistinctIds r c d))

      step :
          (m : Option Request) (status : TaskStatus)
          → HasDistinctIds (elim m as (λ _. Connection) [
            | none ↦ c
            | some r ↦ elim status as (λ _. Connection) [
              | canceled ↦ update_outstanding id mark_cancelled c
              | run_ready ↦ if r.cancelled then c else ran r
            ]
          ])
      step none status = d
      step (some r) canceled =
          update_request-IsDistinct id mark_cancelled c.outstanding_requests (λ x. refl) d
      step (some r) run_ready = live r r.cancelled

  create_request-HasDistinctIds :
      (around : Surroundings) (has_on_complete : Bool) (c : Connection)
      → HasDistinctIds c
      → HasDistinctIds (create_request channel send around has_on_complete c).1
  unfolding create_request
  create_request-HasDistinctIds around has_on_complete c d =
      step (free_id (2 ^ 16) 0 c.outstanding_requests) refl (not around.can_acquire)
        (not around.can_put)
    where
      stored : ℕ → Connection
      stored id = record c {
        outstanding_requests = new_request id has_on_complete ∷ c.outstanding_requests;
      }

      started :
          (id : ℕ) (down on_thread : Bool)
          → HasDistinctIds (stored id)
          → HasDistinctIds (
              if down
              then push_pending id (stored id)
              else (if on_thread
                  then request_timeout_task channel send id run_ready (stored id)
                  else emit (schedule_request id) (stored id)))
      started id true on_thread k = k
      started id false true k = request_timeout_task-HasDistinctIds id run_ready (stored id) k
      started id false false k = k

      Created : ℕ × Connection → Type 0
      Created made = HasDistinctIds made.1

      put :
          (id : ℕ) (full : Bool)
          → HasDistinctIds (stored id)
          → Created (
              if full then (0, c) else (
                id,
                if not (is_connected c.state)
                    then push_pending id (stored id)
                    else (if around.is_callers_thread
                        then request_timeout_task channel send id run_ready (stored id)
                        else emit (schedule_request id) (stored id)),
              ))
      put id true k = d
      put id false k = started id (not (is_connected c.state)) around.is_callers_thread k

      step :
          (m : Option ℕ)
          → free_id (2 ^ 16) 0 c.outstanding_requests ≡ m
          → (poor full : Bool)
          → Created (
              if poor then (0, c) else elim m as (λ _. ℕ × Connection) [
                | none ↦ (0, c)
                | some id ↦ if full then (0, c) else (
                  id,
                  if not (is_connected c.state)
                      then push_pending id (stored id)
                      else (if around.is_callers_thread
                          then request_timeout_task channel send id run_ready (stored id)
                          else emit (schedule_request id) (stored id)),
                )
              ])
      step m e true full = d
      step none e false full = d
      step (some id) e false full = put id full (
          distinct_more (new_request id has_on_complete) c.outstanding_requests
            (find_request-free_id (2 ^ 16) 0 c.outstanding_requests id e) d)

  -- One step, and a run of steps.
  pub data Run : Connection → Connection → Type 0 where
    run_none : (c : Connection) → Run c c
    run_create :
        (around : Surroundings) (has_on_complete : Bool) (c d : Connection)
        → Run (create_request channel send around has_on_complete c).1 d
        → Run c d
    run_task :
        (id : ℕ) (status : TaskStatus) (c d : Connection)
        → Run (request_timeout_task channel send id status c) d
        → Run c d
    run_acknowledge :
        (id : ℕ) (c c' d : Connection) → request_complete id c ≡ ok tt c' → Run c' d → Run c d

  -- Where sending keeps the message ids of the outstanding requests distinct, so does every run of
  -- requests created, tasks run or canceled, and acknowledgements of outstanding requests.
  pub Run-HasDistinctIds : (c d : Connection) → HasDistinctIds c → Run c d → HasDistinctIds d
  Run-HasDistinctIds c _ h (run_none _) = h
  Run-HasDistinctIds c d h (run_create around has_on_complete _ _ more) =
      Run-HasDistinctIds _ d (create_request-HasDistinctIds around has_on_complete c h) more
  Run-HasDistinctIds c d h (run_task id status _ _ more) =
      Run-HasDistinctIds _ d (request_timeout_task-HasDistinctIds id status c h) more
  Run-HasDistinctIds c d h (run_acknowledge id _ c' _ e more) =
      Run-HasDistinctIds c' d (request_complete-HasDistinctIds id c c' h e) more
