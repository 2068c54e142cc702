-- ===== src/Requests.antt =====
-- The outstanding requests of a connection (source/client_channel_handler.c): how they are created,
-- sent, sent again, and taken off. A request is known by its message id. Locks are not kept: one
-- call runs at a time.
pub mod Ids
pub mod Table
pub mod Tasks
pub mod Runs
pub mod Connected
use aws_c_mqtt.Base.{
  ℕ, zero, suc, ◌+◌, ◌%◌, ◌^◌, Bool, true, false, not, List, [], ◌∷◌, ◌++◌, Option, none, some,
  if◌then◌else◌, ◌==◌,
}
use aws_c_mqtt.Bytes.{Error}
use aws_c_mqtt.Client.{
  ConnectionState, state_number, Event, on_complete, schedule_request, schedule_retry, Request,
  Connection, ChannelOps, emit, find_request,
}

-- `enum aws_mqtt_client_request_state`
pub data RequestState : Type 0 where
  request_ongoing request_complete : RequestState
  -- With the error that `aws_last_error` has.
  request_error : Error → RequestState

-- `enum aws_task_status`
pub data TaskStatus : Type 0 where
  run_ready canceled : TaskStatus

-- `aws_mqtt_send_request_fn`: it is given the message id and whether this is the first attempt.
abbrev pub SendRequest : Type 0
SendRequest = ℕ → Bool → Connection → RequestState × Connection

-- What a new request finds: memory in the pool and in the table, and whether the caller is on the
-- channel's thread.
pub record Surroundings : Type 0 where
  pub can_acquire : Bool
  pub can_put : Bool
  pub is_callers_thread : Bool

-- `connection->state == AWS_MQTT_CLIENT_STATE_CONNECTED`
abbrev pub is_connected : ConnectionState → Bool
is_connected s = state_number s == 1

-- A change of the request with a message id.
unfoldable pub update_request : ℕ → (Request → Request) → List Request → List Request
update_request id g [] = []
update_request id g (r ∷ rs) =
    let rest = update_request id g rs in if r.message_id == id then g r ∷ rs else r ∷ rest

-- `aws_hash_table_remove` by message id.
unfoldable pub remove_request : ℕ → List Request → List Request
remove_request id [] = []
remove_request id (r ∷ rs) =
    let rest = remove_request id rs in if r.message_id == id then rs else r ∷ rest

abbrev pub update_outstanding : ℕ → (Request → Request) → Connection → Connection
update_outstanding id g c = record c {
  outstanding_requests = update_request id g c.outstanding_requests;
}

-- `do { ++next_id; ... } while (elem)`, with a `uint16_t`: after 2 ^ 16 rounds every number has been
-- tried.
unfoldable pub free_id : ℕ → ℕ → List Request → Option ℕ
free_id zero id rs = none
free_id (suc fuel) id rs =
    let next = (id + 1) % 2 ^ 16 in
    let later = free_id fuel next rs in
    elim (find_request next rs) [ none ↦ some next | some r ↦ later ]

abbrev pub new_request : ℕ → Bool → Request
new_request id has_on_complete = record {
  message_id = id;
  initiated = false;
  completed = false;
  cancelled = false;
  has_on_complete = has_on_complete;
}

abbrev pub push_pending : ℕ → Connection → Connection
push_pending id c = record c { pending_requests = c.pending_requests ++ (id ∷ []) }

abbrev pub mark_initiated : Request → Request
mark_initiated r = record r { initiated = true }

abbrev pub mark_cancelled : Request → Request
mark_cancelled r = record r { cancelled = true }

abbrev pub mark_complete : Request → Request
mark_complete r = record r { completed = true }

-- The request is complete, and its callback, if it has one, is called with `error_code`, of which
-- `none` is 0.
abbrev pub finish_request : Option Error → Request → Connection → Connection
finish_request error_code r c =
    let marked = update_outstanding r.message_id mark_complete c in
    if r.has_on_complete then emit (on_complete r.message_id error_code) marked else marked

module _ (channel : ChannelOps) (send : SendRequest) where
  -- `if (!request->completed) { ... }`
  unfoldable pub attempt : Request → Connection → Connection
  attempt r c =
      let (state, sent) = send r.message_id (not r.initiated) c in
      elim r.completed [
        | true ↦ c
        | false ↦ elim state [
          | request_ongoing ↦ sent
          | request_complete ↦ finish_request none r sent
          | request_error e ↦ finish_request (some e) r sent
        ]
      ]

  -- What is next for a request after an attempt.
  unfoldable pub settle : ℕ → Connection → Connection
  settle id c = elim (find_request id c.outstanding_requests) [
    | none ↦ c
    | some r ↦
        if r.completed
        then record c { outstanding_requests = remove_request id c.outstanding_requests }
        else (if is_connected c.state
            then emit
                (schedule_retry id ((channel.current_clock_time + c.request_timeout_ns) % 2 ^ 64)) c
            else push_pending id c)
  ]

  -- The task of a request. A task of a request that is gone does not run.
  unfoldable pub request_timeout_task : ℕ → TaskStatus → Connection → Connection
  request_timeout_task id status c = elim (find_request id c.outstanding_requests) [
    | none ↦ c
    | some r ↦ elim status [
      | canceled ↦ update_outstanding id mark_cancelled c
      | run_ready ↦
          if r.cancelled then c else settle id (update_outstanding id mark_initiated (attempt r c))
    ]
  ]

  -- `mqtt_create_request`, with whether it is given a callback: the message id, or 0.
  unfoldable pub create_request : Surroundings → Bool → Connection → ℕ × Connection
  create_request around has_on_complete c =
      if not around.can_acquire then (0, c) else elim (free_id (2 ^ 16) 0 c.outstanding_requests) [
        | none ↦ (0, c)
        | some id ↦ if not around.can_put then (0, c) else (
          id,
          let stored : Connection = record c {
            outstanding_requests = new_request id has_on_complete ∷ c.outstanding_requests;
          } in
              if not (is_connected c.state)
              then push_pending id stored
              else (if around.is_callers_thread
                  then request_timeout_task id run_ready stored
                  else emit (schedule_request id) stored),
        )
      ]
