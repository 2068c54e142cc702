-- ===== src/Client.antt =====
-- The client connection (include/aws/mqtt/private/client_impl.h) as far as the channel handler
-- keeps it, and what it asks of the channel and of the user.
pub mod Tasks
use aws_c_mqtt.Base.{
  ℕ, Bool, true, List, [], ◌∷◌, ◌++◌, Option, none, some, if◌then◌else◌, ◌==◌, ◌≡◌, ◌≤◌, ◌<◌,
}
use aws_c_mqtt.Bytes.{ByteBuf, Error, null_dereference, Op, ok, err}
use aws_c_mqtt.Packets.Publish.{PublishPacket}
use aws_c_mqtt.TopicTree.{TopicTree}
use aws_c_mqtt.Client.Tasks.{Memory}

-- `enum aws_mqtt_client_connection_state`
pub data ConnectionState : Type 0 where
  connecting : ConnectionState
  connected : ConnectionState
  reconnecting : ConnectionState
  disconnecting : ConnectionState
  disconnected : ConnectionState

unfoldable pub state_number : ConnectionState → ℕ
state_number connecting = 0
state_number connected = 1
state_number reconnecting = 2
state_number disconnecting = 3
state_number disconnected = 4

-- What happens outside the connection, in the order in which it happens. A callback is an entry:
-- it is not run, so it does not change the connection.
pub data Event : Type 0 where
  on_resumed : ℕ → Bool → Event
  on_connection_complete : ℕ → Bool → Event
  -- The same callback with an error, the return code 0 and no session.
  on_connection_error : Error → Event
  -- The `on_complete` of a request, with its message id and the error, if it is given one.
  on_complete : ℕ → Option Error → Event
  -- `aws_channel_schedule_task_now` of the timeout task of a request.
  schedule_request : ℕ → Event
  -- `aws_channel_schedule_task_future` of that task, at this time.
  schedule_retry : ℕ → ℕ → Event
  -- `aws_channel_schedule_task_future` of the ping task, this many seconds from now.
  schedule_ping : ℕ → Event
  -- The shutdown task of `mqtt_disconnect_impl`, with its error.
  schedule_shutdown : Error → Event
  -- `aws_channel_slot_send_message`, with the data of the message.
  send_message : List ℕ → Event
  -- The `on_publish` of a subscription, with its user data, the topic and the payload.
  on_publish : ℕ → ℕ → List ℕ → List ℕ → Event
  -- `aws_channel_slot_on_handler_shutdown_complete`
  shutdown_complete : Event
  increment_read_window : ℕ → Event
  release_message : Event

-- `struct aws_mqtt_outstanding_request`: its callback is known by whether there is one.
pub record Request : Type 0 where
  pub message_id : ℕ
  pub initiated : Bool
  pub completed : Bool
  pub cancelled : Bool
  pub has_on_complete : Bool

-- `struct aws_mqtt_client_connection`. The table of outstanding requests is a list of them, the
-- pending requests are their message ids, and the buffer of `AWS_ZERO_STRUCT` is the empty one of
-- capacity 0.
pub record Connection : Type 0 where
  pub state : ConnectionState
  pub connection_count : ℕ
  pub keep_alive_time_secs : ℕ
  pub request_timeout_ns : ℕ
  pub has_slot : Bool
  pub has_on_resumed : Bool
  pub has_on_connection_complete : Bool
  pub outstanding_requests : List Request
  pub pending_requests : List ℕ
  pub last_pingresp_timestamp : ℕ
  pub pending_packet : ByteBuf
  pub subscriptions : TopicTree
  pub memory : Memory
  pub events : List Event

-- The channel of aws-c-io and the allocator of aws-c-common.
pub record ChannelOps : Type 0 where
  -- `aws_channel_acquire_message_from_pool`, with the size asked for: the data of the message.
  pub acquire_message : ℕ → Option ByteBuf
  -- Whether `aws_channel_slot_send_message` takes the data.
  pub can_send : List ℕ → Bool
  pub current_clock_time : ℕ
  -- Whether `aws_byte_buf_init` gets this much memory.
  pub can_allocate : ℕ → Bool

-- A channel that sends every message, and a pool that gives empty messages of the size asked for, or
-- larger ones, where no more is asked for than a packet takes whose remaining length is below 16384.
pub record IsOpen (channel : ChannelOps) : Type 0 where
  pub sends : (bs : List ℕ) → channel.can_send bs ≡ true
  pub gives :
      (size : ℕ)
      → size < 16387
      → (room : ℕ) × (channel.acquire_message size ≡ some (record { buffer = []; capacity = room }))
        × (size ≤ room)

-- `aws_mqtt_topic_tree_publish` of the connection's subscriptions.
abbrev pub Deliver : Type 0
Deliver = PublishPacket → Op Connection (Unit {0})

abbrev pub emit : Event → Connection → Connection
emit e c = record c { events = c.events ++ (e ∷ []) }

abbrev pub zero_buf : ByteBuf
zero_buf = record { buffer = []; capacity = 0 }

-- s_default_keep_alive_ping_freq_secs
abbrev pub default_keep_alive_ping_freq_secs : ℕ
default_keep_alive_ping_freq_secs = 3600

unfoldable pub schedule_next_ping : Connection → Connection
schedule_next_ping c =
    emit
      (schedule_ping (
        if c.keep_alive_time_secs == 0
        then default_keep_alive_ping_freq_secs
        else c.keep_alive_time_secs))
      c

unfoldable pub disconnect_impl : Error → Connection → Connection
disconnect_impl e c = if c.has_slot then emit (schedule_shutdown e) c else c

-- `aws_hash_table_find` by message id.
unfoldable pub find_request : ℕ → List Request → Option Request
find_request id [] = none
find_request id (r ∷ rs) =
    let rest = find_request id rs in if r.message_id == id then some r else rest

unfoldable pub mark_completed : ℕ → List Request → List Request
mark_completed id [] = []
mark_completed id (r ∷ rs) =
    let rest = mark_completed id rs in
    if r.message_id == id then record r { completed = true } ∷ rs else r ∷ rest

-- The assertion that the request is there is nothing in a release build, which then reads
-- `elem->value` through a null pointer.
unfoldable pub request_complete : ℕ → Op Connection (Unit {0})
request_complete id c = elim (find_request id c.outstanding_requests) [
  | none ↦ err null_dereference c
  | some r ↦
      let alerted = if r.has_on_complete then emit (on_complete id none) c else c in
      ok tt
        (record alerted { outstanding_requests = mark_completed id alerted.outstanding_requests })
]
