-- ===== src/Session.antt =====
-- The life of a client connection (source/client.c): attempts to connect, their back-off, and what
-- happens when the channel is shut down. A callback of the user is an event; the only call that the
-- user makes from one is the disconnect from `on_interrupted`.
pub mod BackOff
pub mod Shutdown
use aws_c_mqtt.Base.{
  ℕ, zero, suc, ◌+◌, ◌*◌, ◌/◌, ◌%◌, ◌^◌, Bool, true, false, not, List, [], ◌∷◌, ◌++◌, if◌then◌else◌,
  ltb, ◌==◌,
}
use aws_c_mqtt.Client.{
  state_number, ConnectionState, connecting, connected, reconnecting, disconnecting, disconnected,
  Request,
}
use aws_c_mqtt.TopicTree.{TopicTree, topic_tree_init, topic_node_destroy}

-- What the connection asks of the user, the channel, the bootstrap and the event loop.
pub data SessionEvent : Type 0 where
  -- With their error codes.
  on_interrupted : ℕ → SessionEvent
  on_connection_complete : ℕ → SessionEvent
  on_disconnect : SessionEvent
  slot_remove : SessionEvent
  -- `aws_client_bootstrap_new_socket_channel`, or its TLS counterpart.
  new_channel : SessionEvent
  -- The reconnect task is scheduled at this time.
  schedule_reconnect : ℕ → SessionEvent
  -- The shutdown task of `mqtt_disconnect_impl`.
  schedule_shutdown : SessionEvent

-- The part of `struct aws_mqtt_client_connection` that these calls keep.
pub record Session : Type 0 where
  pub state : ConnectionState
  pub has_slot : Bool
  pub clean_session : Bool
  pub subscriptions : TopicTree
  pub outstanding_requests : List Request
  -- `reconnect_timeouts`
  pub current : ℕ
  pub min : ℕ
  pub max : ℕ
  pub next_attempt : ℕ
  pub events : List SessionEvent

-- What is not under this connection's control, at one call.
pub record World : Type 0 where
  -- `aws_high_res_clock_get_ticks`
  pub ticks : ℕ
  -- `aws_timestamp_convert` from seconds to nanoseconds.
  pub to_nanos : ℕ → ℕ
  -- Whether the bootstrap begins to make a channel.
  pub can_begin : Bool
  -- Whether the user calls disconnect from `on_interrupted`.
  pub user_disconnects : Bool

abbrev pub tell : SessionEvent → Session → Session
tell e s = record s { events = s.events ++ (e ∷ []) }

abbrev pub set_state : ConnectionState → Session → Session
set_state state s = record s { state = state }

abbrev pub set_reconnect_timeout : ℕ → ℕ → Session → Session
set_reconnect_timeout min max s = record s { min = min; max = max }

-- The subscriptions are cleaned up, and the tree is made again.
abbrev pub reset_tree : TopicTree → TopicTree
reset_tree t = record (topic_node_destroy t.root t) { root = topic_tree_init.root }

-- `aws_mqtt_client_connection_reconnect`, whose result is whether the bootstrap begins.
unfoldable pub reconnect : Session → Session
reconnect s =
    tell new_channel
      (if s.clean_session then record s { subscriptions = reset_tree s.subscriptions } else s)

-- `aws_mqtt_client_connection_connect` with its options: whether it succeeds, and the connection. The
-- host, the client id and the like are not kept, and are there where they are asked for.
unfoldable pub connect : World → Bool → Session → Bool × Session
connect w clean s =
    if state_number s.state == 4
    then (w.can_begin, reconnect (record s { state = connecting; clean_session = clean }))
    else (false, s)

-- The next wait, in a `uint64_t`.
abbrev pub double_current : Session → Session
double_current s = record s {
  current = if ltb (s.max / 2) s.current then s.max else (s.current * 2) % 2 ^ 64;
}

-- `s_attempt_reconect` of a task that is not cancelled. The time stamp of the task is not kept.
unfoldable pub attempt_reconnect : World → Session → Session
attempt_reconnect w s =
    let timed : Session = record s { next_attempt = (w.ticks + w.to_nanos s.current) % 2 ^ 64 } in
    let tried = reconnect (double_current timed) in
    if w.can_begin then tried else tell (schedule_reconnect tried.next_attempt) tried

-- `aws_mqtt_client_connection_disconnect`: whether it is accepted, and the connection.
abbrev pub is_up : ConnectionState → Bool
is_up connecting = false
is_up connected = true
is_up reconnecting = true
is_up disconnecting = false
is_up disconnected = false

unfoldable pub disconnect : Session → Bool × Session
disconnect s =
    if is_up s.state
    then (
      true,
      let t = set_state disconnecting s in if t.has_slot then tell schedule_shutdown t else t,
    )
    else (false, s)

-- The channel is connected, and the back-off starts anew: the reset of `s_mqtt_client_init`.
abbrev pub reset_current : Session → Session
reset_current s = record s { current = s.min }

-- `if (connection->slot) { ... }` of `s_mqtt_client_shutdown`.
abbrev pub drop_slot : Session → Session
drop_slot s =
    if s.has_slot
    then tell slot_remove (record s {
      has_slot = false;
      state = elim s.state [
        | connecting ↦ connected
        | connected ↦ connected
        | reconnecting ↦ reconnecting
        | disconnecting ↦ disconnecting
        | disconnected ↦ disconnected
      ];
    })
    else s

-- A connection that was lost: the user is told, who may disconnect; otherwise the next attempt runs.
unfoldable pub interrupt : World → ℕ → Session → Session
interrupt w error s =
    let told = tell (on_interrupted error) (set_state reconnecting s) in
    if w.user_disconnects
    then tell on_disconnect (set_state disconnected (disconnect told).1)
    else attempt_reconnect w told

-- `s_mqtt_client_shutdown`. `connection->reconnect_task`, which it reads, is there.
unfoldable pub client_shutdown : World → ℕ → Session → Session
client_shutdown w error s =
    let t = drop_slot s in
    elim t.state [
      | connecting ↦ tell (on_connection_complete error) (set_state disconnected t)
      | connected ↦ interrupt w error t
      | reconnecting ↦ tell (schedule_reconnect t.next_attempt) t
      | disconnecting ↦
          tell on_disconnect (record (set_state disconnected t) { outstanding_requests = [] })
      | disconnected ↦ attempt_reconnect w t
    ]
