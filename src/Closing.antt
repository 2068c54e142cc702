-- ===== src/Closing.antt =====
-- How a connection is closed (source/client_channel_handler.c): the shutdown of the channel handler, and
-- the task that shuts the channel down.
use aws_c_mqtt.Base.{
  ℕ, ◌+◌, ◌≡◌, refl, sym, ap, ◌∙◌, Bool, true, false, not, List, [], ◌∷◌, ◌++◌, Option, none, some,
  if◌then◌else◌, ◌==◌, ◌&&◌, arith, append_assoc,
}
use aws_c_mqtt.Bytes.{ByteBuf, ByteOps, IsByteOps, ok, err}
use aws_c_mqtt.FixedHeader.Wire.{header_bytes, length_bytes}
use aws_c_mqtt.Packets.Connection.{
  disconnect_init, connection_encode, inits-IsConnection, connection_encode-Writes,
}
use aws_c_mqtt.Client.{
  IsOpen, ConnectionState, state_number, Event, send_message, shutdown_complete, Connection,
  ChannelOps, emit,
}

-- `enum aws_channel_direction`
pub data Direction : Type 0 where
  read_direction write_direction : Direction

abbrev is_write : Direction → Bool
is_write read_direction = false
is_write write_direction = true

module _ (io : ByteOps) (channel : ChannelOps) where
  -- `goto done` of a message that cannot be had, or be filled; the result of sending is dropped.
  unfoldable pub send_disconnect : Connection → Connection
  send_disconnect c = elim (channel.acquire_message 3) [
    | none ↦ c
    | some message ↦ elim (connection_encode io disconnect_init message) [
      | err e _ ↦ c
      | ok _ filled ↦
          if channel.can_send filled.buffer then emit (send_message filled.buffer) c else c
    ]
  ]

  -- `s_shutdown`, with the error code of the shutdown, which is 0 for none.
  unfoldable pub handler_shutdown : Direction → ℕ → Bool → Connection → Connection
  handler_shutdown dir error_code free_scarce_resources_immediately c = emit shutdown_complete (
      if is_write dir && not free_scarce_resources_immediately && error_code == 0
      then send_disconnect c
      else c)

-- `connection->reconnect_task`: whether it still points to the connection, and whether its task is
-- scheduled (its time stamp is not 0).
pub record ReconnectTask : Type 0 where
  pub has_connection : Bool
  pub is_scheduled : Bool

-- What the disconnect task changes: the reconnect task of the connection, the ones that the event loop
-- still has, how many were released, and the shutdowns of the channel by their error codes.
pub record Closing : Type 0 where
  pub state : ConnectionState
  pub reconnect_task : Option ReconnectTask
  pub left_scheduled : List ReconnectTask
  pub released : ℕ
  pub channel_shutdowns : List ℕ

abbrev pub is_disconnecting : ConnectionState → Bool
is_disconnecting s = state_number s == 3

unfoldable pub cancel_reconnect : ReconnectTask → Closing → Closing
cancel_reconnect task s =
    if task.is_scheduled
    then record s {
      reconnect_task = none;
      left_scheduled = record task { has_connection = false } ∷ s.left_scheduled;
    }
    else record s { reconnect_task = none; released = s.released + 1 }

-- `if (connection->state == ... && connection->reconnect_task) { ... }`
unfoldable pub cancel_if : Bool → Option ReconnectTask → Closing → Closing
cancel_if false task s = s
cancel_if true none s = s
cancel_if true (some task) s = cancel_reconnect task s

-- `s_mqtt_disconnect_task`
unfoldable pub disconnect_task : ℕ → Closing → Closing
disconnect_task error_code s =
    let cancelled = cancel_if (is_disconnecting s.state) s.reconnect_task s in
    record cancelled { channel_shutdowns = cancelled.channel_shutdowns ++ (error_code ∷ []) }

-- A left reconnect task when it runs (`s_attempt_reconect` of source/client.c): with no connection it is
-- released, and none where it would go on with the connection.
unfoldable pub run_left : ReconnectTask → Closing → Option Closing
run_left task s =
    if task.has_connection then none else some (record s { released = s.released + 1 })

unfoldable pub run_all_left : List ReconnectTask → Closing → Option Closing
run_all_left [] s = some (record s { left_scheduled = [] })
run_all_left (task ∷ tasks) s = elim (run_left task s) [
  | none ↦ none
  | some next ↦ run_all_left tasks next
]

-- The DISCONNECT.
abbrev pub disconnect_bytes : List ℕ
disconnect_bytes = 224 ∷ 0 ∷ []

module _ (io : ByteOps) (law : IsByteOps io) (channel : ChannelOps)
    (open_law : IsOpen channel) where
  send_disconnect_lem :
      (c : Connection) → send_disconnect io channel c ≡ emit (send_message disconnect_bytes) c
  unfolding send_disconnect disconnect_init header_bytes length_bytes
  send_disconnect_lem c =
      let (room, acquired, enough) = open_law.gives 3 (omega arith) in
      let b : ByteBuf = record { buffer = []; capacity = room } in
      let written =
        (connection_encode-Writes io law disconnect_init inits-IsConnection.2 b (omega arith)).0
          (omega arith) in
      ground (arith, acquired, written, open_law.sends disconnect_bytes)

  -- Over an open channel that sends, whose pool gives empty messages of at least the size that is asked for: the
  -- handler sends one message, the two bytes of a DISCONNECT, just where the write direction is shut
  -- down without an error and without haste, and otherwise none; in every case it then completes the
  -- shutdown, once.
  pub handler_shutdown_lem :
      (dir : Direction) (error_code : ℕ) (immediately : Bool) (c : Connection)
      → handler_shutdown io channel dir error_code immediately c ≡ record c {
        events =
            c.events
            ++ (if is_write dir && not immediately && error_code == 0
                then send_message disconnect_bytes ∷ shutdown_complete ∷ []
                else shutdown_complete ∷ []);
      }
  unfolding handler_shutdown
  handler_shutdown_lem dir error_code immediately c =
      step (is_write dir && not immediately && error_code == 0)
    where
      step :
          (b : Bool)
          → emit shutdown_complete (if b then send_disconnect io channel c else c) ≡ record c {
            events =
                c.events
                ++ (if b
                    then send_message disconnect_bytes ∷ shutdown_complete ∷ []
                    else shutdown_complete ∷ []);
          }
      step true =
          ap (emit shutdown_complete) (send_disconnect_lem c)
          ∙ ap (λ (es : List Event). record c { events = es })
              (append_assoc c.events (send_message disconnect_bytes ∷ []) (shutdown_complete ∷ []))
      step false = refl

abbrev pub held : Option ReconnectTask → ℕ
held none = 0
held (some task) = 1

-- When the disconnect task of a connection that is being disconnected has run, and no task was left
-- scheduled before: the connection has no reconnect task, the channel is shut down once with the
-- error code, and whatever task is still scheduled does not reach the connection; once it has run, the
-- reconnect task that there was has been released exactly once.
pub disconnect_task_lem :
    (error_code : ℕ) (s : Closing)
    → is_disconnecting s.state ≡ true
    → s.left_scheduled ≡ []
    → let d = disconnect_task error_code s in
      (d.reconnect_task ≡ none)
      × (d.channel_shutdowns ≡ s.channel_shutdowns ++ (error_code ∷ []))
      × ((t : Closing) × (run_all_left d.left_scheduled d ≡ some t)
          × (t.released ≡ s.released + held s.reconnect_task))
unfolding disconnect_task cancel_if cancel_reconnect run_all_left run_left
disconnect_task_lem error_code s up nothing =
    step (is_disconnecting s.state) s.reconnect_task up refl
  where
    closed : Closing → Closing
    closed c = record c { channel_shutdowns = c.channel_shutdowns ++ (error_code ∷ []) }

    left : ReconnectTask → Closing
    left task = record s {
      reconnect_task = none;
      left_scheduled = record task { has_connection = false } ∷ s.left_scheduled;
    }

    freed : Closing
    freed = record s { reconnect_task = none; released = s.released + 1 }

    Done : Closing → Type 0
    Done c =
        let d : Closing = closed c in
        (d.reconnect_task ≡ none)
        × (d.channel_shutdowns ≡ s.channel_shutdowns ++ (error_code ∷ []))
        × ((t : Closing) × (run_all_left d.left_scheduled d ≡ some t)
            × (t.released ≡ s.released + held s.reconnect_task))

    cancelled :
        (task : ReconnectTask) (is_scheduled : Bool)
        → s.reconnect_task ≡ some task
        → Done (if is_scheduled then left task else freed)
    cancelled task true e = (
      refl,
      refl,
      (
        _,
        ap
            (λ (tasks : List ReconnectTask).
              run_all_left (record task { has_connection = false } ∷ tasks) (closed (left task)))
            nothing,
        ap (λ (m : Option ReconnectTask). s.released + held m) (sym e),
      ),
    )
    cancelled task false e = (
      refl,
      refl,
      (
        _,
        ap (λ (tasks : List ReconnectTask). run_all_left tasks (closed freed)) nothing,
        ap (λ (m : Option ReconnectTask). s.released + held m) (sym e),
      ),
    )

    step :
        (b : Bool) (m : Option ReconnectTask)
        → b ≡ true
        → s.reconnect_task ≡ m
        → Done (cancel_if b m s)
    step false m k e = absurd (cc k)
    step true none k e = (
      e,
      refl,
      (
        _,
        ap (λ (tasks : List ReconnectTask). run_all_left tasks (closed s)) nothing,
        ground (arith, e),
      ),
    )
    step true (some task) k e = cancelled task task.is_scheduled e
