-- ===== src/Options.antt =====
-- The options of a client connection (source/client.c), and the CONNECT that is sent with them when the
-- channel is set up.
pub mod Packet
pub mod Sent
use aws_c_mqtt.Base.{
  ℕ, ◌+◌, ◌%◌, ◌^◌, Bool, true, false, List, [], ◌∷◌, Option, none, some, if◌then◌else◌,
}
use aws_c_mqtt.Bytes.{
  Error, ByteOps, Op, Outcome, ok, err, invalid_topic, raised_elsewhere, use_after_free,
}
use aws_c_mqtt.Packets.Connect.{
  ConnectPacket, connect_init, connect_add_will, connect_add_credentials, connect_encode,
}
use aws_c_mqtt.Topics.{SplitOps, is_valid_topic}
use aws_c_mqtt.Client.{
  Event, on_connection_error, schedule_shutdown, send_message, Connection, ChannelOps, emit,
}

-- A pointer to a string that is null, that is there, or that was destroyed.
pub data StringPointer : Type 0 where
  null_string : StringPointer
  string : List ℕ → StringPointer
  destroyed_string : StringPointer

-- `connection->will`, whose topic has a null buffer where there is no will.
pub record Will : Type 0 where
  pub topic : Option (List ℕ)
  pub qos : ℕ
  pub retain : Bool
  pub payload : List ℕ

-- The part of `struct aws_mqtt_client_connection` that the CONNECT is made from.
pub record Options : Type 0 where
  pub client_id : List ℕ
  pub clean_session : Bool
  pub keep_alive_time_secs : ℕ
  pub will : Will
  pub username : StringPointer
  pub password : StringPointer

-- `aws_mqtt_client_connection_set_will`, with whether the copies of the topic and the payload get their
-- memory.
unfoldable pub set_will :
    SplitOps → Bool → Bool → List ℕ → ℕ → Bool → List ℕ → Op Options (Unit {0})
set_will ops can_copy_topic can_copy_payload topic qos retain payload o =
    if is_valid_topic ops topic
    then (if can_copy_topic
        then (if can_copy_payload
            then ok tt (record o {
              will = record { topic = some topic; qos = qos; retain = retain; payload = payload };
            })
            else err raised_elsewhere (record o {
              will = record { topic = none; qos = qos; retain = retain; payload = [] };
            }))
        else err raised_elsewhere
            (record o { will = record (o.will) { topic = none; payload = [] } }))
    else err invalid_topic o

-- `aws_mqtt_client_connection_set_login`, with whether the two strings get their memory. The password
-- may be null.
unfoldable pub set_login : Bool → Bool → List ℕ → Option (List ℕ) → Op Options (Unit {0})
set_login can_copy_username can_copy_password username password o =
    if can_copy_username
    then (elim password [
      | none ↦ ok tt (record o { username = string username })
      | some p ↦
          if can_copy_password
          then ok tt (record o { username = string username; password = string p })
          else err raised_elsewhere
              (record o { username = destroyed_string; password = null_string })
    ])
    else err raised_elsewhere (record o { username = null_string })

unfoldable pub add_will_of : Will → ConnectPacket → ConnectPacket
add_will_of will p = elim will.topic [
  | none ↦ p
  | some topic ↦ connect_add_will p topic will.qos will.retain will.payload
]

-- What a string pointer reads as: nothing where the string was destroyed.
abbrev pub read_password : StringPointer → Option (List ℕ)
read_password null_string = some []
read_password (string bytes) = some bytes
read_password destroyed_string = none

unfoldable pub add_login_of : StringPointer → StringPointer → ConnectPacket → Option ConnectPacket
add_login_of null_string password p = some p
add_login_of (string username) password p = elim (read_password password) [
  | none ↦ none
  | some bytes ↦ some (connect_add_credentials p username bytes)
]
add_login_of destroyed_string password p = none

-- The packet of a connection's options; none where a destroyed string is read.
unfoldable pub connect_packet : Options → Option ConnectPacket
connect_packet o =
    add_login_of o.username o.password
      (add_will_of o.will (connect_init o.client_id o.clean_session o.keep_alive_time_secs))

-- `handle_error` of `s_mqtt_client_init`.
abbrev pub init_failed : Error → Connection → Connection
init_failed e c = if c.has_on_connection_complete then emit (on_connection_error e) c else c

module _ (io : ByteOps) (channel : ChannelOps) where
  unfoldable pub send_connect : ConnectPacket → Connection → Connection
  send_connect p c =
      elim (channel.acquire_message ((3 + p.fixed_header.remaining_length) % 2 ^ 64)) [
        | none ↦ init_failed raised_elsewhere c
        | some message ↦ elim (connect_encode io p message) [
          | err e _ ↦ init_failed e c
          | ok _ filled ↦
              if channel.can_send filled.buffer
              then emit (send_message filled.buffer) c
              else init_failed raised_elsewhere c
        ]
      ]

  -- `s_mqtt_client_init` of a channel without an error, with whether a slot can be made.
  unfoldable pub client_init : Bool → Options → Op Connection (Unit {0})
  client_init can_make_slot o c =
      if can_make_slot
      then (let with_slot : Connection = record c { has_slot = true } in
          elim (connect_packet o) [
            | none ↦ err use_after_free with_slot
            | some p ↦ ok tt (send_connect p with_slot)
          ])
      else ok tt (emit (schedule_shutdown raised_elsewhere) (record c { has_slot = false }))
