-- ===== src/Packets/Connect/Build.antt =====
-- `aws_mqtt_packet_connect_init`, `..._add_credentials` and `..._add_will` keep the remaining length
-- of a CONNECT equal to the bytes that are written behind the fixed header.
use aws_c_mqtt.Base.{ℕ, ◌+◌, ◌<◌, ◌≡◌, ◌⊎◌, Bool, true, false, List, [], length, arith, refl}
use aws_c_mqtt.FixedHeader.{bad_flags, has_flags}
use aws_c_mqtt.Packets.Field.{Fits}
use aws_c_mqtt.Packets.Connect.{
  ConnectPacket, connect_init, add_username, add_password, connect_add_credentials,
  connect_add_will, bad_credentials,
}
use aws_c_mqtt.Packets.Connect.Wire.{IsConnect, connect_size}

-- A packet as the three routines make it: what is not announced is empty.
pub record IsBuilt (p : ConnectPacket) : Type 0 where
  pub connect : IsConnect p
  pub no_username : (p.has_username ≡ true) ⊎ (p.username ≡ [])
  pub no_password : (p.has_password ≡ true) ⊎ (p.password ≡ [])

pub connect_init-IsBuilt :
    (id : List ℕ) (clean : Bool) (keep_alive : ℕ)
    → Fits id
    → keep_alive < 65536
    → IsBuilt (connect_init id clean keep_alive)
unfolding connect_init bad_credentials bad_flags has_flags
connect_init-IsBuilt id clean keep_alive hi hk = ground arith

add_username-IsBuilt :
    (p : ConnectPacket) (username : List ℕ)
    → IsBuilt p
    → Fits username
    → IsBuilt (add_username p username)
unfolding add_username bad_credentials bad_flags has_flags
add_username-IsBuilt p username v h = ground arith

add_password-IsBuilt :
    (p : ConnectPacket) (password : List ℕ)
    → IsBuilt p
    → p.has_username ≡ true
    → Fits password
    → IsBuilt (add_password p password)
unfolding add_password bad_credentials bad_flags has_flags
add_password-IsBuilt p password v u h = ground arith

-- A user name and a password below 65536 bytes, given to a CONNECT that the routines made, once or
-- again: the packet stays well formed, its remaining length exact.
pub connect_add_credentials-IsBuilt :
    (p : ConnectPacket) (username password : List ℕ)
    → IsBuilt p
    → Fits username
    → Fits password
    → IsBuilt (connect_add_credentials p username password)
unfolding connect_add_credentials
connect_add_credentials-IsBuilt p username password v hu hp = ground (
  arith,
  add_username-IsBuilt p username v hu,
  add_password-IsBuilt (add_username p username) password (add_username-IsBuilt p username v hu)
      refl hp,
)

-- A will with a topic and a payload below 65536 bytes and a QoS below 4, given to a CONNECT that the
-- routines made and that has none: the packet stays well formed, its remaining length exact.
pub connect_add_will-IsBuilt :
    (p : ConnectPacket) (topic : List ℕ) (qos : ℕ) (retain : Bool) (payload : List ℕ)
    → IsBuilt p
    → p.has_will ≡ false
    → Fits topic
    → Fits payload
    → qos < 4
    → IsBuilt (connect_add_will p topic qos retain payload)
unfolding connect_add_will bad_credentials bad_flags has_flags
connect_add_will-IsBuilt p topic qos retain payload v first ht hp hq = ground arith

-- A second will below 65536 bytes a field, given to a CONNECT that the routines made with a will: it
-- is counted beside the first, which is no longer written, and the packet announces more bytes than
-- it has, by the size of the will that was replaced.
pub connect_add_will_twice :
    (p : ConnectPacket) (topic : List ℕ) (qos : ℕ) (retain : Bool) (payload : List ℕ)
    → IsBuilt p
    → p.has_will ≡ true
    → Fits topic
    → Fits payload
    → let q = connect_add_will p topic qos retain payload in
      q.fixed_header.remaining_length
      ≡ connect_size q + (4 + length p.will_topic + length p.will_message)
unfolding connect_add_will
connect_add_will_twice p topic qos retain payload v again ht hp = ground arith
