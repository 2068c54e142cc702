-- ===== src/Options/Packet.antt =====
-- The CONNECT that is made of a connection's options (`s_mqtt_client_init` of source/client.c).
use aws_c_mqtt.Base.{
  ℕ, ◌<◌, ◌≡◌, ◌≢◌, refl, sym, subst, ◌∙◌, true, false, List, [], none, some, arith,
}
use aws_c_mqtt.Packets.Field.{Fits}
use aws_c_mqtt.Packets.Connect.{
  ConnectPacket, connect_init, connect_add_will, connect_add_credentials, add_username,
  add_password,
}
use aws_c_mqtt.Packets.Connect.Wire.{IsConnect}
use aws_c_mqtt.Packets.Connect.Build.{
  IsBuilt, connect_init-IsBuilt, connect_add_will-IsBuilt, connect_add_credentials-IsBuilt,
}
use aws_c_mqtt.Options.{
  StringPointer, null_string, string, Will, Options, add_will_of, add_login_of, connect_packet,
}

-- Options that fit a CONNECT.
pub data FitsString : StringPointer → Type 0 where
  fits_null : FitsString null_string
  fits_string : (bytes : List ℕ) → Fits bytes → FitsString (string bytes)

pub data FitsWill : Will → Type 0 where
  fits_no_will : (w : Will) → w.topic ≡ none → FitsWill w
  fits_will :
      (w : Will) (topic : List ℕ)
      → w.topic ≡ some topic
      → Fits topic
      → Fits w.payload
      → w.qos < 4
      → FitsWill w

pub record AreValid (o : Options) : Type 0 where
  pub id_fits : Fits o.client_id
  pub has_id : o.client_id ≢ []
  pub has_username : o.username ≢ string []
  pub keep_alive_lt : o.keep_alive_time_secs < 65536
  pub will_fits : FitsWill o.will
  pub username_fits : FitsString o.username
  pub password_fits : FitsString o.password

-- A packet that carries a will, or that has none.
pub record CarriesWill (w : Will) (p : ConnectPacket) : Type 0 where
  pub without : w.topic ≡ none → p.has_will ≡ false
  pub with_will :
      (topic : List ℕ)
      → w.topic ≡ some topic
      → (p.has_will ≡ true)
        × (p.will_topic ≡ topic)
        × (p.will_message ≡ w.payload)
        × (p.will_qos ≡ w.qos)
        × (p.will_retain ≡ w.retain)

-- A packet that carries a user name and a password, or has none: a password goes with a user name only, and an
-- empty one is none.
pub record CarriesLogin (username password : StringPointer) (p : ConnectPacket) : Type 0 where
  pub without : username ≡ null_string → (p.has_username ≡ false) × (p.has_password ≡ false)
  pub with_username :
      (bytes : List ℕ) → username ≡ string bytes → (p.has_username ≡ true) × (p.username ≡ bytes)
  pub with_password :
      (u bytes : List ℕ)
      → username ≡ string u
      → password ≡ string bytes
      → bytes ≢ []
      → (p.has_password ≡ true) × (p.password ≡ bytes)
  pub no_password :
      (u : List ℕ) → username ≡ string u → password ≡ null_string → p.has_password ≡ false

pub record Carries (o : Options) (p : ConnectPacket) : Type 0 where
  pub well_formed : IsConnect p
  pub client_id : p.client_identifier ≡ o.client_id
  pub clean_session : p.clean_session ≡ o.clean_session
  pub keep_alive : p.keep_alive_timeout ≡ o.keep_alive_time_secs
  pub will : CarriesWill o.will p
  pub login : CarriesLogin o.username o.password p

-- What adding a user name and a password leaves as it is.
record IsSameButLogin (p q : ConnectPacket) : Type 0 where
  client_id : q.client_identifier ≡ p.client_identifier
  clean_session : q.clean_session ≡ p.clean_session
  keep_alive : q.keep_alive_timeout ≡ p.keep_alive_timeout
  has_will : q.has_will ≡ p.has_will
  will_topic : q.will_topic ≡ p.will_topic
  will_message : q.will_message ≡ p.will_message
  will_qos : q.will_qos ≡ p.will_qos
  will_retain : q.will_retain ≡ p.will_retain

credentials-IsSameButLogin :
    (p : ConnectPacket) (username password : List ℕ)
    → IsSameButLogin p (connect_add_credentials p username password)
unfolding connect_add_credentials add_username add_password
credentials-IsSameButLogin p username password = ground arith

-- What adding a will leaves as it is.
record IsSameButWill (p q : ConnectPacket) : Type 0 where
  client_id : q.client_identifier ≡ p.client_identifier
  clean_session : q.clean_session ≡ p.clean_session
  keep_alive : q.keep_alive_timeout ≡ p.keep_alive_timeout
  has_username : q.has_username ≡ p.has_username
  has_password : q.has_password ≡ p.has_password

add_will_lem :
    (w : Will) (p : ConnectPacket)
    → FitsWill w
    → IsBuilt p
    → p.has_will ≡ false
    → IsBuilt (add_will_of w p)
      × CarriesWill w (add_will_of w p)
      × IsSameButWill p (add_will_of w p)
unfolding add_will_of connect_add_will
add_will_lem w p (fits_no_will _ e) v first =
    let same : add_will_of w p ≡ p = ground (arith, e) in
    subst (λ (q : ConnectPacket). IsBuilt q × CarriesWill w q × IsSameButWill p q) (sym same)
      (
        v,
        record { without = λ _. first; with_will = λ t k. absurd (cc (e, k)) },
        record {
          client_id = refl;
          clean_session = refl;
          keep_alive = refl;
          has_username = refl;
          has_password = refl;
        },
      )
add_will_lem w p (fits_will _ topic e ht hp hq) v first =
    let q : ConnectPacket = connect_add_will p topic w.qos w.retain w.payload in
    let same : add_will_of w p ≡ q = ground (arith, e) in
    subst (λ (q : ConnectPacket). IsBuilt q × CarriesWill w q × IsSameButWill p q) (sym same)
      (
        connect_add_will-IsBuilt p topic w.qos w.retain w.payload v first ht hp hq,
        record {
          without = λ k. absurd (cc (e, k));
          with_will = λ t k. (refl, ground (arith, e, k), refl, refl, refl);
        },
        record {
          client_id = refl;
          clean_session = refl;
          keep_alive = refl;
          has_username = refl;
          has_password = refl;
        },
      )

Logged : StringPointer → StringPointer → ConnectPacket → Type 0
Logged username password p =
    (q : ConnectPacket) × (add_login_of username password p ≡ some q)
    × IsBuilt q
    × CarriesLogin username password q
    × IsSameButLogin p q

add_login_lem :
    (username password : StringPointer) (p : ConnectPacket)
    → FitsString username
    → FitsString password
    → IsBuilt p
    → p.has_username ≡ false
    → p.has_password ≡ false
    → Logged username password p
unfolding Logged add_login_of connect_add_credentials add_username add_password
add_login_lem _ password p fits_null hp v nu np = (
  p,
  refl,
  v,
  record {
    without = λ _. (nu, np);
    with_username = λ bytes k. absurd (cc k);
    with_password = λ u bytes k _ _. absurd (cc k);
    no_password = λ u k _. absurd (cc k);
  },
  record {
    client_id = refl;
    clean_session = refl;
    keep_alive = refl;
    has_will = refl;
    will_topic = refl;
    will_message = refl;
    will_qos = refl;
    will_retain = refl;
  },
)
add_login_lem _ _ p (fits_string u hu) fits_null v nu np = (
  connect_add_credentials p u [],
  refl,
  connect_add_credentials-IsBuilt p u [] v hu (omega arith),
  record {
    without = λ k. absurd (cc k);
    with_username = λ bytes k. (refl, ground (arith, k));
    with_password = λ u bytes _ k _. absurd (cc k);
    no_password = λ _ _ _. np;
  },
  credentials-IsSameButLogin p u [],
)
add_login_lem _ _ p (fits_string u hu) (fits_string w hw) v nu np = (
  connect_add_credentials p u w,
  refl,
  connect_add_credentials-IsBuilt p u w v hu hw,
  record {
    without = λ k. absurd (cc k);
    with_username = λ bytes k. ground (arith, k);
    with_password = λ _ bytes _ k ne. ground (arith, k, ne);
    no_password = λ _ _ k. absurd (cc k);
  },
  credentials-IsSameButLogin p u w,
)

pub connect_packet_lem :
    (o : Options) → AreValid o → (p : ConnectPacket) × (connect_packet o ≡ some p) × Carries o p
unfolding connect_packet connect_init Logged
connect_packet_lem o v =
    let init : ConnectPacket = connect_init o.client_id o.clean_session o.keep_alive_time_secs in
    let built =
      connect_init-IsBuilt o.client_id o.clean_session o.keep_alive_time_secs v.id_fits
        v.keep_alive_lt in
    let (w, carries, same) = add_will_lem o.will init v.will_fits built refl in
    let (q, e, x, login, rest) =
      add_login_lem o.username o.password (add_will_of o.will init) v.username_fits v.password_fits
        w same.has_username same.has_password in
    (
      q,
      e,
      record {
        well_formed = x.connect;
        client_id = rest.client_id ∙ same.client_id;
        clean_session = rest.clean_session ∙ same.clean_session;
        keep_alive = rest.keep_alive ∙ same.keep_alive;
        will = record {
          without = λ k. rest.has_will ∙ carries.without k;
          with_will = λ t k.
              let (a, b, c, d, f) = carries.with_will t k in
              (
                rest.has_will ∙ a,
                rest.will_topic ∙ b,
                rest.will_message ∙ c,
                rest.will_qos ∙ d,
                rest.will_retain ∙ f,
              );
        };
        login = login;
      },
    )
