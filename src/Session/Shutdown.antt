-- ===== src/Session/Shutdown.antt =====
-- Where the shutdown of a channel leaves the connection (`s_mqtt_client_shutdown` of
-- source/client.c).
use aws_c_mqtt.Base.{
  ℕ, ◌+◌, ◌%◌, ◌^◌, ◌≡◌, refl, ap, ◌∙◌, Bool, true, false, List, [], ◌∷◌, ◌++◌, if◌then◌else◌, ◌⊎◌,
  inl, inr, arith,
}
use aws_c_mqtt.Client.{
  state_number, ConnectionState, connecting, connected, reconnecting, disconnecting, disconnected,
}
use aws_c_mqtt.Session.{
  Session, SessionEvent, World, on_interrupted, on_connection_complete, on_disconnect, new_channel,
  schedule_reconnect, tell, set_state, reset_tree, reconnect, connect, double_current,
  attempt_reconnect, disconnect, drop_slot, interrupt, client_shutdown,
}

-- The last thing that was asked is a new channel, or the next attempt.
pub data IsUnderway : List SessionEvent → Type 0 where
  underway_now : (before : List SessionEvent) → IsUnderway (before ++ (new_channel ∷ []))
  underway_later :
      (before : List SessionEvent) (time : ℕ)
      → IsUnderway (before ++ (schedule_reconnect time ∷ []))

-- The connection is gone for good, or is reconnecting with an attempt under way; it has no slot.
pub data IsSettled (s : Session) : Type 0 where
  settled_down : s.has_slot ≡ false → s.state ≡ disconnected → IsSettled s
  settled_again : s.has_slot ≡ false → s.state ≡ reconnecting → IsUnderway s.events → IsSettled s

drop_slot_gone : (s : Session) → (drop_slot s).has_slot ≡ false
drop_slot_gone s = ground arith

attempt_state :
    (w : World) (s : Session)
    → ((attempt_reconnect w s).state ≡ s.state)
      × ((attempt_reconnect w s).has_slot ≡ s.has_slot)
      × IsUnderway (attempt_reconnect w s).events
unfolding attempt_reconnect reconnect
attempt_state w s = begun w.can_begin s.clean_session
  where
    doubled : Session
    doubled = double_current (record s { next_attempt = (w.ticks + w.to_nanos s.current) % 2 ^ 64 })

    begun :
        (b clean : Bool)
        → let tried = tell new_channel (
            if clean
            then record doubled { subscriptions = reset_tree doubled.subscriptions }
            else doubled) in
          let r : Session =
            (if b then tried else tell (schedule_reconnect tried.next_attempt) tried) in
          (r.state ≡ s.state) × (r.has_slot ≡ s.has_slot) × IsUnderway r.events
    begun true true = (refl, refl, underway_now s.events)
    begun true false = (refl, refl, underway_now s.events)
    begun false true = (refl, refl, underway_later _ _)
    begun false false = (refl, refl, underway_later _ _)

attempt-IsSettled :
    (w : World) (s : Session)
    → s.has_slot ≡ false
    → ((s.state ≡ reconnecting) ⊎ (s.state ≡ disconnected))
    → IsSettled (attempt_reconnect w s)
attempt-IsSettled w s slot (inl e) =
    let (state, same_slot, under) = attempt_state w s in
    settled_again (same_slot ∙ slot) (state ∙ e) under
attempt-IsSettled w s slot (inr e) =
    let (state, same_slot, under) = attempt_state w s in settled_down (same_slot ∙ slot) (state ∙ e)

interrupt-IsSettled :
    (w : World) (error : ℕ) (s : Session) → s.has_slot ≡ false → IsSettled (interrupt w error s)
unfolding interrupt
interrupt-IsSettled w error s slot = step w.user_disconnects
  where
    told : Session
    told = tell (on_interrupted error) (set_state reconnecting s)

    gone : (disconnect told).1.has_slot ≡ false
    gone = unfold disconnect in ground (arith, slot)

    step :
        (b : Bool)
        → IsSettled (
            if b
            then tell on_disconnect (set_state disconnected (disconnect told).1)
            else attempt_reconnect w told)
    step true = settled_down gone refl
    step false = attempt-IsSettled w told slot (inl refl)

-- However the channel is shut down, with any error and in any state of the connection, afterwards it
-- has no slot, and is disconnected, or reconnecting with a new channel just asked for or the next
-- attempt just scheduled.
pub client_shutdown-IsSettled :
    (w : World) (error : ℕ) (s : Session) → IsSettled (client_shutdown w error s)
unfolding client_shutdown
client_shutdown-IsSettled w error s = step (drop_slot s) (drop_slot_gone s) (drop_slot s).state refl
  where
    step :
        (t : Session)
        → t.has_slot ≡ false
        → (state : ConnectionState) → t.state ≡ state
        → IsSettled (elim state as (λ _. Session) [
          | connecting ↦ tell (on_connection_complete error) (set_state disconnected t)
          | connected ↦ interrupt w error t
          | reconnecting ↦ tell (schedule_reconnect t.next_attempt) t
          | disconnecting ↦
              tell on_disconnect (record (set_state disconnected t) { outstanding_requests = [] })
          | disconnected ↦ attempt_reconnect w t
        ])
    step t slot connecting e = settled_down slot refl
    step t slot connected e = interrupt-IsSettled w error t slot
    step t slot reconnecting e = settled_again slot e (underway_later t.events t.next_attempt)
    step t slot disconnecting e = settled_down slot refl
    step t slot disconnected e = attempt-IsSettled w t slot (inr e)

reconnect-state : (s : Session) → (reconnect s).state ≡ s.state
unfolding reconnect
reconnect-state s = ground arith

connect_down :
    (w : World) (clean : Bool) (s : Session)
    → s.state ≡ disconnected
    → connect w clean s
      ≡ (w.can_begin, reconnect (record s { state = connecting; clean_session = clean }))
unfolding connect
connect_down w clean s down =
    let number : state_number s.state ≡ 4 = unfold state_number in ap state_number down in
    ground (arith, number)

connect_refused :
    (w : World) (clean : Bool) (s : Session) → s.state ≡ connecting → connect w clean s ≡ (false, s)
unfolding connect
connect_refused w clean s busy =
    let number : state_number s.state ≡ 0 = unfold state_number in ap state_number busy in
    ground (arith, number)

-- A connect of a disconnected connection whose channel cannot begin fails, and every later connect
-- fails and changes nothing, whatever the bootstrap could do then.
pub connect_failed :
    (w later : World) (clean clean_later : Bool) (s : Session)
    → s.state ≡ disconnected
    → w.can_begin ≡ false
    → ((connect w clean s).0 ≡ false)
      × (connect later clean_later (connect w clean s).1 ≡ (false, (connect w clean s).1))
connect_failed w later clean clean_later s down stuck =
    let run = connect_down w clean s down in
    let started : Session = record s { state = connecting; clean_session = clean } in
    (
      ap (λ (r : Bool × Session). r.0) run ∙ stuck,
      connect_refused later clean_later (connect w clean s).1
          (ap (λ (r : Bool × Session). r.1.state) run ∙ reconnect-state started),
    )
