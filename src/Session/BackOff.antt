-- ===== src/Session/BackOff.antt =====
-- The back-off of the attempts to reconnect (`s_attempt_reconect` of source/client.c).
use aws_c_mqtt.Base.{
  ℕ, zero, suc, ◌+◌, ◌*◌, ◌/◌, ◌%◌, ◌^◌, ◌≤◌, ◌<◌, ◌≡◌, refl, ap, ◌∙◌, Bool, true, false, List, [],
  ◌∷◌, length, if◌then◌else◌, ltb, leb, arith,
}
use aws_c_mqtt.Session.{
  Session, World, double_current, reconnect, attempt_reconnect, tell, schedule_reconnect,
}

-- One wait after another, with what the world does at each attempt.
unfoldable pub attempts : List World → Session → Session
attempts [] s = s
attempts (w ∷ ws) s = attempts ws (attempt_reconnect w s)

-- A number doubled `n` times.
unfoldable pub doublings : ℕ → ℕ → ℕ
doublings start zero = start
doublings start (suc n) = doublings (start * 2) n

-- The wait doubles up to the longest one, and does not wrap around.
doubled :
    (current max : ℕ)
    → max < 2 ^ 64
    → (if ltb (max / 2) current then max else (current * 2) % 2 ^ 64)
      ≡ (if leb (current * 2) max then current * 2 else max)
doubled current max small = step (ltb (max / 2) current) refl
  where
    step :
        (b : Bool)
        → ltb (max / 2) current ≡ b
        → (if b then max else (current * 2) % 2 ^ 64)
          ≡ (if leb (current * 2) max then current * 2 else max)
    step true e = ground arith
    step false e = ground arith

reconnect-current : (s : Session) → (reconnect s).current ≡ s.current
unfolding reconnect
reconnect-current s = ground arith

attempt_reconnect-current :
    (w : World) (s : Session) → (attempt_reconnect w s).current ≡ (double_current s).current
unfolding attempt_reconnect
attempt_reconnect-current w s = step w.can_begin ∙ reconnect-current (double_current timed)
  where
    timed : Session
    timed = record s { next_attempt = (w.ticks + w.to_nanos s.current) % 2 ^ 64 }

    tried : Session
    tried = reconnect (double_current timed)

    step :
        (b : Bool)
        → (if b then tried else tell (schedule_reconnect tried.next_attempt) tried).current
          ≡ tried.current
    step true = refl
    step false = refl

attempt_reconnect-max : (w : World) (s : Session) → (attempt_reconnect w s).max ≡ s.max
unfolding attempt_reconnect reconnect
attempt_reconnect-max w s = ground arith

doublings_up : (start n : ℕ) → start ≤ doublings start n
unfolding doublings
doublings_up start zero = omega arith
doublings_up start (suc n) = omega (arith, doublings_up (start * 2) n)

-- Capping the wait in between is capping it at the end.
capped :
    (current max n : ℕ)
    → let next = if leb (current * 2) max then current * 2 else max in
      (if leb (doublings next n) max then doublings next n else max)
      ≡ (if leb (doublings (current * 2) n) max then doublings (current * 2) n else max)
capped current max n = step (leb (current * 2) max) refl
  where
    step :
        (b : Bool)
        → leb (current * 2) max ≡ b
        → let next = if b then current * 2 else max in
          (if leb (doublings next n) max then doublings next n else max)
          ≡ (if leb (doublings (current * 2) n) max then doublings (current * 2) n else max)
    step true e = refl
    step false e = ground (arith, doublings_up max n, doublings_up (current * 2) n)

-- After any number of attempts to reconnect, whatever the bootstrap, the clock and the tree do, the
-- wait is the first one doubled so many times, or the longest wait where that is less. The longest
-- wait fits 64 bits, and the first one is not longer.
pub attempts_lem :
    (ws : List World) (s : Session)
    → s.max < 2 ^ 64
    → s.current ≤ s.max
    → (attempts ws s).current ≡ (
        if leb (doublings s.current (length ws)) s.max
        then doublings s.current (length ws)
        else s.max)
unfolding attempts doublings
attempts_lem [] s small le = ground arith
attempts_lem (w ∷ ws) s small le =
    let max_same = attempt_reconnect-max w s in
    let next = attempt_reconnect-current w s ∙ doubled s.current s.max small in
    attempts_lem ws (attempt_reconnect w s) (ground (arith, max_same))
      (ground (arith, max_same, next))
    ∙ ap (λ (m : ℕ). capped_at (attempt_reconnect w s).current m) max_same
    ∙ ap (λ (c : ℕ). capped_at c s.max) next
    ∙ capped s.current s.max (length ws)
  where
    capped_at : ℕ → ℕ → ℕ
    capped_at c m = if leb (doublings c (length ws)) m then doublings c (length ws) else m
