-- ===== src/Bytes/Encoder.antt =====
-- The write calls as the encoders make them: `if (!aws_byte_buf_write_...(buf, x)) { return
-- aws_raise_error(AWS_ERROR_SHORT_BUFFER); }`, and what a chain of them does.
use aws_c_mqtt.Base.{
  ℕ, ◌+◌, ◌≤◌, ◌<◌, ◌≡◌, refl, sym, ap, ◌∙◌, inl, inr, List, [], ◌∷◌, ◌++◌, none, some, length,
  length-append, append_assoc, append-nil, arith, if◌then◌else◌, true, false, Bool, Option,
  leb_cases,
}
use aws_c_mqtt.Bytes.{
  ByteBuf, ByteOps, IsByteOps, Encoder, ok, err, short_buffer, append, be16, ◌>>◌, return, >>=-ok,
  >>=-err, write_if_room,
}

module _ (io : ByteOps) where
  unfoldable pub put_u8 : ℕ → Encoder
  put_u8 x b = elim (io.write_u8 b x) [ none ↦ err short_buffer b | some b' ↦ ok tt b' ]

  unfoldable pub put_be16 : ℕ → Encoder
  put_be16 x b = elim (io.write_be16 b x) [ none ↦ err short_buffer b | some b' ↦ ok tt b' ]

  unfoldable pub put_bytes : List ℕ → Encoder
  put_bytes bs b = elim (io.write b bs) [ none ↦ err short_buffer b | some b' ↦ ok tt b' ]

-- On a buffer that holds no more than its capacity, `m` appends exactly `bs` where they fit. Where they do not, it fails with AWS_ERROR_SHORT_BUFFER
-- and has appended a prefix of them.
abbrev pub Writes : Encoder → List ℕ → Type 0
Writes m bs =
    (b : ByteBuf)
    → length b.buffer ≤ b.capacity
    → (length b.buffer + length bs ≤ b.capacity → m b ≡ ok tt (append b bs))
      × (b.capacity < length b.buffer + length bs
          → (p : List ℕ) × (q : List ℕ) × (bs ≡ p ++ q) × (m b ≡ err short_buffer (append b p)))

pub append_twice : (b : ByteBuf) (bs cs : List ℕ) → append (append b bs) cs ≡ append b (bs ++ cs)
append_twice b bs cs = λ i. record { buffer = append_assoc b.buffer bs cs i; capacity = b.capacity }

pub append-nil_lem : (b : ByteBuf) → append b [] ≡ b
append-nil_lem b = λ i. record { buffer = append-nil b.buffer i; capacity = b.capacity }

-- What one write does is decided by the room that is left.
write_once :
    (m : Encoder) (w : Option ByteBuf) (bs : List ℕ) (b : ByteBuf)
    → m b ≡ (elim w [ none ↦ err short_buffer b | some b' ↦ ok tt b' ])
    → w ≡ write_if_room b bs
    → (length b.buffer + length bs ≤ b.capacity → m b ≡ ok tt (append b bs))
      × (b.capacity < length b.buffer + length bs
          → (p : List ℕ) × (q : List ℕ) × (bs ≡ p ++ q) × (m b ≡ err short_buffer (append b p)))
write_once m w bs b e ew =
    (λ h. ground arith, λ h. ([], bs, refl, ground (arith, append-nil_lem b)))

pub Writes->> :
    (m k : Encoder) (bs cs : List ℕ) → Writes m bs → Writes k cs → Writes (m >> k) (bs ++ cs)
Writes->> m k bs cs wm wk b v = (fits, short)
  where
    fits :
        length b.buffer + length (bs ++ cs) ≤ b.capacity → (m >> k) b ≡ ok tt (append b (bs ++ cs))
    fits h =
        >>=-ok m (λ _. k) ((wm b v).0 (omega (arith, length-append bs cs)))
        ∙ (wk (append b bs) (omega (arith, length-append bs cs, length-append b.buffer bs))).0
            (omega (arith, length-append bs cs, length-append b.buffer bs))
        ∙ ap (ok tt) (append_twice b bs cs)

    first :
        (p : List ℕ) × (q : List ℕ) × (bs ≡ p ++ q) × (m b ≡ err short_buffer (append b p))
        → (p : List ℕ) × (q : List ℕ) × (bs ++ cs ≡ p ++ q)
          × ((m >> k) b ≡ err short_buffer (append b p))
    first (p, q, e, r) = (p, q ++ cs, rw e (append_assoc p q cs), >>=-err m (λ _. k) r)

    second :
        m b ≡ ok tt (append b bs)
        → (p : List ℕ) × (q : List ℕ) × (cs ≡ p ++ q)
          × (k (append b bs) ≡ err short_buffer (append (append b bs) p))
        → (p : List ℕ) × (q : List ℕ) × (bs ++ cs ≡ p ++ q)
          × ((m >> k) b ≡ err short_buffer (append b p))
    second done (p, q, e, r) = (
      bs ++ p,
      q,
      rw e (sym (append_assoc bs p q)),
      >>=-ok m (λ _. k) done ∙ r ∙ ap (err short_buffer) (append_twice b bs p),
    )

    short :
        b.capacity < length b.buffer + length (bs ++ cs)
        → (p : List ℕ) × (q : List ℕ) × (bs ++ cs ≡ p ++ q)
          × ((m >> k) b ≡ err short_buffer (append b p))
    short h = elim (leb_cases (length b.buffer + length bs) b.capacity) [
      | inl room ↦ second ((wm b v).0 room) (
          (wk (append b bs) (omega (arith, length-append b.buffer bs))).1
            (omega (arith, length-append bs cs, length-append b.buffer bs)))
      | inr none_left ↦ first ((wm b v).1 none_left)
    ]

pub Writes-nil : Writes (return tt) []
Writes-nil b v = (λ h. ap (ok tt) (sym (append-nil_lem b)), λ h. absurd (omega arith))

-- `if (c) { m }`, as a step of an encoder.
unfoldable pub put_if : Bool → Encoder → Encoder
put_if c m = if c then m else return tt

abbrev pub bytes_if : Bool → List ℕ → List ℕ
bytes_if c bs = if c then bs else []

pub put_if-Writes :
    (c : Bool) (m : Encoder) (bs : List ℕ)
    → (c ≡ true → Writes m bs)
    → Writes (put_if c m) (bytes_if c bs)
unfolding put_if
put_if-Writes true m bs w = w refl
put_if-Writes false m bs w = Writes-nil

module _ (io : ByteOps) (law : IsByteOps io) where
  pub put_u8-Writes : (x : ℕ) → x < 256 → Writes (put_u8 io x) (x ∷ [])
  unfolding put_u8
  put_u8-Writes x h b v =
      write_once (put_u8 io x) (io.write_u8 b x) (x ∷ []) b refl (law.write_u8_lem b x h)

  pub put_be16-Writes : (x : ℕ) → x < 65536 → Writes (put_be16 io x) (be16 x)
  unfolding put_be16
  put_be16-Writes x h b v =
      write_once (put_be16 io x) (io.write_be16 b x) (be16 x) b refl (law.write_be16_lem b x h)

  pub put_bytes-Writes : (bs : List ℕ) → Writes (put_bytes io bs) bs
  unfolding put_bytes
  put_bytes-Writes bs b v =
      write_once (put_bytes io bs) (io.write b bs) bs b refl (law.write_lem b bs)
