-- ===== src/FixedHeader/Decode.antt =====
-- `aws_mqtt_fixed_header_decode` on any bytes, well formed or not.
use aws_c_mqtt.Base.{
  ℕ, zero, suc, ◌+◌, ◌*◌, ◌/◌, ◌^◌, ◌≤◌, ◌<◌, ◌≡◌, ◌≢◌, ◌==◌, refl, sym, ap, subst, ◌∙◌, ◌-◌, false,
  List, [], ◌∷◌, ◌++◌, ltb, length, arith, bit_and, inl, inr, All, leb_cases,
}
use aws_c_mqtt.Base.Bits.{bit_and_127, bit_and_128, bit_and_15}
use aws_c_mqtt.Bytes.{
  ByteOps, IsByteOps, IsByte, Cursor, Outcome, ok, err, ◌>>◌, Error, IsTotal, IsTotal->>=,
  IsTotal-if, IsTotal-return, IsTotal-raise, out_of_fuel, invalid_remaining_length, short_buffer,
  >>=-ok, >>=-err, >>=-eq-ok,
}
use aws_c_mqtt.FixedHeader.{
  FixedHeader, HeaderState, header_u8, add_remaining, decode_remaining_length_loop,
  decode_remaining_length, bad_flags, check_header, fixed_header_decode, get_packet_type,
  set_type_and_flags,
}
use native.Mathlib.Nat.{pow-suc, mul-le-mul_right}
use aws_c_mqtt.FixedHeader.Wire.{IsHeader}
use aws_c_mqtt.FixedHeader.RoundTrip.{
  at_header, header_u8-cons, header_u8-nil, last_round, inner_round,
}

-- What `k` rounds that succeed have read: 1 to `k` bytes, for a number below 128 ^ k.
abbrev Decoded : ℕ → ℕ → ℕ → ℕ → ℕ → Cursor → HeaderState → Type 0
Decoded k m acc type flags cur s =
    (n : ℕ) × (pre : List ℕ) × (rest : Cursor) × (s ≡ at_header rest type (acc + n * m) flags)
    × (n < 128 ^ k)
    × (cur ≡ pre ++ rest)
    × (1 ≤ length pre)
    × (length pre ≤ k)

at_eq :
    {type flags a b : ℕ} (c : Cursor)
    → a ≡ b
    → ◌≡◌ {A = HeaderState} (at_header c type a flags) (at_header c type b flags)
at_eq c e = cc

not_ok :
    {r : Outcome HeaderState (Unit {0})} {x : Error} {s t : HeaderState}
    → r ≡ err x s
    → r ≡ ok tt t
    → ⊥
not_ok e f = cc

pow_split : (k m : ℕ) → 128 ^ suc k * m ≡ 128 ^ k * (m * 128)
pow_split k m = omega (arith, ap (λ (t : ℕ). t * m) (pow-suc 128 k))

pow_pos : (k : ℕ) → 1 ≤ 128 ^ k
pow_pos zero = omega arith
pow_pos (suc k) = omega (arith, pow-suc 128 k, pow_pos k)

-- A group of seven bits fits beside what was read so far.
group_fits : (k m acc g : ℕ) → g < 128 → acc < m → acc + g * m < 128 ^ suc k * m
group_fits k m acc g hg ha =
    omega (arith, pow_split k m, mul-le-mul_right (m * 128) (pow_pos k), mul-le-mul_right m hg)

module _ (io : ByteOps) (law : IsByteOps io) (type flags : ℕ) where
  -- A byte with the top bit set where the multiplier leaves no further round.
  overlong_round :
      (r m acc g : ℕ) (cur : Cursor)
      → g < 128
      → 128 * 128 * 128 < m * 128
      → acc + g * m < 2 ^ 64
      → decode_remaining_length_loop io (suc r) m (at_header ((g + 128) ∷ cur) type acc flags)
        ≡ err invalid_remaining_length (at_header cur type (acc + g * m) flags)
  unfolding decode_remaining_length_loop
  overlong_round r m acc g cur hg hm hs = ground (
    arith,
    header_u8-cons io law type flags (g + 128) acc cur,
    bit_and_127 (g + 128),
    bit_and_128 (g + 128),
  )

  next_ok :
      (k m acc g : ℕ) (cur : Cursor) (s : HeaderState)
      → g < 128
      → acc < m
      → 128 ^ suc k * m ≤ 2 ^ 64
      → Decoded k (m * 128) (acc + g * m) type flags cur s
      → Decoded (suc k) m acc type flags ((g + 128) ∷ cur) s
  next_ok k m acc g cur s hg ha hs (n, pre, rest, e, hn, hc, l, u) = (
    n * 128 + g,
    (g + 128) ∷ pre,
    rest,
    e ∙ at_eq rest (omega arith),
    omega (arith, pow-suc 128 k),
    ap (◌∷◌ (g + 128)) hc,
    omega arith,
    omega arith,
  )

  more_ok :
      (k m acc g : ℕ) (cur : Cursor) (s : HeaderState)
      → g < 128
      → acc < m
      → 128 ^ suc k * m ≤ 2 ^ 64
      → decode_remaining_length_loop io (suc k) m (at_header ((g + 128) ∷ cur) type acc flags)
        ≡ ok tt s
      → (decode_remaining_length_loop io k (m * 128) (at_header cur type (acc + g * m) flags)
            ≡ ok tt s
          → Decoded k (m * 128) (acc + g * m) type flags cur s)
      → Decoded (suc k) m acc type flags ((g + 128) ∷ cur) s
  more_ok k m acc g cur s hg ha hs e ih =
      let fits : acc + g * m < 2 ^ 64 = omega (arith, group_fits k m acc g hg ha) in
      elim (leb_cases (m * 128) (128 * 128 * 128)) [
        | inl within ↦
            next_ok k m acc g cur s hg ha hs
              (ih (sym (inner_round io law type flags k m acc g cur hg within fits) ∙ e))
        | inr beyond ↦ absurd (not_ok (overlong_round k m acc g cur hg beyond fits) e)
      ]

  loop_ok :
      (k m acc : ℕ) (cur : Cursor) (s : HeaderState)
      → All IsByte cur
      → acc < m
      → 128 ^ k * m ≤ 2 ^ 64
      → decode_remaining_length_loop io k m (at_header cur type acc flags) ≡ ok tt s
      → Decoded k m acc type flags cur s
  loop_ok zero m acc cur s hb ha hs e = unfold decode_remaining_length_loop in cc
  loop_ok (suc k) m acc [] s hb ha hs e =
      unfold decode_remaining_length_loop in cc (header_u8-nil io law type flags acc)
  loop_ok (suc k) m acc (b ∷ cur) s hb ha hs e = elim (leb_cases 128 b) [
    | inl more ↦
        let g : ℕ = b - 128 in
        let hg : g < 128 = omega (arith, hb.0) in
        let eb : b ≡ g + 128 = omega arith in
        subst (λ x. Decoded (suc k) m acc type flags (x ∷ cur) s) (sym eb)
          (more_ok k m acc g cur s hg ha hs
            (subst
              (λ x.
                decode_remaining_length_loop io (suc k) m (at_header (x ∷ cur) type acc flags)
                ≡ ok tt s)
              eb e)
            (loop_ok k (m * 128) (acc + g * m) cur s hb.1 (omega (arith, mul-le-mul_right m hg))
              (omega (arith, pow_split k m))))
    | inr last ↦
        let fits : acc + b * m < 2 ^ 64 = omega (arith, group_fits k m acc b last ha) in
        (
          b,
          b ∷ [],
          cur,
          cc (last_round io law type flags k m acc b cur last fits),
          omega (arith, pow-suc 128 k, pow_pos k),
          refl,
          omega arith,
          omega arith,
        )
  ]

-- What the decoder accepts, on any bytes.
abbrev pub Accepted : Cursor → HeaderState → Type 0
Accepted cur s =
    (pre : List ℕ) × (cur ≡ pre ++ s.cur)
    × (2 ≤ length pre)
    × (length pre ≤ 5)
    × (s.header.remaining_length ≤ length s.cur)
    × IsHeader s.header

module _ (io : ByteOps) (law : IsByteOps io) where
  pub decode_step :
      (b : ℕ) (cur : Cursor) (old : FixedHeader)
      → fixed_header_decode io (record { cur = b ∷ cur; header = old })
        ≡ (decode_remaining_length io >> check_header)
            (at_header cur (b / 16) old.remaining_length (bit_and b 15))
  unfolding fixed_header_decode get_packet_type
  decode_step b cur old =
      >>=-ok (header_u8 io) _
        (header_u8-cons io law old.packet_type old.flags b old.remaining_length cur)

  pub decode_empty :
      (old : FixedHeader)
      → fixed_header_decode io (record { cur = []; header = old })
        ≡ err short_buffer (record { cur = []; header = old })
  unfolding fixed_header_decode
  decode_empty old =
      >>=-err (header_u8 io) _ (header_u8-nil io law old.packet_type old.flags old.remaining_length)

  check_header_ok :
      (s t : HeaderState)
      → check_header s ≡ ok tt t
      → (s ≡ t) × (s.header.remaining_length ≤ length s.cur) × (bad_flags s.header ≡ false)
  unfolding check_header
  check_header_ok s t e = ground arith

  accepted :
      (b : ℕ) (cur : Cursor) (s t : HeaderState)
      → b < 256
      → Decoded 4 1 0 (b / 16) (bit_and b 15) cur s
      → (s ≡ t) × (s.header.remaining_length ≤ length s.cur) × (bad_flags s.header ≡ false)
      → Accepted (b ∷ cur) t
  accepted b cur s t hb (n, pre, rest, e, hn, hc, l, u) (st, fits, flags) =
      subst (Accepted (b ∷ cur)) (sym e ∙ st) (
        b ∷ pre,
        ap (◌∷◌ b) hc,
        omega arith,
        omega arith,
        subst (λ (v : HeaderState). v.header.remaining_length ≤ length v.cur) e fits,
        record {
          type_lt = omega arith;
          flags_lt = omega (arith, bit_and_15 b hb);
          remaining_lt = omega arith;
          flags_ok = subst (λ (v : HeaderState). bad_flags v.header ≡ false) e flags;
        },
      )

  -- On any bytes: where the decoder succeeds it has taken 2 to 5 of them off the front, the header is
  -- one that the encoder writes, and as many bytes as it announces are left.
  pub fixed_header_decode-Accepted :
      (cur : Cursor) (old : FixedHeader) (s : HeaderState)
      → All IsByte cur
      → fixed_header_decode io (record { cur = cur; header = old }) ≡ ok tt s
      → Accepted cur s
  fixed_header_decode-Accepted [] old s hb e = cc (decode_empty old)
  fixed_header_decode-Accepted (b ∷ cur) old s hb e =
      let (_, s', d, c) =
        >>=-eq-ok (decode_remaining_length io) (λ _. check_header) _
          (sym (decode_step b cur old) ∙ e) in
      accepted b cur s' s hb.0
        (loop_ok io law (b / 16) (bit_and b 15) 4 1 0 cur s' hb.1 (omega arith) (omega arith)
          (unfold decode_remaining_length in d))
        (check_header_ok s' s c)

  -- A first byte alone: the decoder fails with AWS_ERROR_SHORT_BUFFER, and has stored 0 as the remaining
  -- length.
  pub fixed_header_decode_first_byte :
      (b : ℕ) (old : FixedHeader)
      → fixed_header_decode io (record { cur = b ∷ []; header = old })
        ≡ err short_buffer (at_header [] (b / 16) 0 (bit_and b 15))
  fixed_header_decode_first_byte b old =
      decode_step b [] old
      ∙ >>=-err (decode_remaining_length io) (λ _. check_header)
          (unfold decode_remaining_length decode_remaining_length_loop in
            >>=-err (header_u8 io) _ (header_u8-nil io law (b / 16) (bit_and b 15) 0))

  header_u8-IsTotal : IsTotal (header_u8 io)
  unfolding header_u8
  header_u8-IsTotal s t e = ground arith

  invalid_remaining_length≢ : invalid_remaining_length ≢ out_of_fuel
  invalid_remaining_length≢ e = cc

  add_remaining-IsTotal : (n : ℕ) → IsTotal (add_remaining n)
  add_remaining-IsTotal n s t e = cc

  set_type_and_flags-IsTotal : (b : ℕ) → IsTotal (set_type_and_flags b)
  set_type_and_flags-IsTotal b s t e = cc

  loop-IsTotal : (k m : ℕ) → IsTotal (decode_remaining_length_loop io k m)
  unfolding decode_remaining_length_loop
  loop-IsTotal zero m = IsTotal-raise _ invalid_remaining_length≢
  loop-IsTotal (suc k) m = IsTotal->>= (header_u8 io) _ header_u8-IsTotal λ b.
      IsTotal->>= (add_remaining (bit_and b 127 * m)) _ (add_remaining-IsTotal _) λ _.
        IsTotal-if (bit_and b 128 == 0) _ _ (IsTotal-return tt) (
          IsTotal-if (ltb (128 * 128 * 128) (m * 128)) _ _
            (IsTotal-raise _ invalid_remaining_length≢) (loop-IsTotal k (m * 128)))

  check_header-IsTotal : IsTotal check_header
  unfolding check_header
  check_header-IsTotal s t e = ground arith

  -- The decoder has no loop that could run out of fuel: its rounds are four.
  pub fixed_header_decode-IsTotal : IsTotal (fixed_header_decode io)
  unfolding fixed_header_decode decode_remaining_length
  fixed_header_decode-IsTotal = IsTotal->>= (header_u8 io) _ header_u8-IsTotal λ b.
      IsTotal->>= (set_type_and_flags b) _ (set_type_and_flags-IsTotal b) λ _.
        IsTotal->>= (decode_remaining_length io) _ (λ s t. loop-IsTotal 4 1 _ t)
          (λ _. check_header-IsTotal)
