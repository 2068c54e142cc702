-- ===== src/Base/Bits.antt =====
-- The masks and shifts that the source applies to one byte, as arithmetic. Each law is a table of
-- at most 256 entries, checked by evaluation.
use Prim.Native.Nat.{ℕ, zero, suc, ◌+◌, ◌*◌, ◌/◌, ◌%◌, ◌<◌, bit_and, bit_or}
use mathlib.Core.Path.{◌≡◌, refl, ◌∙◌}
use mathlib.Core.Bool.{Bool, true, ◌&&◌}
use native.Mathlib.Omega.{arith}
use aws_c_mqtt.Base.Tests.{◌==◌}

agree_below : ℕ → (ℕ → ℕ) → (ℕ → ℕ) → Bool
agree_below zero f g = true
agree_below (suc n) f g = f n == g n && agree_below n f g

agree_below→eq : (n : ℕ) (f g : ℕ → ℕ) → agree_below n f g ≡ true → (i : ℕ) → i < n → f i ≡ g i
unfolding agree_below
agree_below→eq zero f g e i h = absurd (omega arith)
agree_below→eq (suc n) f g e i h = ground (arith, agree_below→eq n f g (ground arith) i)

pub bit_and_127 : (b : ℕ) → b < 256 → bit_and b 127 ≡ b % 128
unfolding agree_below
bit_and_127 = agree_below→eq 256 (λ b. bit_and b 127) (λ b. b % 128) refl

pub bit_and_128 : (b : ℕ) → b < 256 → bit_and b 128 ≡ b / 128 * 128
unfolding agree_below
bit_and_128 = agree_below→eq 256 (λ b. bit_and b 128) (λ b. b / 128 * 128) refl

pub bit_or_128 : (b : ℕ) → b < 128 → bit_or b 128 ≡ b + 128
unfolding agree_below
bit_or_128 = agree_below→eq 128 (λ b. bit_or b 128) (λ b. b + 128) refl

pub bit_and_15 : (b : ℕ) → b < 256 → bit_and b 15 ≡ b % 16
unfolding agree_below
bit_and_15 = agree_below→eq 256 (λ b. bit_and b 15) (λ b. b % 16) refl

pub bit_and_3 : (b : ℕ) → b < 256 → bit_and b 3 ≡ b % 4
unfolding agree_below
bit_and_3 = agree_below→eq 256 (λ b. bit_and b 3) (λ b. b % 4) refl

pub bit_and_1 : (b : ℕ) → b < 256 → bit_and b 1 ≡ b % 2
unfolding agree_below
bit_and_1 = agree_below→eq 256 (λ b. bit_and b 1) (λ b. b % 2) refl

nibbles : (n : ℕ) → n < 256 → bit_or (n / 16 * 16) (n % 16) ≡ n
unfolding agree_below
nibbles = agree_below→eq 256 (λ n. bit_or (n / 16 * 16) (n % 16)) (λ n. n) refl

-- A high and a low half join into one byte.
pub bit_or_nibbles : (hi lo : ℕ) → hi < 16 → lo < 16 → bit_or (hi * 16) lo ≡ hi * 16 + lo
bit_or_nibbles hi lo h l = ground (arith, nibbles (hi * 16 + lo), quotient, remainder)
  where
    quotient : (hi * 16 + lo) / 16 ≡ hi
    quotient = omega arith

    remainder : (hi * 16 + lo) % 16 ≡ lo
    remainder = omega arith

publish_table :
    (n : ℕ)
    → n < 16
    → bit_or (bit_or (bit_and (n % 2) 1) (bit_and (n / 2 % 4) 3 * 2)) (bit_and (n / 8) 1 * 8) % 256
      ≡ n
unfolding agree_below
publish_table =
    agree_below→eq 16
      (λ n.
        bit_or (bit_or (bit_and (n % 2) 1) (bit_and (n / 2 % 4) 3 * 2)) (bit_and (n / 8) 1 * 8)
        % 256)
      (λ n. n) refl

-- The three fields of the flags of a PUBLISH.
pub publish_fields :
    (r q d : ℕ)
    → r < 2
    → q < 4
    → d < 2
    → bit_or (bit_or (bit_and r 1) (bit_and q 3 * 2)) (bit_and d 1 * 8) % 256 ≡ r + q * 2 + d * 8
publish_fields r q d hr hq hd = ground (arith, publish_table (r + q * 2 + d * 8), retain, qos, dup)
  where
    retain : (r + q * 2 + d * 8) % 2 ≡ r
    retain = omega arith

    qos : (r + q * 2 + d * 8) / 2 % 4 ≡ q
    qos = omega arith

    dup : (r + q * 2 + d * 8) / 8 ≡ d
    dup = omega arith

-- The connect flags hold seven fields; bit 0 is reserved and 0.
connect_table :
    (n : ℕ)
    → n < 128
    → bit_or
          (bit_or
            (bit_or (bit_or (bit_or (n % 2 * 2) (n / 2 % 2 * 4)) (n / 4 % 4 * 8)) (n / 16 % 2 * 32))
            (n / 32 % 2 * 64))
          (n / 64 * 128)
        % 256
      ≡ n * 2
unfolding agree_below
connect_table =
    agree_below→eq 128
      (λ n.
        bit_or
          (bit_or
            (bit_or (bit_or (bit_or (n % 2 * 2) (n / 2 % 2 * 4)) (n / 4 % 4 * 8)) (n / 16 % 2 * 32))
            (n / 32 % 2 * 64))
          (n / 64 * 128)
        % 256)
      (λ n. n * 2) refl

pub connect_fields :
    (c w q r p u : ℕ)
    → c < 2
    → w < 2
    → q < 4
    → r < 2
    → p < 2
    → u < 2
    → bit_or (bit_or (bit_or (bit_or (bit_or (c * 2) (w * 4)) (q * 8)) (r * 32)) (p * 64)) (u * 128)
        % 256
      ≡ c * 2 + w * 4 + q * 8 + r * 32 + p * 64 + u * 128
connect_fields c w q r p u hc hw hq hr hp hu =
    let n : ℕ = c + w * 2 + q * 4 + r * 16 + p * 32 + u * 64 in
    let e₁ : n % 2 ≡ c = omega arith in
    let e₂ : n / 2 % 2 ≡ w = omega arith in
    let e₃ : n / 4 % 4 ≡ q = omega arith in
    let e₄ : n / 16 % 2 ≡ r = omega arith in
    let e₅ : n / 32 % 2 ≡ p = omega arith in
    let e₆ : n / 64 ≡ u = omega arith in
    rw (e₁, e₂, e₃, e₄, e₅, e₆) at (connect_table n (omega arith)) ∙ omega arith
