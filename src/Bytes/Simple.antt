-- ===== src/Bytes/Simple.antt =====
-- Byte operations that keep the promises of `IsByteOps`: they show that the promises can be kept,
-- and the tests and the instances of theorems run on them.
use aws_c_mqtt.Base.{
  ℕ, ◌+◌, ◌*◌, ◌≤◌, ◌<◌, ◌≡◌, refl, [], ◌∷◌, none, some, length, take, drop, leb, Option,
  if◌then◌else◌, arith,
}
use aws_c_mqtt.Bytes.{ByteOps, IsByteOps, Cursor, be16, write_if_room}

abbrev simple_read_u8 : Cursor → Option (ℕ × Cursor)
simple_read_u8 [] = none
simple_read_u8 (x ∷ cur) = some (x, cur)

abbrev simple_read_be16 : Cursor → Option (ℕ × Cursor)
simple_read_be16 [] = none
simple_read_be16 (x ∷ []) = none
simple_read_be16 (x ∷ y ∷ cur) = some (x * 256 + y, cur)

abbrev simple_advance : Cursor → ℕ → Cursor × Cursor
simple_advance cur n = if leb n (length cur) then (take n cur, drop n cur) else ([], cur)

abbrev pub simple : ByteOps
simple = record {
  write_u8 = λ b x. write_if_room b (x ∷ []);
  write_be16 = λ b x. write_if_room b (be16 x);
  write = write_if_room;
  read_u8 = simple_read_u8;
  read_be16 = simple_read_be16;
  advance = simple_advance;
}

fitting : (cur : Cursor) (n : ℕ) → n ≤ length cur → simple_advance cur n ≡ (take n cur, drop n cur)
fitting cur n h = ground arith

too_long : (cur : Cursor) (n : ℕ) → length cur < n → simple_advance cur n ≡ ([], cur)
too_long cur n h = ground arith

pub simple-IsByteOps : IsByteOps simple
simple-IsByteOps = record {
  write_u8_lem = λ b x h. refl;
  write_be16_lem = λ b x h. refl;
  write_lem = λ b bs. refl;
  read_u8_nil = refl;
  read_u8_cons = λ x cur. refl;
  read_be16_nil = refl;
  read_be16_one = λ x. refl;
  read_be16_cons = λ x y cur. refl;
  advance_lem = λ cur n h _. fitting cur n h;
  advance_short = too_long;
}
