-- ===== src/Channel/Termination.antt =====
-- The loop over a message ends, on any bytes.
use aws_c_mqtt.Base.{
  ℕ, zero, suc, ◌+◌, ◌^◌, ◌≤◌, ◌<◌, ◌≡◌, ◌≢◌, sym, ap, ◌∙◌, inl, inr, List, [], ◌∷◌, length,
  length-append, length-drop, take, drop, All, arith,
}
use aws_c_mqtt.Bytes.{ByteOps, IsByteOps, IsByte, Cursor, Error, err, out_of_fuel, >>=-ne-err}
use aws_c_mqtt.FixedHeader.{HeaderState, zero_header, fixed_header_decode}
use aws_c_mqtt.FixedHeader.Decode.{fixed_header_decode-Accepted, fixed_header_decode-IsTotal}
use aws_c_mqtt.Packets.Filters.Laws.{Outcome-cases}
use aws_c_mqtt.Client.{Connection, ChannelOps}
use aws_c_mqtt.Channel.{Process, process_and_go_on, store_partial, read_packets}
use aws_c_mqtt.Channel.Framing.{size_of, step_ok}

All-drop : (n : ℕ) (xs : List ℕ) → All IsByte xs → All IsByte (drop n xs)
All-drop zero xs h = h
All-drop (suc n) [] h = tt
All-drop (suc n) (x ∷ xs) h = All-drop n xs h.1

module _ (io : ByteOps) (law : IsByteOps io) (channel : ChannelOps) (process : Process) where
  process_and_go_on-ne-out_of_fuel :
      (type : ℕ) (packet : Cursor) (c t : Connection)
      → process_and_go_on io channel process type packet c ≢ err out_of_fuel t
  unfolding process_and_go_on
  process_and_go_on-ne-out_of_fuel type packet c t e = ground arith

  step_err :
      (cur : Cursor) (x : Error) (s : HeaderState) (k : ℕ) (c t : Connection)
      → fixed_header_decode io (record { cur = cur; header = zero_header }) ≡ err x s
      → x ≢ out_of_fuel
      → read_packets io channel process (suc k) cur c ≢ err out_of_fuel t
  unfolding read_packets store_partial
  step_err cur x s k c t d ne e = ground arith

  -- A message of fewer than 2 ^ 63 bytes, read with as many rounds as it has bytes or more: the loop
  -- does not run out of fuel, whatever the handlers do.
  pub read_packets-ne-out_of_fuel :
      (fuel : ℕ) (cur : Cursor) (c t : Connection)
      → All IsByte cur
      → length cur < 2 ^ 63
      → length cur ≤ fuel
      → read_packets io channel process fuel cur c ≢ err out_of_fuel t
  read_packets-ne-out_of_fuel zero [] c t h hl hf = λ e. unfold read_packets in cc
  read_packets-ne-out_of_fuel (suc k) [] c t h hl hf = λ e. unfold read_packets in cc
  read_packets-ne-out_of_fuel zero (x ∷ cur) c t h hl hf = absurd (omega arith)
  read_packets-ne-out_of_fuel (suc k) (x ∷ cur) c t h hl hf =
      elim (Outcome-cases
        (fixed_header_decode io (record { cur = x ∷ cur; header = zero_header }))) [
          | inr (y, s, r) ↦
              step_err (x ∷ cur) y s k c t r
                (λ q. fixed_header_decode-IsTotal io law _ s (r ∙ ap (λ (z : Error). err z s) q))
          | inl (a, s, r) ↦
              let (pre, e, lo, hi, fits, v) =
                fixed_header_decode-Accepted io law (x ∷ cur) zero_header s h r in
              let n : length (x ∷ cur) ≡ length pre + length s.cur =
                ap length e ∙ length-append pre s.cur in
              let size : ℕ = size_of io law channel process (x ∷ cur) s in
              λ q.
                >>=-ne-err
                  (process_and_go_on io channel process s.header.packet_type (take size (x ∷ cur)))
                  (λ _. read_packets io channel process k (drop size (x ∷ cur))) c out_of_fuel
                  {t = t}
                  (process_and_go_on-ne-out_of_fuel s.header.packet_type (take size (x ∷ cur)) c t)
                  (λ _ d _.
                    read_packets-ne-out_of_fuel k (drop size (x ∷ cur)) d t
                      (All-drop size (x ∷ cur) h) (omega (arith, length-drop size (x ∷ cur)))
                      (omega (arith, length-drop size (x ∷ cur), n, v.remaining_lt)))
                  (sym (
                      step_ok io law channel process (x ∷ cur) s (take size (x ∷ cur))
                        (drop size (x ∷ cur)) k c (omega arith) r
                        (law.advance_lem (x ∷ cur) size (omega (arith, n)) (omega (arith, n))))
                    ∙ q)
        ]
