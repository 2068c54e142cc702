-- ===== src/Tests/Sending.antt =====
-- A payload of six bytes, sent in messages of four.
use aws_c_mqtt.Base.{ℕ, ◌≡◌, refl, true, false, List, [], ◌∷◌, ◌++◌, some, arith}
use aws_c_mqtt.Bytes.{ByteBuf, ok}
use aws_c_mqtt.Bytes.Simple.{simple, simple-IsByteOps}
use aws_c_mqtt.Client.{ChannelOps}
use aws_c_mqtt.Requests.{request_complete}
use aws_c_mqtt.Sending.{publish_chunks, pingreq_send}
use aws_c_mqtt.Sending.Chunks.{IsServing, sent_as, join_all, publish_chunks_lem}
use aws_c_mqtt.Tests.Stream.{idle}

abbrev four_bytes : ChannelOps
four_bytes = record {
  acquire_message = λ n. some (record { buffer = []; capacity = 4 });
  can_send = λ bs. true;
  current_clock_time = 5;
  can_allocate = λ n. true;
}

four_bytes-IsServing : IsServing four_bytes
four_bytes-IsServing = record {
  sends = λ bs. refl;
  gives = λ size. (4, refl, omega arith, omega arith);
}

abbrev header : ByteBuf
header = record { buffer = 48 ∷ 6 ∷ []; capacity = 4 }

abbrev six_bytes : List ℕ
six_bytes = 1 ∷ 2 ∷ 3 ∷ 4 ∷ 5 ∷ 6 ∷ []

-- A PINGREQ that had no answer for no longer than it may take is complete.
pingreq_again_test : pingreq_send simple four_bytes 1 false idle ≡ (request_complete, idle)
unfolding pingreq_send
pingreq_again_test = refl

publish_chunks_lem_example :
    (messages : List (List ℕ)) × (publish_chunks simple four_bytes 8 9 header six_bytes idle
      ≡ ok tt (sent_as messages idle))
    × (join_all messages ≡ (48 ∷ 6 ∷ []) ++ six_bytes)
publish_chunks_lem_example =
    publish_chunks_lem simple four_bytes simple-IsByteOps four_bytes-IsServing 8 9 header six_bytes
      idle (record { filled = omega arith; small = omega arith }) (omega arith) (omega arith)
      (λ e. omega arith)
