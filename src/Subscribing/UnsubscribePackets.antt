-- ===== src/Subscribing/UnsubscribePackets.antt =====
-- The packet that an unsubscribe sends (`s_unsubscribe_send` of source/client.c).
use aws_c_mqtt.Base.{
  ℕ, ◌+◌, ◌<◌, ◌≡◌, ◌≢◌, refl, ap, ◌∙◌, inr, Bool, true, false, not, List, [], ◌∷◌, ◌++◌, some,
  ◌==◌, length, length-append, arith,
}
use aws_c_mqtt.PacketType
use aws_c_mqtt.Bytes.{IsByteOps, Op, ok, ◌>>◌, >>=-ok}
use aws_c_mqtt.FixedHeader.{bad_flags, has_flags}
use aws_c_mqtt.FixedHeader.Wire.{header_bytes}
use aws_c_mqtt.Packets.Field.{Fits, grow, sizeof_encoded_buffer}
use aws_c_mqtt.Packets.Unsubscribe.{
  UnsubscribePacket, unsubscribe_init, unsubscribe_add_topic, unsubscribe_encode,
}
use aws_c_mqtt.Packets.Unsubscribe.Laws.{
  IsUnsubscribe, unsubscribe_bytes, unsubscribe_body, unsubscribe_encode-Emits,
  unsubscribe_add_topic-IsUnsubscribe,
}
use aws_c_mqtt.Topics.{slash}
use aws_c_mqtt.TopicTree.{Part}
use aws_c_mqtt.TopicTree.Action.{Transaction, IsStatic, transaction_remove}
use aws_c_mqtt.TopicTree.Remove.{transaction_remove_lem}
use aws_c_mqtt.Client.{IsOpen, send_message, Connection, emit}
use aws_c_mqtt.Client.Tasks.{UnsubscribeTask}
use aws_c_mqtt.Requests.{request_ongoing}
use aws_c_mqtt.Subscribing.{
  Attempt, Surroundings, on_packet, on_transaction, do_if, send_packet, start, empty_transaction,
  init_unsubscribe, unsubscribe_attempt, unsubscribe_settle, unsubscribe_send,
}
use aws_c_mqtt.Subscribing.Attempts.{on_transaction-ok}
use aws_c_mqtt.Subscribing.Messages.{length-header_bytes, send_packet-Emits}

-- What the attempts rely on.
pub record IsReady (around : Surroundings) : Type 0 where
  pub io_law : IsByteOps around.io
  pub static : (n : ℕ) → IsStatic (around.actions n) n
  pub grows :
      (xs : List (List ℕ)) (x : List ℕ) → around.filters.push_back xs x ≡ some (xs ++ (x ∷ []))
  pub allocates : around.can_allocate ≡ true
  pub is_open : IsOpen around.channel

module _ (around : Surroundings) (ready : IsReady around) where
  init_lem :
      (id : ℕ) (filter : List ℕ) (old : UnsubscribePacket)
      → id < 65536
      → Fits filter
      → (p : UnsubscribePacket) × (init_unsubscribe around id filter old ≡ ok tt p)
        × IsUnsubscribe p
        × (p.packet_identifier ≡ id)
        × (p.topic_filters ≡ filter ∷ [])
        × (p.fixed_header.remaining_length ≡ 4 + length filter)
  unfolding bad_flags has_flags unsubscribe_init unsubscribe_add_topic
  init_lem id filter old id_lt fits = (q, run, w.0, refl, w.1, omega arith)
    where
      first : UnsubscribePacket
      first = record {
        fixed_header = record {
          packet_type = PacketType.unsubscribe;
          remaining_length = 2;
          flags = 2;
        };
        packet_identifier = id;
        topic_filters = [];
      }

      q : UnsubscribePacket
      q = record first {
        fixed_header = grow first.fixed_header (sizeof_encoded_buffer filter);
        topic_filters = filter ∷ [];
      }

      made : unsubscribe_init around.can_allocate id old ≡ ok tt first
      made = rw ready.allocates refl

      added : unsubscribe_add_topic around.filters filter first ≡ ok tt q
      added = rw (unsubscribe_add_topic, ready.grows [] filter) refl

      run : init_unsubscribe around id filter old ≡ ok tt q
      run =
          >>=-ok (unsubscribe_init around.can_allocate id)
            (λ _. unsubscribe_add_topic around.filters filter) {s = old} made
          ∙ added

      w : IsUnsubscribe q × (q.topic_filters ≡ filter ∷ [])
      w =
          unsubscribe_add_topic-IsUnsubscribe around.filters first q filter
            (record { push_back_lem = λ xs x. inr (ready.grows xs x) }) (ground arith) fits
            (omega arith) added

  remove_if_lem :
      (b : Bool) (filter : List ℕ) (packet : UnsubscribePacket) (c : Connection)
      → around.split.split filter slash ≢ []
      → (x : Transaction) × (do_if
            (not b)
            (on_transaction (transaction_remove (around.actions 1) around.split filter))
            (start packet c)
          ≡ ok tt (record (start packet c) { transaction = x }))
  unfolding transaction_remove
  remove_if_lem true filter packet c h = (empty_transaction c.subscriptions, refl)
  remove_if_lem false filter packet c h =
      let parts : List Part = around.split.split filter slash in
      (
        _,
        on_transaction-ok (transaction_remove (around.actions 1) around.split filter)
            (start packet c) _
            (transaction_remove_lem (ready.static 1) parts (empty_transaction c.subscriptions)
              (omega arith) h),
      )

  pub unsubscribe_send-sends :
      (address id : ℕ) (first : Bool) (c : Connection)
      → id < 65536
      → (c.memory.unsubscribes address).unsubscribe.fixed_header.packet_type ≡ 0
      → around.split.split (c.memory.unsubscribes address).filter slash ≢ []
      → length (c.memory.unsubscribes address).filter < 16380
      → (p : UnsubscribePacket) × IsUnsubscribe p
        × (p.packet_identifier ≡ id)
        × (p.topic_filters ≡ (c.memory.unsubscribes address).filter ∷ [])
        × ((unsubscribe_send around address id first c).0 ≡ request_ongoing)
        × ((unsubscribe_send around address id first c).1.events
            ≡ c.events ++ (send_message (unsubscribe_bytes p) ∷ []))
        × (((unsubscribe_send around address id first c).1.memory.unsubscribes address).unsubscribe
            ≡ p)
  unfolding unsubscribe_send unsubscribe_attempt unsubscribe_bytes
  unsubscribe_send-sends address id first c id_lt fresh parts small =
      let (p, inited, v, same_id, filters, size) =
        init_lem id task.filter task.unsubscribe id_lt (omega arith) in
      let (x, removed) = remove_if_lem task.tree_updated task.filter task.unsubscribe c parts in
      let t : Attempt UnsubscribePacket = record { packet = p; transaction = x; connection = c } in
      let sent =
        send_packet-Emits around.channel (λ q. q.fixed_header) (unsubscribe_encode around.io) t
          (unsubscribe_bytes p) ready.is_open (unsubscribe_encode-Emits around.io ready.io_law p v)
          (omega (
            arith,
            length-header_bytes p.fixed_header (omega (arith, size)),
            v.remaining,
            length-append (header_bytes p.fixed_header) (unsubscribe_body p),
          ))
          (omega (arith, size)) in
      let mid : Attempt UnsubscribePacket = record (start task.unsubscribe c) { transaction = x } in
      let u : Attempt UnsubscribePacket = record t {
        connection = emit (send_message (unsubscribe_bytes p)) c;
      } in
      let put : initing mid ≡ ok tt t = rw is_fresh (rw (on_packet, inited) refl) in
      let run : unsubscribe_attempt around id task (start task.unsubscribe c) ≡ ok tt u =
        >>=-ok (removing >> initing) (λ _. sending) (>>=-ok removing (λ _. initing) removed ∙ put)
        ∙ sent in
      let e : unsubscribe_send around address id first c
          ≡ unsubscribe_settle around address task (ok tt u) =
        ap (unsubscribe_settle around address task) run in
      (
        p,
        v,
        same_id,
        filters,
        ap (λ r. r.0) e,
        ap (λ r. r.1.events) e,
        ap (λ r. (r.1.memory.unsubscribes address).unsubscribe) e ∙ ground arith,
      )
    where
      task : UnsubscribeTask
      task = c.memory.unsubscribes address

      removing : Op (Attempt UnsubscribePacket) (Unit {0})
      removing =
          do_if (not task.tree_updated)
            (on_transaction (transaction_remove (around.actions 1) around.split task.filter))

      initing : Op (Attempt UnsubscribePacket) (Unit {0})
      initing =
          do_if (task.unsubscribe.fixed_header.packet_type == 0)
            (on_packet (init_unsubscribe around id task.filter))

      sending : Op (Attempt UnsubscribePacket) (Unit {0})
      sending = send_packet around.channel (λ p. p.fixed_header) (unsubscribe_encode around.io)

      is_fresh : task.unsubscribe.fixed_header.packet_type == 0 ≡ true
      is_fresh = ground (arith, fresh)
