-- ===== src/Subscribing/Replay.antt =====
-- Attempts at subscribes and unsubscribes (source/client.c) in any order, against a table of
-- subscriptions.
use aws_c_mqtt.Base.{
  ℕ, ◌≡◌, ◌≢◌, refl, sym, ap, subst, ◌∙◌, Bool, true, false, List, [], ◌∷◌, none, if◌then◌else◌,
}
use aws_c_mqtt.Topics.{slash}
use aws_c_mqtt.TopicTree.{Part}
use aws_c_mqtt.TopicTree.Action.{IsStatic}
use aws_c_mqtt.TopicTree.Fields.{path_eq}
use aws_c_mqtt.TopicTree.Owners.{IsInOrder, IsRemovable}
use aws_c_mqtt.Bytes.{use_after_free}
use aws_c_mqtt.TopicTree.Subscriptions.{subscription_at}
use aws_c_mqtt.TopicTree.Subscribe.{Table, table_of, subscribe_each, by_parts}
use aws_c_mqtt.Client.{Connection}
use aws_c_mqtt.Requests.{RequestState, request_ongoing, request_complete, request_error}
use aws_c_mqtt.Requests.Table.{IsDistinct}
use aws_c_mqtt.Requests.Runs.{KeepsDistinctIds}
use aws_c_mqtt.Subscribing.{Surroundings, subscribe_send, unsubscribe_send}
use aws_c_mqtt.Subscribing.Outcomes.{subscribers}
use aws_c_mqtt.Subscribing.Trees.{
  subscribe_send-failed, subscribe_send-updated, subscribe_send-subscribes, subscribe_send-rest,
}
use aws_c_mqtt.Subscribing.Unsubscribes.{
  unsubscribe_send-unsubscribes, unsubscribe_send-updated, unsubscribe_send-rest,
}
use std.Path.{fun_ext}

-- An attempt, with the address of its task and its message id, and whether it is the first one.
pub data Call : Type 0 where
  subscribing : ℕ → ℕ → Bool → Call
  unsubscribing : ℕ → ℕ → Bool → Call

-- One topic filter is taken out of the table.
abbrev pub unsubscribe : List Part → Table → Table
unsubscribe path table = λ q. if path_eq path q then none else table q

-- What an attempt comes to in the table: nothing where it fails, or an earlier one succeeded.
abbrev pub settle_table : Bool → RequestState → Table → Table → Table
settle_table true state changed table = table
settle_table false request_ongoing changed table = changed
settle_table false request_complete changed table = table
settle_table false (request_error error) changed table = table

module _ (around : Surroundings) where
  unfoldable pub run_call : Call → Connection → RequestState × Connection
  run_call (subscribing address id first) c = subscribe_send around address id first c
  run_call (unsubscribing address id first) c = unsubscribe_send around address id first c

  unfoldable pub run_calls : List Call → Connection → Connection
  run_calls [] c = c
  run_calls (call ∷ calls) c = run_calls calls (run_call call c).1

  unfoldable pub replay_call : Call → Connection → RequestState → Table → Table
  replay_call (subscribing address id first) c state table =
      let task = c.memory.subscribes address in
      settle_table task.tree_updated state
        (subscribe_each (by_parts around.split (subscribers task.topics)) table) table
  replay_call (unsubscribing address id first) c state table =
      let task = c.memory.unsubscribes address in
      settle_table task.tree_updated state
        (unsubscribe (around.split.split task.filter slash) table) table

  unfoldable pub replay : List Call → Connection → Table → Table
  replay [] c table = table
  replay (call ∷ calls) c table =
      let (state, next) = run_call call c in replay calls next (replay_call call c state table)

-- Attempts that the source has a result for: where one changes the tree, its strings are in order; one
-- at a subscribe reads no string that was destroyed; one at an unsubscribe removes a subscription.

module _ (around : Surroundings) where
  pub data IsSafe (c : Connection) : Call → Type 0 where
    safe_subscribe :
        (address id : ℕ) (first : Bool)
        → IsInOrder c.subscriptions
        → (subscribe_send around address id first c).0 ≢ request_error use_after_free
        → IsSafe c (subscribing address id first)
    safe_unsubscribe :
        (address id : ℕ) (first : Bool)
        → (c.memory.unsubscribes address).tree_updated ≡ false
        → IsRemovable
            (around.split.split (c.memory.unsubscribes address).filter slash)
            c.subscriptions
        → IsSafe c (unsubscribing address id first)
    safe_resend :
        (address id : ℕ) (first : Bool)
        → (c.memory.unsubscribes address).tree_updated ≡ true
        → IsSafe c (unsubscribing address id first)

  -- Each of them is where it comes.
  pub data AreSafe : List Call → Connection → Type 0 where
    safe_none : (c : Connection) → AreSafe [] c
    safe_more :
        (call : Call) (calls : List Call) (c : Connection)
        → IsSafe c call
        → AreSafe calls (run_call around call c).1
        → AreSafe (call ∷ calls) c

module _ (around : Surroundings) (static : (n : ℕ) → IsStatic (around.actions n) n) where
  defined :
      (address id : ℕ) (first : Bool) (c : Connection)
      → IsSafe around c (subscribing address id first)
      → (subscribe_send around address id first c).0 ≢ request_error use_after_free
  defined address id first c (safe_subscribe _ _ _ o d) = d

  subscribing_lem :
      (address id : ℕ) (first : Bool) (c : Connection)
      → IsSafe around c (subscribing address id first)
      → let r = subscribe_send around address id first c in
        table_of r.1.subscriptions
        ≡ replay_call around (subscribing address id first) c r.0 (table_of c.subscriptions)
  unfolding replay_call
  subscribing_lem address id first c safe =
      step (c.memory.subscribes address).tree_updated r.0 refl refl
    where
      r : RequestState × Connection
      r = subscribe_send around address id first c

      changed : Table
      changed =
          subscribe_each (by_parts around.split (subscribers (c.memory.subscribes address).topics))
            (table_of c.subscriptions)

      unchanged : r.0 ≢ request_ongoing → table_of r.1.subscriptions ≡ table_of c.subscriptions
      unchanged n =
          ap (λ root. λ q. subscription_at q root)
            (subscribe_send-failed around static address id first c n
              (defined address id first c safe))

      step :
          (b : Bool) (state : RequestState)
          → (c.memory.subscribes address).tree_updated ≡ b
          → r.0 ≡ state
          → table_of r.1.subscriptions ≡ settle_table b state changed (table_of c.subscriptions)
      step true state u e = ap table_of (subscribe_send-updated around static address id first c u)
      step false request_ongoing u e =
          fun_ext (subscribe_send-subscribes around static address id first c u e).0
      step false request_complete u e = unchanged (λ k. cc (e, k))
      step false (request_error error) u e = unchanged (λ k. cc (e, k))

  removable :
      (address id : ℕ) (first : Bool) (c : Connection)
      → IsSafe around c (unsubscribing address id first)
      → (c.memory.unsubscribes address).tree_updated ≡ false
      → IsRemovable
          (around.split.split (c.memory.unsubscribes address).filter slash)
          c.subscriptions
  removable address id first c (safe_unsubscribe _ _ _ u r) k = r
  removable address id first c (safe_resend _ _ _ u) k = absurd (cc (u, k))

  unsubscribing_lem :
      (address id : ℕ) (first : Bool) (c : Connection)
      → IsSafe around c (unsubscribing address id first)
      → let r = unsubscribe_send around address id first c in
        table_of r.1.subscriptions
        ≡ replay_call around (unsubscribing address id first) c r.0 (table_of c.subscriptions)
  unfolding replay_call
  unsubscribing_lem address id first c safe =
      step (c.memory.unsubscribes address).tree_updated r.0 refl refl
    where
      r : RequestState × Connection
      r = unsubscribe_send around address id first c

      changed : Table
      changed =
          unsubscribe (around.split.split (c.memory.unsubscribes address).filter slash)
            (table_of c.subscriptions)

      unchanged :
          (c.memory.unsubscribes address).tree_updated ≡ false
          → r.0 ≢ request_ongoing
          → table_of r.1.subscriptions ≡ table_of c.subscriptions
      unchanged u n =
          ap (λ root. λ q. subscription_at q root)
            ((unsubscribe_send-unsubscribes around static address id first c u
                (removable address id first c safe u)).1
              n)

      step :
          (b : Bool) (state : RequestState)
          → (c.memory.unsubscribes address).tree_updated ≡ b
          → r.0 ≡ state
          → table_of r.1.subscriptions ≡ settle_table b state changed (table_of c.subscriptions)
      step true state u e =
          ap table_of (unsubscribe_send-updated around static address id first c u)
      step false request_ongoing u e =
          fun_ext
            ((unsubscribe_send-unsubscribes around static address id first c u
                (removable address id first c safe u)).0
              e).0
      step false request_complete u e = unchanged u (λ k. cc (e, k))
      step false (request_error error) u e = unchanged u (λ k. cc (e, k))

  run_call_lem :
      (call : Call) (c : Connection)
      → IsSafe around c call
      → table_of (run_call around call c).1.subscriptions
        ≡ replay_call around call c (run_call around call c).0 (table_of c.subscriptions)
  unfolding run_call
  run_call_lem (subscribing address id first) c safe = subscribing_lem address id first c safe
  run_call_lem (unsubscribing address id first) c safe = unsubscribing_lem address id first c safe

  -- Where every transaction has room for the topic filters of its task, there is memory for every node of
  -- the tree, and each attempt is safe where it comes (it finds the strings of the tree in order where
  -- it may change it, at a subscribe it reads no string that was destroyed, and at an unsubscribe it
  -- removes a subscription that is there): after attempts at subscribes and unsubscribes in any order,
  -- again or for the first time, and whichever of them fail, the table of
  -- subscriptions of the connection is the one that replaying them on the table from before makes. In
  -- the replay only an attempt that succeeds for the first time for its task counts: it puts the topic filters of a
  -- subscribe in the table in order, or takes the one of an unsubscribe out.
  pub run_calls-replay :
      (calls : List Call) (c : Connection)
      → AreSafe around calls c
      → table_of (run_calls around calls c).subscriptions
        ≡ replay around calls c (table_of c.subscriptions)
  unfolding run_calls replay
  run_calls-replay [] c safe = refl
  run_calls-replay (call ∷ calls) c (safe_more _ _ _ safe rest) =
      let (state, next) = run_call around call c in
      run_calls-replay calls next rest ∙ ap (replay around calls next) (run_call_lem call c safe)

  -- Attempts at subscribes and unsubscribes leave the table of outstanding requests as it is, and so
  -- keep message ids distinct.
  pub subscribe_send-KeepsDistinctIds :
      (address : ℕ) → KeepsDistinctIds (subscribe_send around address)
  subscribe_send-KeepsDistinctIds address id first c d =
      subst IsDistinct
        (sym (
          ap (λ (x : Connection). x.outstanding_requests)
            (subscribe_send-rest around static address id first c)))
        d

  pub unsubscribe_send-KeepsDistinctIds :
      (address : ℕ) → KeepsDistinctIds (unsubscribe_send around address)
  unsubscribe_send-KeepsDistinctIds address id first c d =
      subst IsDistinct
        (sym (
          ap (λ (x : Connection). x.outstanding_requests)
            (unsubscribe_send-rest around static address id first c)))
        d
