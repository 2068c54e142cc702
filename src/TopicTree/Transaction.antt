-- ===== src/TopicTree/Transaction.antt =====
-- Transactions on the topic tree (source/topic_tree.c).
use aws_c_mqtt.Base.{ℕ, List, [], ◌∷◌}
use aws_c_mqtt.Bytes.{◌>>◌, return, Op, Outcome, ok, err}
use aws_c_mqtt.Packets.Filters.{ArrayOps}
use aws_c_mqtt.Topics.{SplitOps}
use aws_c_mqtt.TopicTree.{TopicTree}
use aws_c_mqtt.TopicTree.Action.{
  Action, AString, Subscriber, Transaction, transaction_insert, transaction_remove,
}
use aws_c_mqtt.TopicTree.Commit.{action_commit, action_roll_back}

-- The actions in order, and in reverse; the transaction is empty afterwards.
unfoldable pub commit_all : List Action → TopicTree → TopicTree
commit_all [] t = t
commit_all (a ∷ rest) t = commit_all rest (action_commit a t)

unfoldable pub roll_back_all : List Action → TopicTree → TopicTree
roll_back_all [] t = t
roll_back_all (a ∷ rest) t = action_roll_back a (roll_back_all rest t)

unfoldable pub transaction_commit : Transaction → Transaction
transaction_commit s = record { tree = commit_all s.actions s.tree; actions = [] }

unfoldable pub transaction_roll_back : Transaction → Transaction
transaction_roll_back s = record { tree = roll_back_all s.actions s.tree; actions = [] }

-- A transaction of one action: it is committed when that succeeds, and rolled back otherwise.
abbrev pub run_outcome : Outcome Transaction (Unit {0}) → Outcome TopicTree (Unit {0})
run_outcome (ok _ s) = ok tt (transaction_commit s).tree
run_outcome (err e s) = err e (transaction_roll_back s).tree

abbrev pub run_transaction : Op Transaction (Unit {0}) → Op TopicTree (Unit {0})
run_transaction op t = run_outcome (op (record { tree = t; actions = [] }))

module _ (ops : SplitOps) (array : ArrayOps Action) where
  -- The insertions of a subscribe, in the loop of `s_subscribe_send` (source/client.c).
  unfoldable pub transaction_insert_each : List (AString × Subscriber) → Op Transaction (Unit {0})
  transaction_insert_each [] = return tt
  transaction_insert_each ((topic_filter, subscriber) ∷ rest) =
      transaction_insert array ops topic_filter subscriber >> transaction_insert_each rest

  unfoldable pub topic_tree_insert : AString → Subscriber → Op TopicTree (Unit {0})
  topic_tree_insert topic_filter subscriber =
      run_transaction (transaction_insert array ops topic_filter subscriber)

  unfoldable pub topic_tree_remove : List ℕ → Op TopicTree (Unit {0})
  topic_tree_remove topic_filter = run_transaction (transaction_remove array ops topic_filter)
