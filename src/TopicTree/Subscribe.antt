-- ===== src/TopicTree/Subscribe.antt =====
-- The transaction of a subscribe to several topic filters (`s_subscribe_send` of source/client.c, with
-- source/topic_tree.c), as a change of a table of subscriptions.
use aws_c_mqtt.Base.{
  ℕ, ◌+◌, ◌≤◌, length, ◌≡◌, ◌≢◌, refl, sym, ap, ◌∙◌, Bool, true, false, List, [], ◌∷◌, ◌++◌, Option,
  some, if◌then◌else◌, arith, length-append, append_assoc, append-nil,
}
use aws_c_mqtt.Bytes.{ok, >>=-ok}
use aws_c_mqtt.Packets.Filters.{ArrayOps}
use aws_c_mqtt.Topics.{SplitOps, slash}
use aws_c_mqtt.TopicTree.{Part, NodeFields, Node, TopicTree}
use aws_c_mqtt.TopicTree.Action.{
  Action, AString, Subscriber, Transaction, IsStatic, transaction_insert,
}
use aws_c_mqtt.TopicTree.Commit.{action_commit, subscribe_fields}
use aws_c_mqtt.TopicTree.Transaction.{
  commit_all, roll_back_all, transaction_commit, transaction_roll_back, transaction_insert_each,
}
use aws_c_mqtt.TopicTree.Fields.{
  path_eq, fields_at, map_fields, fields_at-update_at, node_at-fields_at,
}
use aws_c_mqtt.TopicTree.Subscriptions.{subscription_at}
use aws_c_mqtt.TopicTree.Insert.{
  IsInserted, transaction_insert_lem, inserted_commit, commit_insert, write_node_root,
}
use aws_c_mqtt.TopicTree.Insert.Loop.{is_insert}

-- A table of subscriptions, by the parts of the topic filter: the abstract state.
abbrev pub Table : Type 0
Table = List Part → Option Subscriber

abbrev pub table_of : TopicTree → Table
table_of t = λ q. subscription_at q t.root

-- One subscription is put in the table; several, in order.
abbrev pub subscribe : List Part → Subscriber → Table → Table
subscribe path s table = λ q. if path_eq path q then some s else table q

unfoldable pub subscribe_each : List (List Part × Subscriber) → Table → Table
subscribe_each [] table = table
subscribe_each ((path, s) ∷ rest) table = subscribe_each rest (subscribe path s table)

-- The actions of a transaction that wait for their commit, and the subscriptions that they carry.
data Pending (root : Node) : List Action → List (List Part × Subscriber) → Type 0 where
  pending_none : Pending root [] []
  pending_more :
      (b : Action) (bs : List Action) (path : List Part) (s : Subscriber)
      (rest : List (List Part × Subscriber)) (f : NodeFields)
      → is_insert b.mode ≡ true
      → b.node_to_update ≡ some path
      → b.subscriber ≡ s
      → s.callback ≢ 0
      → fields_at path root ≡ some f
      → Pending root bs rest
      → Pending root (b ∷ bs) ((path, s) ∷ rest)

-- Nodes that are there stay.
abbrev Keeps : Node → Node → Type 0
Keeps m n =
    (q : List Part) (f : NodeFields)
    → fields_at q m ≡ some f
    → (g : NodeFields) × (fields_at q n ≡ some g)

Pending-kept :
    (m n : Node) (bs : List Action) (xs : List (List Part × Subscriber))
    → Keeps m n
    → Pending m bs xs
    → Pending n bs xs
Pending-kept m n _ _ k pending_none = pending_none
Pending-kept m n _ _ k (pending_more b bs path s rest f i u e c at more) =
    let (g, at') = k path f at in
    pending_more b bs path s rest g i u e c at' (Pending-kept m n bs rest k more)

commit-Keeps :
    (b : Action) (path : List Part) (t : TopicTree) (f : NodeFields)
    → is_insert b.mode ≡ true
    → b.node_to_update ≡ some path
    → fields_at path t.root ≡ some f
    → Keeps t.root (action_commit b t).root
commit-Keeps b path t f i u at q g e =
    let (m, there, _) = node_at-fields_at path t.root f at in
    let (h, k) = still (path_eq path q) in
    (
      h,
      ap (λ (t' : TopicTree). fields_at q t'.root) (commit_insert b path t i u)
          ∙ ap (fields_at q) (write_node_root path (subscribe_fields b) t m there)
          ∙ fields_at-update_at path q (subscribe_fields b) t.root
          ∙ k,
    )
  where
    still :
        (c : Bool)
        → (h : NodeFields) × ((if c
              then map_fields (subscribe_fields b) (fields_at q t.root)
              else fields_at q t.root)
            ≡ some h)
    still true = (subscribe_fields b g, ap (map_fields (subscribe_fields b)) e)
    still false = (g, e)

-- The actions are committed in order.
commit_all-Pending :
    (t : TopicTree) (bs : List Action) (xs : List (List Part × Subscriber)) (table : Table)
    → Pending t.root bs xs
    → ((q : List Part) → table_of t q ≡ table q)
    → (q : List Part) → table_of (commit_all bs t) q ≡ subscribe_each xs table q
unfolding commit_all subscribe_each
commit_all-Pending t _ _ table pending_none same q = same q
commit_all-Pending t (b ∷ bs) ((path, s) ∷ rest) table (pending_more _ _ _ _ _ f i u e c at more)
      same q =
    commit_all-Pending (action_commit b t) bs rest (subscribe path s table)
      (Pending-kept t.root (action_commit b t).root bs rest (commit-Keeps b path t f i u at) more)
      (λ r.
        inserted_commit path r s t b f c at i u e
        ∙ ap (λ (x : Option Subscriber). if path_eq path r then some s else x) (same r))
      q

-- The subscriptions by the parts of their topic filters.
unfoldable pub by_parts : SplitOps → List (AString × Subscriber) → List (List Part × Subscriber)
by_parts ops [] = []
by_parts ops ((topic_filter, s) ∷ rest) =
    (ops.split topic_filter.bytes slash, s) ∷ by_parts ops rest

pub data HaveCallbacks : List (AString × Subscriber) → Type 0 where
  callbacks_none : HaveCallbacks []
  callbacks_more :
      (topic_filter : AString) (s : Subscriber) (rest : List (AString × Subscriber))
      → s.callback ≢ 0
      → HaveCallbacks rest
      → HaveCallbacks ((topic_filter, s) ∷ rest)

-- What a run of insertions leaves.
record IsPending (t t' : TopicTree) (bs : List Action) (xs : List (List Part × Subscriber))
    : Type 0 where
  pending : Pending t'.root bs xs
  kept : Keeps t.root t'.root
  same : (q : List Part) → table_of t' q ≡ table_of t q
  undone : (u : TopicTree) → u.root ≡ t'.root → (roll_back_all bs u).root ≡ t.root

Inserted-Keeps :
    (t t' : TopicTree) (b : Action) (parts : List Part) (s : Subscriber)
    → IsInserted t t' b parts s
    → Keeps t.root t'.root
Inserted-Keeps t t' b parts s v q f e = (f, v.kept q f e)

transaction_insert_each_lem :
    (ops : SplitOps) {array : ArrayOps Action} {n : ℕ}
    → IsStatic array n
    → (xs : List (AString × Subscriber)) (x : Transaction) → length x.actions + length xs ≤ n
    → HaveCallbacks xs
    → (t' : TopicTree) × (bs : List Action) × (transaction_insert_each ops array xs x
        ≡ ok tt (record { tree = t'; actions = x.actions ++ bs }))
      × IsPending x.tree t' bs (by_parts ops xs)
unfolding transaction_insert_each by_parts roll_back_all
transaction_insert_each_lem ops static [] x room callbacks_none = (
  x.tree,
  [],
  ap (λ (cs : List Action). ok tt (record { tree = x.tree; actions = cs }))
      (sym (append-nil x.actions)),
  record { pending = pending_none; kept = λ q f e. (f, e); same = λ q. refl; undone = λ u e. e },
)
transaction_insert_each_lem ops {array} static ((topic_filter, s) ∷ rest) x room
      (callbacks_more _ _ _ c cs) =
    let (t1, b, run, v) = transaction_insert_lem ops static topic_filter s x (omega arith) in
    let (t2, bs, runs, w) =
      transaction_insert_each_lem ops static rest
        (record { tree = t1; actions = x.actions ++ (b ∷ []) })
        (ground (arith, length-append x.actions (b ∷ []))) cs in
    let parts = ops.split topic_filter.bytes slash in
    let (f, found) = v.found in
    let (g, there) = w.kept parts f found in
    (
      t2,
      b ∷ bs,
      ((>>=-ok (transaction_insert array ops topic_filter s)
            (λ _. transaction_insert_each ops array rest) run)
          ∙ runs
          ∙ ap (λ (cs : List Action). ok tt (record { tree = t2; actions = cs }))
              (append_assoc x.actions (b ∷ []) bs)),
      record {
        pending =
            pending_more b bs parts s (by_parts ops rest) g v.inserts v.to_update v.subscribes c
              there w.pending;
        kept = λ q h e. w.kept q h (v.kept q h e);
        same = λ q. w.same q ∙ v.same q;
        undone = λ u e. v.undone (roll_back_all bs u) (w.undone u e);
      },
    )

-- A transaction with room for all of its topic filters, each with a callback that is not null: all
-- the insertions succeed, before the commit no subscription of the tree has changed, and the commit
-- makes of the table of subscriptions what putting each of them in it in order makes.
pub transaction_subscribe_lem :
    (ops : SplitOps) {array : ArrayOps Action} {n : ℕ}
    → IsStatic array n
    → (xs : List (AString × Subscriber)) (t : TopicTree) → length xs ≤ n
    → HaveCallbacks xs
    → (x : Transaction) × (transaction_insert_each ops array xs (record { tree = t; actions = [] })
        ≡ ok tt x)
      × ((q : List Part) → table_of x.tree q ≡ table_of t q)
      × ((q : List Part)
          → table_of (transaction_commit x).tree q
            ≡ subscribe_each (by_parts ops xs) (table_of t) q)
unfolding transaction_commit
transaction_subscribe_lem ops static xs t room cs =
    let (t', bs, run, v) =
      transaction_insert_each_lem ops static xs (record { tree = t; actions = [] }) (ground arith)
        cs in
    (
      record { tree = t'; actions = bs },
      run,
      v.same,
      commit_all-Pending t' bs (by_parts ops xs) (table_of t) v.pending v.same,
    )

-- Under the same conditions, rolling the transaction back instead gives the nodes of the tree back as
-- they were: the same root with the same tables.
pub transaction_subscribe_roll_back :
    (ops : SplitOps) {array : ArrayOps Action} {n : ℕ}
    → IsStatic array n
    → (xs : List (AString × Subscriber)) (t : TopicTree) → length xs ≤ n
    → HaveCallbacks xs
    → (x : Transaction) × (transaction_insert_each ops array xs (record { tree = t; actions = [] })
        ≡ ok tt x)
      × ((transaction_roll_back x).tree.root ≡ t.root)
unfolding transaction_roll_back
transaction_subscribe_roll_back ops static xs t room cs =
    let (t', bs, run, v) =
      transaction_insert_each_lem ops static xs (record { tree = t; actions = [] }) (ground arith)
        cs in
    (record { tree = t'; actions = bs }, run, v.undone t' refl)
