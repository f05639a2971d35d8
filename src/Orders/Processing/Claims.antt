-- ===== src/Orders/Processing/Claims.antt =====
-- The transaction of `processOrderMessage`: a message is taken once, and an order is processed once.
use rd_shop_backend.Base.{
  ◌≡◌, refl, ◌≢◌, true, some, List, [], ◌∷◌, ◌++◌, arith, RowId, Option-cases, inl, inr,
}
use rd_shop_backend.Base.Table.{find, find-save, find_fields}
use rd_shop_backend.Base.Outcome.{Result, ok, err}
use rd_shop_backend.Orders.Model.{
  pending, processed, Order, order_entity, ProcessedMessage, ProcessMessage, Db, World,
}
use rd_shop_backend.Orders.Processing.{
  WorkEnv, message_row, mark, already_processed, insert_processed, mark_processed, claim,
  process_order_message,
}

already_processed-append :
    (id : RowId) (ms : List ProcessedMessage) (m : ProcessedMessage)
    → m.message_id ≡ id
    → already_processed id (ms ++ m ∷ []) ≡ true
unfolding already_processed
already_processed-append id [] m h = ground arith
already_processed-append id (x ∷ ms) m h = ground (arith, already_processed-append id ms m h)

insert_processed_lem :
    (env : WorkEnv) (msg : ProcessMessage) (d d' : Db)
    → insert_processed env msg d ≡ ok d'
    → (already_processed msg.message_id d'.processed_messages ≡ true)
      × (d'.orders ≡ d.orders)
      × (d'.products ≡ d.products)
      × (d'.users ≡ d.users)
unfolding insert_processed
insert_processed_lem env msg d d' h =
    ground
      (arith, already_processed-append msg.message_id d.processed_messages (message_row msg) refl)

-- What the transaction has done when it hands an order on.
pub record Claimed (msg : ProcessMessage) (o : Order) (d d' : Db) : Type 0 where
  pub before : find msg.order_id d.orders ≡ some (record o { status = pending })
  pub marked : o.status ≡ processed
  pub stored : find msg.order_id d'.orders ≡ some o
  pub others : (k : RowId) → k ≢ msg.order_id → find k d'.orders ≡ find k d.orders
  pub recorded : already_processed msg.message_id d'.processed_messages ≡ true
  pub kept : (d'.products ≡ d.products) × (d'.users ≡ d.users)

-- A transaction that hands an order on has turned the message's pending order, and no other, into
-- PROCESSED, and has recorded the message.
pub claim-Claimed :
    (env : WorkEnv) (msg : ProcessMessage) (o : Order) (d d' : Db)
    → claim env msg d ≡ (ok (some o), d')
    → Claimed msg o d d'
unfolding claim mark_processed mark
claim-Claimed env msg o d d' h = by_insert (insert_processed env msg d) refl
  where
    by_insert : (r : Result Db) → insert_processed env msg d ≡ r → Claimed msg o d d'
    by_insert (err e) i = absurd (ground arith)
    by_insert (ok d1) i = elim (Option-cases (find msg.order_id d1.orders)) [
      | inl e ↦ absurd (ground arith)
      | inr (old, e) ↦
          let kept = insert_processed_lem env msg d d1 i in
          let known = find_fields msg.order_id old d1.orders e in
          record {
            before = ground arith;
            marked = ground arith;
            stored = ground (arith, find-save msg.order_id o d1.orders refl);
            others = λ k ne. ground (arith, find-save k o d1.orders refl);
            recorded = ground arith;
            kept = ground arith;
          }
    ]

-- A message that is recorded is skipped: the call succeeds and writes nothing.
pub process_order_message_again :
    (env : WorkEnv) (msg : ProcessMessage) (w : World)
    → already_processed msg.message_id w.db.processed_messages ≡ true
    → process_order_message env msg w ≡ (ok tt, record w { db = env.others w.db })
unfolding process_order_message claim
process_order_message_again env msg w h = ground arith

-- Transactions of the worker one after the other, each in some environment
pub data Claims (d : Db) : Db → Type 0 where
  none_yet : Claims d d
  and_then :
      {d' : Db} (env : WorkEnv) (msg : ProcessMessage) → Claims d d' → Claims d (claim env msg d').1
