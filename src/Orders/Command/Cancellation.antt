-- ===== src/Orders/Command/Cancellation.antt =====
-- What `cancelOrder` leaves behind, alone and beside another cancellation of the same order.
use rd_shop_backend.Base.{◌≡◌, refl, ◌≢◌, ◌↔◌, ap, some, List, [], ◌∷◌, ◌++◌, map, arith, RowId}
use rd_shop_backend.Base.Table.{find, find-save, find_fields}
use rd_shop_backend.Base.Outcome.{Result, ok, err, http, conflict}
use rd_shop_backend.Orders.Model.{
  cancelled, created, product_entity, Order, order_entity, OrderItem, Db, World, order_cancelled,
  cancellation,
}
use rd_shop_backend.Orders.Rules.{assert_order_ownership}
use rd_shop_backend.Orders.Stock.{lock_and_restore}
use rd_shop_backend.Orders.Stock.Demand.{demand, refill}
use rd_shop_backend.Orders.Stock.Validation.{ids_of}
use rd_shop_backend.Orders.Stock.Laws.{lock_and_restore-demand}
use rd_shop_backend.Orders.Command.{
  check_cancellable, stock_items, cancel_and_restore, cancel_order,
}

abbrev pub cancelled_row : Order → Order
cancelled_row o = record o { status = cancelled }

-- The guards, case by case: a cancellation goes on with the stored order exactly if it is the
-- caller's and neither cancelled nor in the state CREATED; they write nothing.
pub check_cancellable_lem :
    (order_id user_id : RowId) (o : Order) (d : Db)
    → (check_cancellable order_id user_id d ≡ (ok o, d)) ↔ (
        (find order_id d.orders ≡ some o)
        × (o.user_id ≡ user_id)
        × (o.status ≢ cancelled)
        × (o.status ≢ created))
unfolding check_cancellable assert_order_ownership
check_cancellable_lem order_id user_id o d =
    (λ h. (ground arith, ground arith, ground arith, ground arith), λ h. ground arith)

ids_of-stock_items :
    (items : List OrderItem) → map (λ i. i.product_id) items ≡ ids_of (stock_items items)
ids_of-stock_items [] = refl
ids_of-stock_items (i ∷ items) = ap (λ ids. i.product_id ∷ ids) (ids_of-stock_items items)

-- The writes: the row of the order is the one that was read, cancelled, and every product gets the
-- quantity of the order's items back.
pub cancel_and_restore_lem :
    (o : Order) (d : Db) (k : RowId)
    → let (r, d') = cancel_and_restore o d in
      (r ≡ ok (cancelled_row o))
      × (find o.id d'.orders ≡ some (cancelled_row o))
      × (find k d'.products ≡ refill (demand k (stock_items o.items)) (find k d.products))
unfolding cancel_and_restore lock_and_restore
cancel_and_restore_lem o d k = rw (ids_of-stock_items o.items) (
    ground (
      arith,
      lock_and_restore-demand (stock_items o.items) d k,
      find-save o.id (cancelled_row o) d.orders refl,
    ))

-- What a cancellation that succeeds has done, to the order `read` that it found, from the database
-- `d` that the other transactions left when it got its locks.
pub record Cancelled (user_id email order_id : RowId) (read o : Order) (d : Db) (w w' : World)
    : Type 0 where
  pub found : find order_id w.db.orders ≡ some read
  pub owner : read.user_id ≡ user_id
  pub open_before : (read.status ≢ cancelled) × (read.status ≢ created)
  pub result : o ≡ cancelled_row read
  pub stored : find order_id w'.db.orders ≡ some o
  pub refilled :
      (k : RowId)
      → find k w'.db.products ≡ refill (demand k (stock_items read.items)) (find k d.products)
  pub announced : w'.events ≡ w.events ++ order_cancelled order_id email ∷ []

check_cancellable_same :
    (order_id user_id : RowId) (d : Db) → (check_cancellable order_id user_id d).1 ≡ d
unfolding check_cancellable
check_cancellable_same order_id user_id d = ground arith

-- Past the guards a cancellation cannot fail.
cancel_order_of_check :
    (others : Db → Db) (user_id email order_id : RowId) (read : Order) (w : World)
    → check_cancellable order_id user_id w.db ≡ (ok read, w.db)
    → cancel_order others user_id email order_id w ≡ (
      ok (cancelled_row read),
      record w {
        db = (cancel_and_restore read (others w.db)).1;
        events = w.events ++ order_cancelled read.id email ∷ [];
        audit = w.audit ++ cancellation user_id read.id ∷ [];
      },
    )
unfolding cancel_order
cancel_order_of_check others user_id email order_id read w c =
    ground (arith, (cancel_and_restore_lem read (others w.db) 0).0)

-- A cancellation that succeeds found an order of the caller that was neither cancelled nor CREATED;
-- it returns and stores that order as cancelled, gives every product that is not removed back what the
-- order's items took, and emits one event. A removed product gets nothing back.
pub cancel_order-Cancelled :
    (others : Db → Db) (user_id email order_id : RowId) (o : Order) (w w' : World)
    → cancel_order others user_id email order_id w ≡ (ok o, w')
    → (read : Order) × Cancelled user_id email order_id read o (others w.db) w w'
unfolding cancel_order
cancel_order-Cancelled others user_id email order_id o w w' h =
    by_check (check_cancellable order_id user_id w.db) refl
  where
    by_check :
        (r : Result Order × Db)
        → check_cancellable order_id user_id w.db ≡ r
        → (read : Order) × Cancelled user_id email order_id read o (others w.db) w w'
    by_check (err e, d) c = absurd (ground arith)
    by_check (ok read, d) c =
        let same : d ≡ w.db = ground (arith, check_cancellable_same order_id user_id w.db) in
        let checked : check_cancellable order_id user_id w.db ≡ (ok read, w.db) = ground arith in
        let guards = (check_cancellable_lem order_id user_id read w.db).0 checked in
        let ran = cancel_order_of_check others user_id email order_id read w checked in
        let id_same : read.id ≡ order_id = (find_fields order_id read w.db.orders guards.0).0 in
        (
          read,
          record {
            found = guards.0;
            owner = guards.1;
            open_before = (guards.2, guards.3);
            result = ground (arith, ran);
            stored = ground (arith, ran, (cancel_and_restore_lem read (others w.db) 0).1);
            refilled = λ k. ground (arith, ran, (cancel_and_restore_lem read (others w.db) k).2);
            announced = ground (arith, ran);
          },
        )

-- A second cancellation, begun after the first has committed, is refused with 409 and changes
-- nothing.
pub cancel_order_again :
    (others : Db → Db) (user_id email order_id : RowId) (o : Order) (w w' : World)
    → cancel_order others user_id email order_id w ≡ (ok o, w')
    → cancel_order (λ d. d) user_id email order_id w' ≡ (err (http conflict), w')
unfolding cancel_order check_cancellable assert_order_ownership
cancel_order_again others user_id email order_id o w w' h =
    let (read, c) = cancel_order-Cancelled others user_id email order_id o w w' h in
    ground (arith, c.stored, c.result, c.owner)

-- Two cancellations of one order that both read it before either commits both succeed, and every
-- product gets the quantity of the order's items back twice: the status is not read again under the
-- locks.
cancel_order_race :
    (user_id email order_id : RowId) (read : Order) (w : World)
    → find order_id w.db.orders ≡ some read
    → read.user_id ≡ user_id
    → read.status ≢ cancelled
    → read.status ≢ created
    → let other = λ (d : Db). (cancel_and_restore read d).1 in
      let (r, w') = cancel_order other user_id email order_id w in
      (r ≡ ok (cancelled_row read))
      × ((k : RowId)
          → find k w'.db.products
            ≡ refill
                (demand k (stock_items read.items))
                (refill (demand k (stock_items read.items)) (find k w.db.products)))
cancel_order_race user_id email order_id read w found owner open_a open_b =
    let other = λ (d : Db). (cancel_and_restore read d).1 in
    let checked =
      (check_cancellable_lem order_id user_id read w.db).1 (found, owner, open_a, open_b) in
    let ran = cancel_order_of_check other user_id email order_id read w checked in
    (
      ground (arith, ran),
      λ k. ground (
        arith,
        ran,
        (cancel_and_restore_lem read (other w.db) k).2,
        (cancel_and_restore_lem read w.db k).2,
      ),
    )
