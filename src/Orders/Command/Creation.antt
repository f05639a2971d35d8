-- ===== src/Orders/Command/Creation.antt =====
-- What `createOrder` leaves behind: in the database, the queue and the events, on success and on
-- failure.
use rd_shop_backend.Base.{
  ◌≡◌, refl, ◌⊎◌, inl, inr, true, false, Option, none, some, List, [], ◌∷◌, ◌++◌, arith, RowId,
  truthy, Option-cases,
}
use rd_shop_backend.Base.Table.{find, save, find-save}
use rd_shop_backend.Base.Outcome.{Result, ok, err, Error, internal}
use rd_shop_backend.Orders.Model.{
  pending, product_entity, Order, order_entity, CreateOrder, User, user_entity, Db, World,
  order_created,
}
use rd_shop_backend.Orders.Stock.{validate_exist}
use rd_shop_backend.Orders.Stock.Demand.{demand, deduct}
use rd_shop_backend.Orders.Stock.Laws.{lock_validate_and_decrement-demand}
use rd_shop_backend.Orders.Command.{
  message_of, map_timeout, Env, product_ids_of, order_transaction, publish_order_processing,
  place_order, handle_creation_error, creation_error, create_new_order, create_order,
  check_idempotency, validate_user,
}
use rd_shop_backend.Orders.Command.Keys.{row, Committed, order_transaction-Committed}

-- What a call that placed an order of `user` has done, from the database `d` in which its
-- transaction began and the outside world `w`.
pub record Placed (env : Env) (dto : CreateOrder) (user : User) (o : Order) (d : Db) (w w' : World)
    : Type 0 where
  pub committed : order_transaction env dto user (product_ids_of dto) d ≡ (ok o, w'.db)
  pub owner : o.user_id ≡ user.id
  pub status : o.status ≡ pending
  pub unpaid : o.payment_id ≡ none
  pub stored : find o.id w'.db.orders ≡ some o
  pub taken : (k : RowId) → find k w'.db.products ≡ deduct (demand k dto.items) (find k d.products)
  pub sent : w'.queue ≡ w.queue ++ message_of env o dto.idempotency_key ∷ []
  pub announced : w'.events ≡ w.events ++ order_created o.id user.email ∷ []

pub transaction_stores :
    (env : Env) (dto : CreateOrder) (user : User) (o : Order) (d d' : Db)
    → Committed env dto user (product_ids_of dto) o d d'
    → (k : RowId)
    → (find o.id d'.orders ≡ some o)
      × (find k d'.products ≡ deduct (demand k dto.items) (find k d.products))
transaction_stores env dto user o d d' c k = (
  ground (arith, find-save o.id o (save (row env dto user) c.reserved.orders) refl, c.written),
  ground (
    arith,
    lock_validate_and_decrement-demand dto.items d c.reserved c.product_map c.took k,
    c.written,
  ),
)

place_order-Placed :
    (env : Env) (dto : CreateOrder) (user : User) (o : Order) (w w' : World)
    → place_order env dto user (product_ids_of dto) w ≡ (ok o, w')
    → Placed env dto user o w.db w w'
unfolding place_order publish_order_processing
place_order-Placed env dto user o w w' h =
    let d' = (order_transaction env dto user (product_ids_of dto) w.db).1 in
    let c : Committed env dto user (product_ids_of dto) o w.db d' =
      order_transaction-Committed env dto user (product_ids_of dto) o w.db d' (ground arith) in
    let same : w'.db ≡ d' = ground arith in
    record {
      committed = ground arith;
      owner = ground (arith, c.result);
      status = ground (arith, c.result);
      unpaid = ground (arith, c.result);
      stored = rw same (transaction_stores env dto user o w.db d' c o.id).0;
      taken = λ k. rw same (transaction_stores env dto user o w.db d' c k).1;
      sent = ground arith;
      announced = ground arith;
    }

creation_error_fails :
    (user_id : RowId) (key : Option RowId) (e : Error) (o : Order) (w w' : World)
    → truthy key ≡ none
    → creation_error user_id key e w ≡ (ok o, w')
    → ⊥
unfolding creation_error handle_creation_error
creation_error_fails user_id key e o w w' t h = ground arith

create_new_order-Placed :
    (env : Env) (dto : CreateOrder) (user : User) (o : Order) (w w' : World)
    → truthy dto.idempotency_key ≡ none
    → create_new_order env user dto w ≡ (ok o, w')
    → Placed env dto user o (env.others w.db) w w'
unfolding create_new_order
create_new_order-Placed env dto user o w w' t h =
    by_try (place_order env dto user (product_ids_of dto) waited) refl
  where
    waited : World
    waited = record w { db = env.others w.db }

    by_try :
        (r : Result Order × World)
        → place_order env dto user (product_ids_of dto) waited ≡ r
        → Placed env dto user o (env.others w.db) w w'
    by_try (ok p, w1) e =
        let p_same : p ≡ o = ground arith in
        let w_same : w1 ≡ w' = ground arith in
        let placed : place_order env dto user (product_ids_of dto) waited ≡ (ok o, w') =
          ground arith in
        let q = place_order-Placed env dto user o waited w' placed in
        record {
          committed = q.committed;
          owner = q.owner;
          status = q.status;
          unpaid = q.unpaid;
          stored = q.stored;
          taken = q.taken;
          sent = q.sent;
          announced = q.announced;
        }
    by_try (err x, w1) e =
        absurd (creation_error_fails user.id dto.idempotency_key x o w1 w' t (ground arith))

-- A call without an idempotency key that succeeds has placed one order of the user that it names:
-- pending, unpaid and stored; every product has lost what the items ask of it in all, from what it
-- had when the transaction began; one message for the order is queued and one event is emitted.
pub create_order-Placed :
    (env : Env) (user_id : RowId) (dto : CreateOrder) (o : Order) (w w' : World)
    → truthy dto.idempotency_key ≡ none
    → create_order env user_id dto w ≡ (ok o, w')
    → (user : User) × (find user_id w.db.users ≡ some user)
      × Placed env dto user o (env.others w.db) w w'
unfolding create_order validate_user check_idempotency
create_order-Placed env user_id dto o w w' t h = elim (Option-cases (find user_id w.db.users)) [
  | inl e ↦ absurd (ground arith)
  | inr (user, e) ↦ (user, e, create_new_order-Placed env dto user o w w' t (ground arith))
]

-- A failure of the transaction writes nothing to the database.
place_order_error :
    (env : Env) (dto : CreateOrder) (user : User) (ids : List RowId) (e : Error) (w w' : World)
    → env.channel_open ≡ true
    → place_order env dto user ids w ≡ (err e, w')
    → w' ≡ w
unfolding place_order publish_order_processing
place_order_error env dto user ids e w w' opened h = ground arith

creation_error_same :
    (user_id : RowId) (key : Option RowId) (e : Error) (w : World)
    → let w' = (creation_error user_id key e w).1 in
      (w'.db ≡ w.db) × (w'.queue ≡ w.queue) × (w'.events ≡ w.events)
unfolding creation_error handle_creation_error
creation_error_same user_id key e w = ground arith

create_new_order_error :
    (env : Env) (user : User) (dto : CreateOrder) (e : Error) (w w' : World)
    → env.channel_open ≡ true
    → create_new_order env user dto w ≡ (err e, w')
    → ((w'.db ≡ w.db) ⊎ (w'.db ≡ env.others w.db)) × (w'.queue ≡ w.queue) × (w'.events ≡ w.events)
unfolding create_new_order
create_new_order_error env user dto e w w' opened h =
    by_try (place_order env dto user (product_ids_of dto) waited) refl
  where
    waited : World
    waited = record w { db = env.others w.db }

    by_try :
        (r : Result Order × World)
        → place_order env dto user (product_ids_of dto) waited ≡ r
        → ((w'.db ≡ w.db) ⊎ (w'.db ≡ env.others w.db))
          × (w'.queue ≡ w.queue)
          × (w'.events ≡ w.events)
    by_try (ok p, w1) s = ground arith
    by_try (err x, w1) s = ground (
      arith,
      place_order_error env dto user (product_ids_of dto) x waited w1 opened s,
      creation_error_same user.id dto.idempotency_key x w1,
    )

-- While the channel to the broker is open, a call that fails leaves the database as the other
-- transactions made it, queues no message and emits no event.
pub create_order_error :
    (env : Env) (user_id : RowId) (dto : CreateOrder) (e : Error) (w w' : World)
    → env.channel_open ≡ true
    → create_order env user_id dto w ≡ (err e, w')
    → ((w'.db ≡ w.db) ⊎ (w'.db ≡ env.others w.db)) × (w'.queue ≡ w.queue) × (w'.events ≡ w.events)
unfolding create_order validate_user check_idempotency
create_order_error env user_id dto e w w' opened h = elim (Option-cases (find user_id w.db.users)) [
  | inl unknown ↦ ground arith
  | inr (user, known) ↦ ground (arith, create_new_order_error env user dto e w w' opened)
]

-- While the channel is closed, a transaction that commits is followed by a failure: the caller gets
-- an error, the order and the stock that it took stay, and no message is queued for it.
pub create_new_order_unpublished :
    (env : Env) (user : User) (dto : CreateOrder) (o : Order) (w : World) (d : Db)
    → env.channel_open ≡ false
    → validate_exist (product_ids_of dto) w.db.products ≡ ok tt
    → order_transaction env dto user (product_ids_of dto) (env.others w.db) ≡ (ok o, d)
    → let (r, w') = create_new_order env user dto w in
      (r ≡ err internal) × (w'.db ≡ d) × (find o.id w'.db.orders ≡ some o) × (w'.queue ≡ w.queue)
unfolding create_new_order place_order publish_order_processing creation_error handle_creation_error
    map_timeout
create_new_order_unpublished env user dto o w d closed exist h = ground (
  arith,
  (transaction_stores env dto user o (env.others w.db) d
      (order_transaction-Committed env dto user (product_ids_of dto) o (env.others w.db) d h)
      o.id).0,
)
