-- ===== src/Orders/Command/Keys.antt =====
-- The order that an idempotency key stands for.
use rd_shop_backend.Base.{
  zero, suc, ◌≡◌, refl, ◌≢◌, true, false, Option, none, some, List, [], ◌∷◌, ◌++◌, arith, RowId,
  truthy, is_some, Option-cases, inl, inr,
}
use rd_shop_backend.Base.Table.{find, save}
use rd_shop_backend.Base.Outcome.{Result, ok, err, Error}
use rd_shop_backend.Orders.Model.{
  Product, Order, order_entity, CreateOrder, User, user_entity, OrderItem, Db, World,
  idempotent_hit,
}
use rd_shop_backend.Orders.Stock.{lock_validate_and_decrement}
use rd_shop_backend.Orders.Stock.Laws.{lock_validate_and_decrement-others}
use rd_shop_backend.Orders.Rules.{validate_order_items}
use rd_shop_backend.Orders.Command.{
  is_unique_violation, Env, draft, product_ids_of, shipping_of, order_items, find_by_key, key_taken,
  order_transaction, publish_order_processing, place_order, handle_creation_error, creation_error,
  create_new_order, create_order, check_idempotency, validate_user,
}

-- A new row whose key is not in the table is the one that the key finds.
find_by_key-save_new :
    (k : RowId) (o : Order) (orders : List Order)
    → o.idempotency_key ≡ some k
    → find o.id orders ≡ none
    → find_by_key k orders ≡ none
    → find_by_key k (save o orders) ≡ some o
unfolding find_by_key find save
find_by_key-save_new k o [] e fresh absent = ground arith
find_by_key-save_new k o (x ∷ orders) e fresh absent =
    ground (arith, find_by_key-save_new k o orders e)

-- Saving a row again, with its id and key, keeps it the one that the key finds.
find_by_key-save_again :
    (k : RowId) (o v : Order) (orders : List Order)
    → o.idempotency_key ≡ some k
    → v.idempotency_key ≡ some k
    → v.id ≡ o.id
    → find o.id orders ≡ none
    → find_by_key k orders ≡ none
    → find_by_key k (save v (save o orders)) ≡ some v
unfolding find_by_key find save
find_by_key-save_again k o v [] e g same fresh absent = ground arith
find_by_key-save_again k o v (x ∷ orders) e g same fresh absent =
    ground (arith, find_by_key-save_again k o v orders e g same)

abbrev pub row : Env → CreateOrder → User → Order
row env dto user =
    draft env.order_id dto.idempotency_key (shipping_of dto.shipping user.address) user.id

-- The parts of a transaction that commits.
pub record Committed (env : Env) (dto : CreateOrder) (user : User) (ids : List RowId) (o : Order)
    (d d' : Db) : Type 0 where
  pub product_map : List Product
  pub reserved : Db
  pub items : List OrderItem
  pub took : lock_validate_and_decrement dto.items ids d ≡ (ok product_map, reserved)
  pub unused : key_taken dto.idempotency_key reserved.orders ≡ false
  pub priced : order_items dto.items product_map ≡ ok items
  pub result : o ≡ record (row env dto user) { items = items }
  pub written : d' ≡ record reserved { orders = save o (save (row env dto user) reserved.orders) }

pub order_transaction-Committed :
    (env : Env) (dto : CreateOrder) (user : User) (ids : List RowId) (o : Order) (d d' : Db)
    → order_transaction env dto user ids d ≡ (ok o, d')
    → Committed env dto user ids o d d'
unfolding order_transaction
order_transaction-Committed env dto user ids o d d' h =
    by_lock (lock_validate_and_decrement dto.items ids d) refl
  where
    by_items :
        (m : List Product) (d1 : Db) (is : Result (List OrderItem))
        → lock_validate_and_decrement dto.items ids d ≡ (ok m, d1)
        → order_items dto.items m ≡ is
        → Committed env dto user ids o d d'
    by_items m d1 (err e) took priced = absurd (ground arith)
    by_items m d1 (ok is) took priced = record {
      product_map = m;
      reserved = d1;
      items = is;
      took = took;
      unused = ground arith;
      priced = priced;
      result = ground arith;
      written = ground arith;
    }

    by_lock :
        (r : Result (List Product) × Db)
        → lock_validate_and_decrement dto.items ids d ≡ r
        → Committed env dto user ids o d d'
    by_lock (err e, d1) took = absurd (ground arith)
    by_lock (ok m, d1) took = by_items m d1 (order_items dto.items m) took refl

key_taken-false :
    (k : RowId) (orders : List Order)
    → key_taken (some k) orders ≡ false
    → find_by_key k orders ≡ none
unfolding key_taken
key_taken-false k orders h = ground arith

order_transaction-find_by_key :
    (env : Env) (dto : CreateOrder) (user : User) (ids : List RowId) (k : RowId) (o : Order)
    (d d' : Db)
    → dto.idempotency_key ≡ some k
    → find env.order_id d.orders ≡ none
    → order_transaction env dto user ids d ≡ (ok o, d')
    → find_by_key k d'.orders ≡ some o
order_transaction-find_by_key env dto user ids k o d d' key fresh h =
    let c = order_transaction-Committed env dto user ids o d d' h in
    let same : c.reserved.orders ≡ d.orders =
      ground (arith, lock_validate_and_decrement-others dto.items ids d, c.took) in
    ground (
      arith,
      find_by_key-save_again k (row env dto user) o c.reserved.orders,
      key_taken-false k c.reserved.orders,
      c.unused,
      c.result,
      c.written,
    )

place_order-find_by_key :
    (env : Env) (dto : CreateOrder) (user : User) (ids : List RowId) (k : RowId) (o : Order)
    (w w' : World)
    → dto.idempotency_key ≡ some k
    → find env.order_id w.db.orders ≡ none
    → place_order env dto user ids w ≡ (ok o, w')
    → find_by_key k w'.db.orders ≡ some o
unfolding place_order publish_order_processing
place_order-find_by_key env dto user ids k o w w' key fresh h = ground (
  arith,
  order_transaction-find_by_key env dto user ids k o w.db
      (order_transaction env dto user ids w.db).1 key fresh,
)

creation_error-find_by_key :
    (user_id : RowId) (key : Option RowId) (k : RowId) (e : Error) (o : Order) (w w' : World)
    → truthy key ≡ some k
    → creation_error user_id key e w ≡ (ok o, w')
    → (find_by_key k w'.db.orders ≡ some o) × (o.user_id ≡ user_id) × (w' ≡ w)
unfolding creation_error handle_creation_error
creation_error-find_by_key user_id key k e o w w' t h = ground arith

truthy-some : (key : Option RowId) (k : RowId) → truthy key ≡ some k → key ≡ some k
truthy-some none k h = h
truthy-some (some zero) k h = cc
truthy-some (some (suc n)) k h = h

create_new_order-find_by_key :
    (env : Env) (user : User) (k : RowId) (dto : CreateOrder) (o : Order) (w w' : World)
    → truthy dto.idempotency_key ≡ some k
    → find env.order_id (env.others w.db).orders ≡ none
    → create_new_order env user dto w ≡ (ok o, w')
    → find_by_key k w'.db.orders ≡ some o
unfolding create_new_order
create_new_order-find_by_key env user k dto o w w' t fresh h =
    by_try (place_order env dto user (product_ids_of dto) waited) refl
  where
    waited : World
    waited = record w { db = env.others w.db }

    by_try :
        (r : Result Order × World)
        → place_order env dto user (product_ids_of dto) waited ≡ r
        → find_by_key k w'.db.orders ≡ some o
    by_try (ok p, w1) e = ground (
      arith,
      place_order-find_by_key env dto user (product_ids_of dto) k p waited w1,
      truthy-some dto.idempotency_key k t,
    )
    by_try (err x, w1) e =
        ground (arith, creation_error-find_by_key user.id dto.idempotency_key k x o w1 w' t)

-- Whichever way a call with an idempotency key succeeds, by its own order, by one that was there
-- before, or by one that another request committed while it ran, the order that it returns is the
-- one that the key stands for in the database. (The generator's id for a new order is unused.)
pub create_order-find_by_key :
    (env : Env) (user_id k : RowId) (dto : CreateOrder) (o : Order) (w w' : World)
    → truthy dto.idempotency_key ≡ some k
    → find env.order_id (env.others w.db).orders ≡ none
    → create_order env user_id dto w ≡ (ok o, w')
    → find_by_key k w'.db.orders ≡ some o
unfolding create_order validate_user check_idempotency
create_order-find_by_key env user_id k dto o w w' t fresh h =
    elim (Option-cases (find user_id w.db.users)) [
      | inl e ↦ absurd (ground arith)
      | inr (user, e) ↦ ground (arith, create_new_order-find_by_key env user k dto o w w' t fresh)
    ]

-- Sending a request with the same key, which is not empty, again, whatever items it asks for, gives the same order back and
-- writes nothing but a line of the audit log: if its items pass the validation of a request, the user
-- is still there, and the generator's id for the order of the first request was unused.
pub create_order_replay :
    (env again : Env) (user_id k : RowId) (dto dto' : CreateOrder) (o : Order) (w w' : World)
    → truthy dto.idempotency_key ≡ some k
    → truthy dto'.idempotency_key ≡ some k
    → validate_order_items dto'.items ≡ ok tt
    → find env.order_id (env.others w.db).orders ≡ none
    → is_some (find user_id w'.db.users) ≡ true
    → create_order env user_id dto w ≡ (ok o, w')
    → create_order again user_id dto' w'
      ≡ (ok o, record w' { audit = w'.audit ++ idempotent_hit user_id o.id ∷ [] })
unfolding create_order validate_user check_idempotency
create_order_replay env again user_id k dto dto' o w w' t t' valid fresh known h =
    let stored = create_order-find_by_key env user_id k dto o w w' t fresh h in ground arith

-- The fast path does not look at the owner: a key that another user's order has gives that order.
create_order_returns_foreign :
    (env : Env) (user_id k : RowId) (dto : CreateOrder) (user : User) (o : Order) (w : World)
    → find user_id w.db.users ≡ some user
    → validate_order_items dto.items ≡ ok tt
    → truthy dto.idempotency_key ≡ some k
    → find_by_key k w.db.orders ≡ some o
    → o.user_id ≢ user_id
    → (create_order env user_id dto w).0 ≡ ok o
unfolding create_order validate_user check_idempotency
create_order_returns_foreign env user_id k dto user o w known valid t stored foreign = ground arith

-- The path after a unique violation does: it returns an order of the caller, the one of the key, and
-- changes nothing; an order of somebody else is not returned.
pub creation_error-owner :
    (user_id : RowId) (key : Option RowId) (e : Error) (o : Order) (w w' : World)
    → creation_error user_id key e w ≡ (ok o, w')
    → (is_unique_violation e ≡ true)
      × (o.user_id ≡ user_id)
      × (w' ≡ w)
      × (k : RowId) × (truthy key ≡ some k)
      × (find_by_key k w.db.orders ≡ some o)
unfolding creation_error handle_creation_error
creation_error-owner user_id key e o w w' h = elim (Option-cases (truthy key)) [
  | inl none_given ↦ absurd (ground arith)
  | inr (k, given) ↦ (ground arith, ground arith, ground arith, k, given, ground arith)
]
