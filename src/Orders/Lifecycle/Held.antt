-- ===== src/Orders/Lifecycle/Held.antt =====
-- What the orders that are not cancelled hold of one product, and how each transaction changes it.
use rd_shop_backend.Base.{
  ◌≡◌, refl, sym, ◌≢◌, Option, none, some, List, [], ◌∷◌, arith, RowId, Option-cases, inl, inr,
  if◌then◌else◌,
}
use rd_shop_backend.Base.Int.{ℤ, pos, ◌+ℤ◌, int_laws, +ℤ_assoc, add_zero}
use rd_shop_backend.Base.Table.{find, save, find_fields, find-save}
use rd_shop_backend.Base.Outcome.{Result, ok, err}
use rd_shop_backend.Orders.Model.{
  cancelled, processed, paid, Product, product_entity, User, OrderItem, Order, order_entity,
  StockItem, CreateOrder, ProcessMessage, Db,
}
use rd_shop_backend.Orders.Stock.Demand.{demand}
use rd_shop_backend.Orders.Stock.{lock_and_restore}
use rd_shop_backend.Orders.Stock.Laws.{lock_validate_and_decrement-others}
use rd_shop_backend.Orders.Command.{
  Env, is_cancelled, product_ids_of, order_items, order_transaction, cancel_and_restore,
  stock_items,
}
use rd_shop_backend.Orders.Command.Keys.{row, order_transaction-Committed}
use rd_shop_backend.Orders.Command.Cancellation.{cancelled_row}
use rd_shop_backend.Orders.Processing.{
  WorkEnv, insert_processed, mark, mark_processed, claim, set_paid,
}

abbrev pub weight : RowId → Order → ℤ
weight k o = if is_cancelled o.status then pos 0 else demand k (stock_items o.items)

unfoldable pub held : RowId → List Order → ℤ
held k [] = pos 0
held k (o ∷ orders) = weight k o +ℤ held k orders

add_swap : (a b c : ℤ) → a +ℤ (b +ℤ c) ≡ a +ℤ b +ℤ c
add_swap a b c = omega int_laws

held-save_new :
    (k : RowId) (o : Order) (orders : List Order)
    → find o.id orders ≡ none
    → held k (save o orders) ≡ held k orders +ℤ weight k o
unfolding held save find
held-save_new k o [] h = omega int_laws
held-save_new k o (x ∷ orders) h =
    ground (arith, held-save_new k o orders, add_swap (weight k x) (held k orders) (weight k o))

exchange : (a b c : ℤ) → a +ℤ b +ℤ c ≡ c +ℤ b +ℤ a
exchange a b c = omega int_laws

carry : (a b c d e : ℤ) → b +ℤ c ≡ d +ℤ e → a +ℤ b +ℤ c ≡ a +ℤ d +ℤ e
carry a b c d e h = rw (+ℤ_assoc a b c, h) (sym (+ℤ_assoc a d e))

held-save_old :
    (k : RowId) (o old : Order) (orders : List Order)
    → find o.id orders ≡ some old
    → held k (save o orders) +ℤ weight k old ≡ held k orders +ℤ weight k o
unfolding held save find
held-save_old k o old [] h = cc
held-save_old k o old (x ∷ orders) h = ground (
  arith,
  held-save_old k o old orders,
  exchange (weight k o) (held k orders) (weight k x),
  carry (weight k x) (held k (save o orders)) (weight k old) (held k orders) (weight k o),
)

-- An order's items ask what the request asked.
demand-order_items :
    (k : RowId) (items : List StockItem) (m : List Product) (is : List OrderItem)
    → order_items items m ≡ ok is
    → demand k (stock_items is) ≡ demand k items
unfolding order_items demand
demand-order_items k [] m is h = ground arith
demand-order_items k (i ∷ items) m is h =
    by_rest (λ js r. demand-order_items k items m js r) (order_items items m) refl
  where
    by_rest :
        ((js : List OrderItem)
          → order_items items m ≡ ok js
          → demand k (stock_items js) ≡ demand k items)
        → (r : Result (List OrderItem)) → order_items items m ≡ r
        → demand k (stock_items is) ≡ demand k (i ∷ items)
    by_rest tail (err e) r = elim (Option-cases (find i.product_id m)) [
      | inl f ↦ absurd (ground arith)
      | inr (p, f) ↦ absurd (ground arith)
    ]
    by_rest tail (ok js) r = elim (Option-cases (find i.product_id m)) [
      | inl f ↦ absurd (ground arith)
      | inr (p, f) ↦ ground (arith, find_fields i.product_id p m f, tail js r)
    ]

pub held-order_transaction :
    (k : RowId) (env : Env) (dto : CreateOrder) (user : User) (o : Order) (d d' : Db)
    → find env.order_id d.orders ≡ none
    → order_transaction env dto user (product_ids_of dto) d ≡ (ok o, d')
    → held k d'.orders ≡ held k d.orders +ℤ demand k dto.items
unfolding demand
held-order_transaction k env dto user o d d' fresh h =
    let c = order_transaction-Committed env dto user (product_ids_of dto) o d d' h in
    let same : c.reserved.orders ≡ d.orders =
      ground (arith, lock_validate_and_decrement-others dto.items (product_ids_of dto) d, c.took) in
    let new = row env dto user in
    let first = held-save_new k new d.orders fresh in
    let second =
      held-save_old k o new (save new d.orders)
        (ground (arith, find-save new.id new d.orders refl, c.result)) in
    ground (
      arith,
      same,
      c.written,
      c.result,
      first,
      second,
      demand-order_items k dto.items c.product_map c.items c.priced,
      add_zero (held k d.orders),
      add_zero (held k (save o (save new d.orders))),
    )

pub held-cancel_and_restore :
    (k : RowId) (o : Order) (d : Db)
    → find o.id d.orders ≡ some o
    → o.status ≢ cancelled
    → held k (cancel_and_restore o d).1.orders +ℤ demand k (stock_items o.items) ≡ held k d.orders
unfolding cancel_and_restore lock_and_restore
held-cancel_and_restore k o d found open_before =
    ground (arith, held-save_old k (cancelled_row o) o d.orders found, add_zero (held k d.orders))

-- A change of a row that keeps its weight keeps what is held.
held-save_same :
    (k : RowId) (o old : Order) (orders : List Order)
    → find o.id orders ≡ some old
    → weight k o ≡ weight k old
    → held k (save o orders) ≡ held k orders
unfolding held save find
held-save_same k o old [] h same = cc
held-save_same k o old (x ∷ orders) h same = ground (arith, held-save_same k o old orders)

pub held-claim :
    (k : RowId) (env : WorkEnv) (msg : ProcessMessage) (r : Option Order) (d d' : Db)
    → claim env msg d ≡ (ok r, d')
    → (held k d'.orders ≡ held k d.orders) × (d'.products ≡ d.products)
unfolding claim mark_processed mark insert_processed
held-claim k env msg r d d' h = elim (Option-cases (find msg.order_id d.orders)) [
  | inl e ↦ ground arith
  | inr (old, e) ↦ ground (
    arith,
    find_fields msg.order_id old d.orders e,
    held-save_same k (record old { status = processed }) old d.orders,
  )
]

pub held-set_paid :
    (k order_id payment_id : RowId) (o : Order) (d d' : Db)
    → find order_id d.orders ≡ some o
    → o.status ≢ cancelled
    → set_paid order_id payment_id d ≡ (ok tt, d')
    → (held k d'.orders ≡ held k d.orders) × (d'.products ≡ d.products)
unfolding set_paid
held-set_paid k order_id payment_id o d d' found open_before h = ground (
  arith,
  find_fields order_id o d.orders found,
  held-save_same k (record o { payment_id = some payment_id; status = paid }) o d.orders,
)
