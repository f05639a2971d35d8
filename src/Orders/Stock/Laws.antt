-- ===== src/Orders/Stock/Laws.antt =====
-- What the two locked operations of OrderStockService do to the stock of every product.
use rd_shop_backend.Base.{
  ◌≡◌, refl, ◌⊎◌, inl, inr, true, Option, none, some, List, [], ◌∷◌, arith, RowId, dedup,
  contains-dedup, Option-cases,
}
use rd_shop_backend.Base.Int.{ℤ, pos, ◌+ℤ◌, ◌-ℤ◌, ◌≤ℤ◌, int_laws, sub_add_self, add_zero}
use rd_shop_backend.Base.Table.{
  find, save_all, find_in, find-find_in, find_in-AllLive, find-save_all,
}
use rd_shop_backend.Base.Outcome.{Error, Result, ok, err, http, not_found, conflict}
use rd_shop_backend.Orders.Model.{Product, product_entity, StockItem, Db}
use rd_shop_backend.Orders.Stock.{
  validate_stock_and_availability, decrement_stock, take_stock, restore_stock,
  lock_validate_and_decrement, lock_and_restore,
}
use rd_shop_backend.Orders.Stock.Demand.{
  demand, deduct, refill, deduct_zero, refill_zero, decrement_stock-find, decrement_stock-AllLive,
  restore_stock-find, restore_stock-AllLive,
}
use rd_shop_backend.Orders.Stock.Validation.{
  ids_of, HasDistinctProducts, take_stock_of_validate, demand_of_absent, demand-le_stock,
}

-- The ids that both callers lock: `[...new Set(items.map((item) => item.productId))]`.
abbrev pub locked_ids : List StockItem → List RowId
locked_ids items = dedup (ids_of items)

take_stock-find :
    (k : RowId) (items : List StockItem) (products m : List Product)
    → take_stock items (find_in (locked_ids items) products) ≡ ok m
    → find k (save_all m products) ≡ deduct (demand k items) (find k products)
unfolding take_stock
take_stock-find k items products m h =
    let locked = find_in (locked_ids items) products in
    let done : decrement_stock items locked ≡ ok m = ground arith in
    ground (
      arith,
      find-save_all k m products (
          decrement_stock-AllLive items locked m done
            (find_in-AllLive (locked_ids items) products)),
      decrement_stock-find k items locked m,
      find-find_in k (locked_ids items) products,
      contains-dedup k (ids_of items),
      demand_of_absent k items,
      deduct_zero (find k products),
    )

-- A reservation that succeeds takes from every product exactly what the items ask of it in all, where a
-- product that is not asked for is asked for nothing, and no other table of the database changes. A
-- product is found by its id if it is not removed.
pub lock_validate_and_decrement-demand :
    (items : List StockItem) (d d' : Db) (m : List Product)
    → lock_validate_and_decrement items (locked_ids items) d ≡ (ok m, d')
    → (k : RowId)
    → (find k d'.products ≡ deduct (demand k items) (find k d.products))
      × (d' ≡ record d { products = d'.products })
unfolding lock_validate_and_decrement
lock_validate_and_decrement-demand items d d' m h k =
    ground (arith, take_stock-find k items d.products m)

validate_error :
    (items : List StockItem) (m : List Product) (e : Error)
    → validate_stock_and_availability items m ≡ err e
    → (e ≡ http not_found) ⊎ (e ≡ http conflict)
unfolding validate_stock_and_availability
validate_error [] m e h = cc
validate_error (i ∷ items) m e h = ground (arith, validate_error items m e)

take_stock_error :
    (items : List StockItem) (m : List Product) (e : Error)
    → take_stock items m ≡ err e
    → validate_stock_and_availability items m ≡ err e
unfolding take_stock
take_stock_error items m e h = by_checks (validate_stock_and_availability items m) refl
  where
    by_checks :
        (r : Result (Unit {0}))
        → validate_stock_and_availability items m ≡ r
        → validate_stock_and_availability items m ≡ err e
    by_checks (ok u) v = let (m', t) = take_stock_of_validate items m v in absurd (ground arith)
    by_checks (err x) v = ground arith

-- A reservation that fails writes nothing, and fails with 404 or 409, never by reading a product that
-- is not in the map.
pub lock_validate_and_decrement_error :
    (items : List StockItem) (ids : List RowId) (d d' : Db) (e : Error)
    → lock_validate_and_decrement items ids d ≡ (err e, d')
    → (d' ≡ d) × ((e ≡ http not_found) ⊎ (e ≡ http conflict))
unfolding lock_validate_and_decrement
lock_validate_and_decrement_error items ids d d' e h =
    let m = find_in ids d.products in
    ground (arith, take_stock_error items m e, validate_error items m e)

-- What a cancellation gives back to each product is what the items ask of it in all; a product that
-- is gone is skipped.
pub lock_and_restore-demand :
    (items : List StockItem) (d : Db) (k : RowId)
    → find k (lock_and_restore items (locked_ids items) d).1.products
      ≡ refill (demand k items) (find k d.products)
unfolding lock_and_restore
lock_and_restore-demand items d k =
    let locked = find_in (locked_ids items) d.products in
    ground (
      arith,
      find-save_all k (restore_stock items locked) d.products
          (restore_stock-AllLive items locked (find_in-AllLive (locked_ids items) d.products)),
      restore_stock-find k items locked,
      find-find_in k (locked_ids items) d.products,
      contains-dedup k (ids_of items),
      demand_of_absent k items,
      refill_zero (find k d.products),
    )

refill-deduct : (n : ℤ) (o : Option Product) → refill n (deduct n o) ≡ o
refill-deduct n none = refl
refill-deduct n (some p) = ground (arith, sub_add_self p.stock n)

-- What is given back after a reservation of the same items leaves every product as it was.
pub restore-decrement :
    (items : List StockItem) (d d' : Db) (m : List Product)
    → lock_validate_and_decrement items (locked_ids items) d ≡ (ok m, d')
    → (k : RowId)
    → find k (lock_and_restore items (locked_ids items) d').1.products ≡ find k d.products
restore-decrement items d d' m h k =
    rw (lock_and_restore-demand items d' k, (lock_validate_and_decrement-demand items d d' m h k).0)
      (refill-deduct (demand k items) (find k d.products))

-- No product has a stock below zero.
abbrev pub IsStocked : List Product → Type 0
IsStocked products = (k : RowId) (p : Product) → find k products ≡ some p → pos 0 ≤ℤ p.stock

take_stock-covers :
    (k : RowId) (items : List StockItem) (d : Db) (m : List Product) (p : Product)
    → HasDistinctProducts items
    → take_stock items (find_in (locked_ids items) d.products) ≡ ok m
    → find k d.products ≡ some p
    → pos 0 ≤ℤ p.stock
    → demand k items ≤ℤ p.stock
unfolding take_stock
take_stock-covers k items d m p distinct h found s =
    let locked = find_in (locked_ids items) d.products in
    let valid : validate_stock_and_availability items locked ≡ ok tt = ground arith in
    ground (
      arith,
      demand-le_stock k items locked p valid distinct,
      find-find_in k (locked_ids items) d.products,
      contains-dedup k (ids_of items),
      demand_of_absent k items,
    )

-- Where no product is listed twice, a reservation keeps every stock at zero or more.
pub lock_validate_and_decrement-IsStocked :
    (items : List StockItem) (d d' : Db) (m : List Product)
    → HasDistinctProducts items
    → IsStocked d.products
    → lock_validate_and_decrement items (locked_ids items) d ≡ (ok m, d')
    → IsStocked d'.products
unfolding lock_validate_and_decrement
lock_validate_and_decrement-IsStocked items d d' m distinct stocked h k p found =
    elim (Option-cases (find k d.products)) [
      | inl e ↦ absurd (ground (arith, lock_validate_and_decrement-demand items d d' m h k))
      | inr (q, e) ↦
          let covered : demand k items ≤ℤ q.stock =
            take_stock-covers k items d m q distinct (ground arith) e (stocked k q e) in
          let left : pos 0 ≤ℤ q.stock -ℤ demand k items = omega int_laws in
          ground (arith, lock_validate_and_decrement-demand items d d' m h k, left)
    ]

abbrev pub twice : RowId → ℤ → ℤ → List StockItem
twice k a b = record { product_id = k; quantity = a } ∷ record { product_id = k; quantity = b } ∷ []

demand-twice : (k : RowId) (a b : ℤ) → demand k (twice k a b) ≡ a +ℤ b
unfolding demand
demand-twice k a b = ground (arith, add_zero b)

-- Two lines for one active product, each within the stock but not both together, are accepted, and
-- the stock falls below zero.
lock_validate_and_decrement_oversells :
    (k : RowId) (a b : ℤ) (d : Db) (p : Product)
    → find k d.products ≡ some p
    → p.is_active ≡ true
    → a ≤ℤ p.stock
    → b ≤ℤ p.stock
    → p.stock +ℤ pos 1 ≤ℤ a +ℤ b
    → (m : List Product) × (d' : Db) × (lock_validate_and_decrement
          (twice k a b)
          (locked_ids (twice k a b))
          d
        ≡ (ok m, d'))
      × (q : Product) × (find k d'.products ≡ some q)
      × (q.stock +ℤ pos 1 ≤ℤ pos 0)
unfolding lock_validate_and_decrement validate_stock_and_availability
lock_validate_and_decrement_oversells k a b d p found active fits_a fits_b over =
    let items = twice k a b in
    let locked = find_in (locked_ids items) d.products in
    let known : find k locked ≡ some p =
      ground
        (arith, find-find_in k (locked_ids items) d.products, contains-dedup k (ids_of items)) in
    let (m, e) = take_stock_of_validate items locked (ground arith) in
    let d' : Db = record d { products = save_all m d.products } in
    let done : lock_validate_and_decrement items (locked_ids items) d ≡ (ok m, d') = ground arith in
    (
      m,
      d',
      done,
      record p { stock = p.stock -ℤ demand k items },
      ground (arith, (lock_validate_and_decrement-demand items d d' m done k).0),
      rw (demand-twice k a b) (omega int_laws),
    )

-- Only the table of products changes.
pub lock_validate_and_decrement-others :
    (items : List StockItem) (ids : List RowId) (d : Db)
    → let d' = (lock_validate_and_decrement items ids d).1 in
      d' ≡ record d { products = d'.products }
unfolding lock_validate_and_decrement
lock_validate_and_decrement-others items ids d = ground arith

pub lock_and_restore-others :
    (items : List StockItem) (ids : List RowId) (d : Db)
    → let d' = (lock_and_restore items ids d).1 in d' ≡ record d { products = d'.products }
unfolding lock_and_restore
lock_and_restore-others items ids d = refl
