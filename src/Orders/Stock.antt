-- ===== src/Orders/Stock.antt =====
-- OrderStockService (orders/services/order-stock.service.ts). The `Map` from ids to locked
-- products is the list of those rows: their ids are distinct, being primary keys.
pub mod Demand
pub mod Validation
pub mod Laws
use rd_shop_backend.Base.{
  ◌≡◌, Bool, not, Option, none, some, List, [], ◌∷◌, map, length, ◌==◌, if◌then◌else◌, RowId,
}
use rd_shop_backend.Base.Int.{ℤ, ◌+ℤ◌, ◌-ℤ◌, ltb_ℤ}
use rd_shop_backend.Base.Table.{find, save, save_all, find_in}
use rd_shop_backend.Base.Outcome.{
  Action, Result, ok, err, http, not_found, conflict, internal, gets, modify, lift, pure, throw_if,
  ◌>>=◌, ◌>>◌,
}
use rd_shop_backend.Orders.Model.{Product, product_entity, StockItem, Db}

unfoldable pub validate_stock_and_availability : List StockItem → List Product → Result (Unit {0})
validate_stock_and_availability [] product_map = ok tt
validate_stock_and_availability (i ∷ items) product_map =
    let rest = validate_stock_and_availability items product_map in
    elim (find i.product_id product_map) [
      | none ↦ err (http not_found)
      | some p ↦
          if not p.is_active
          then err (http conflict)
          else if ltb_ℤ p.stock i.quantity
          then err (http conflict)
          else rest
    ]

-- `product.stock -= quantity`; the read of a product that is not in the map is a TypeError
unfoldable pub decrement_stock : List StockItem → List Product → Result (List Product)
decrement_stock [] product_map = ok product_map
decrement_stock (i ∷ items) product_map = elim (find i.product_id product_map) [
  | none ↦ err internal
  | some p ↦ decrement_stock items (save (record p { stock = p.stock -ℤ i.quantity }) product_map)
]

-- `product.stock += quantity` where the product is in the map
unfoldable pub restore_stock : List StockItem → List Product → List Product
restore_stock [] product_map = product_map
restore_stock (i ∷ items) product_map = elim (find i.product_id product_map) [
  | none ↦ restore_stock items product_map
  | some p ↦ restore_stock items (save (record p { stock = p.stock +ℤ i.quantity }) product_map)
]

unfoldable pub validate_exist : List RowId → List Product → Result (Unit {0})
validate_exist product_ids products =
    if length (find_in product_ids products) == length product_ids
    then ok tt
    else err (http not_found)

-- Validates and decrements the locked rows.
unfoldable pub take_stock : List StockItem → List Product → Result (List Product)
take_stock items product_map = elim (validate_stock_and_availability items product_map) [
  | err e ↦ err e
  | ok _ ↦ decrement_stock items product_map
]

unfoldable pub lock_validate_and_decrement : List StockItem → List RowId → Action Db (List Product)
lock_validate_and_decrement items product_ids = do
  products ← gets (λ d. find_in product_ids d.products)
  product_map ← lift (take_stock items products)
  modify (λ d. record d { products = save_all product_map d.products })
  pure product_map

unfoldable pub lock_and_restore : List StockItem → List RowId → Action Db (Unit {0})
lock_and_restore items product_ids = do
  products ← gets (λ d. find_in product_ids d.products)
  modify (λ d. record d { products = save_all (restore_stock items products) d.products })
