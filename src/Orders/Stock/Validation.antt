-- ===== src/Orders/Stock/Validation.antt =====
-- What the checks of `validateStockAndAvailability` give: the decrement that follows them is defined,
-- and covered where no product is listed twice.
use rd_shop_backend.Base.{
  ◌≡◌, refl, true, false, some, List, [], ◌∷◌, map, arith, RowId, contains, is_some, Option-cases,
  ==_iff, inl, inr,
}
use rd_shop_backend.Base.Int.{ℤ, pos, ◌-ℤ◌, ◌≤ℤ◌, add_zero, zero_add}
use rd_shop_backend.Base.Table.{find, save}
use rd_shop_backend.Base.Outcome.{ok}
use rd_shop_backend.Orders.Model.{Product, product_entity, StockItem}
use rd_shop_backend.Orders.Stock.{validate_stock_and_availability, decrement_stock, take_stock}
use rd_shop_backend.Orders.Stock.Demand.{demand, find-save_stock}

-- The ids that the items name.
abbrev pub ids_of : List StockItem → List RowId
ids_of = map (λ i. i.product_id)

-- No product is listed twice, as in the items of a cart.
abbrev pub HasDistinctProducts : List StockItem → Type 0
HasDistinctProducts [] = Unit
HasDistinctProducts (i ∷ items) =
    (contains i.product_id (ids_of items) ≡ false) × HasDistinctProducts items

-- Every item names a product of the map.
abbrev AllFound : List StockItem → List Product → Type 0
AllFound [] m = Unit
AllFound (i ∷ items) m = (is_some (find i.product_id m) ≡ true) × AllFound items m

AllFound-save :
    (items : List StockItem) (j : RowId) (n : ℤ) (p : Product) (m : List Product)
    → find j m ≡ some p
    → AllFound items m
    → AllFound items (save (record p { stock = n }) m)
AllFound-save [] j n p m h f = tt
AllFound-save (i ∷ items) j n p m h f =
    (ground (arith, find-save_stock i.product_id j n p m h, f.0), AllFound-save items j n p m h f.1)

validate-AllFound :
    (items : List StockItem) (m : List Product)
    → validate_stock_and_availability items m ≡ ok tt
    → AllFound items m
unfolding validate_stock_and_availability
validate-AllFound [] m h = tt
validate-AllFound (i ∷ items) m h = (ground arith, validate-AllFound items m (ground arith))

decrement_stock_total :
    (items : List StockItem) (m : List Product)
    → AllFound items m
    → (m' : List Product) × (decrement_stock items m ≡ ok m')
unfolding decrement_stock
decrement_stock_total [] m f = (m, refl)
decrement_stock_total (i ∷ items) m f = elim (Option-cases (find i.product_id m)) [
  | inl e ↦ absurd (ground (arith, f.0))
  | inr (p, e) ↦
      let n = p.stock -ℤ i.quantity in
      rw (e, decrement_stock)
        (decrement_stock_total items (save (record p { stock = n }) m)
          (AllFound-save items i.product_id n p m e f.1))
]

-- After the checks the decrement meets every product: `productMap.get(id)!` is never undefined.
pub take_stock_of_validate :
    (items : List StockItem) (m : List Product)
    → validate_stock_and_availability items m ≡ ok tt
    → (m' : List Product) × (take_stock items m ≡ ok m')
unfolding take_stock
take_stock_of_validate items m h =
    let (m', e) = decrement_stock_total items m (validate-AllFound items m h) in (m', ground arith)

pub demand_of_absent :
    (k : RowId) (items : List StockItem)
    → contains k (ids_of items) ≡ false
    → demand k items ≡ pos 0
unfolding demand
demand_of_absent k [] h = refl
demand_of_absent k (i ∷ items) h = ground (arith, demand_of_absent k items, add_zero (pos 0))

-- Where no product is listed twice, the checks cover the whole demand.
pub demand-le_stock :
    (k : RowId) (items : List StockItem) (m : List Product) (p : Product)
    → validate_stock_and_availability items m ≡ ok tt
    → HasDistinctProducts items
    → find k m ≡ some p
    → pos 0 ≤ℤ p.stock
    → demand k items ≤ℤ p.stock
unfolding demand validate_stock_and_availability
demand-le_stock k [] m p h d e s = s
demand-le_stock k (i ∷ items) m p h d e s = ground (
  arith,
  demand_of_absent k items,
  demand-le_stock k items m p,
  add_zero i.quantity,
  zero_add (demand k items),
  (==_iff i.product_id k).0,
)
