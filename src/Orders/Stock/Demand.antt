-- ===== src/Orders/Stock/Demand.antt =====
-- What a list of items asks for, product by product, and how the in-memory loops of
-- OrderStockService change one product.
use rd_shop_backend.Base.{
  ◌≡◌, refl, Option, none, some, List, [], ◌∷◌, arith, ◌==◌, if◌then◌else◌, RowId, Option-cases,
  inl, inr,
}
use rd_shop_backend.Base.Int.{ℤ, pos, ◌+ℤ◌, ◌-ℤ◌, sub_sub, sub_zero, add_zero, zero_add, +ℤ_assoc}
use rd_shop_backend.Base.Table.{find, save, find_fields, find-save, AllLive, save-AllLive}
use rd_shop_backend.Base.Outcome.{ok}
use rd_shop_backend.Orders.Model.{Product, product_entity, StockItem}
use rd_shop_backend.Orders.Stock.{decrement_stock, restore_stock}

-- The quantity that the items ask of one product, over all its lines.
unfoldable pub demand : RowId → List StockItem → ℤ
demand k [] = pos 0
demand k (i ∷ items) = (if i.product_id == k then i.quantity else pos 0) +ℤ demand k items

abbrev pub deduct : ℤ → Option Product → Option Product
deduct n none = none
deduct n (some p) = some (record p { stock = p.stock -ℤ n })

abbrev pub refill : ℤ → Option Product → Option Product
refill n none = none
refill n (some p) = some (record p { stock = p.stock +ℤ n })

pub deduct_zero : (o : Option Product) → deduct (pos 0) o ≡ o
deduct_zero none = refl
deduct_zero (some p) = ground (arith, sub_zero p.stock)

pub refill_zero : (o : Option Product) → refill (pos 0) o ≡ o
refill_zero none = refl
refill_zero (some p) = ground (arith, add_zero p.stock)

-- A product that is found may be saved with another stock, and is read back.
pub find-save_stock :
    (k j : RowId) (n : ℤ) (p : Product) (m : List Product)
    → find j m ≡ some p
    → find k (save (record p { stock = n }) m)
      ≡ (if j == k then some (record p { stock = n }) else find k m)
find-save_stock k j n p m h =
    let (same, live) = find_fields j p m h in
    ground (arith, find-save k (record p { stock = n }) m live)

-- The loop of `decrementStock` takes the whole demand from each product.
pub decrement_stock-find :
    (k : RowId) (items : List StockItem) (m m' : List Product)
    → decrement_stock items m ≡ ok m'
    → find k m' ≡ deduct (demand k items) (find k m)
unfolding decrement_stock demand
decrement_stock-find k [] m m' h = ground (arith, deduct_zero (find k m))
decrement_stock-find k (i ∷ items) m m' h = elim (Option-cases (find i.product_id m)) [
  | inl e ↦ ground arith
  | inr (p, e) ↦
      let n = p.stock -ℤ i.quantity in
      ground (
        arith,
        decrement_stock-find k items (save (record p { stock = n }) m) m',
        find-save_stock k i.product_id n p m e,
        sub_sub p.stock i.quantity (demand k items),
        zero_add (demand k items),
      )
]

-- The loop of `restoreStock` gives the whole demand back to each product.
pub restore_stock-find :
    (k : RowId) (items : List StockItem) (m : List Product)
    → find k (restore_stock items m) ≡ refill (demand k items) (find k m)
unfolding restore_stock demand
restore_stock-find k [] m = ground (arith, refill_zero (find k m))
restore_stock-find k (i ∷ items) m = elim (Option-cases (find i.product_id m)) [
  | inl e ↦ ground (arith, restore_stock-find k items m, zero_add (demand k items))
  | inr (p, e) ↦
      let n = p.stock +ℤ i.quantity in
      ground (
        arith,
        restore_stock-find k items (save (record p { stock = n }) m),
        find-save_stock k i.product_id n p m e,
        +ℤ_assoc p.stock i.quantity (demand k items),
        zero_add (demand k items),
      )
]

save_stock-AllLive :
    (j : RowId) (n : ℤ) (p : Product) (m : List Product)
    → find j m ≡ some p
    → AllLive m
    → AllLive (save (record p { stock = n }) m)
save_stock-AllLive j n p m h l = save-AllLive (record p { stock = n }) m (find_fields j p m h).1 l

pub decrement_stock-AllLive :
    (items : List StockItem) (m m' : List Product)
    → decrement_stock items m ≡ ok m'
    → AllLive m
    → AllLive m'
unfolding decrement_stock
decrement_stock-AllLive [] m m' h l = ground arith
decrement_stock-AllLive (i ∷ items) m m' h l = elim (Option-cases (find i.product_id m)) [
  | inl e ↦ absurd (ground arith)
  | inr (p, e) ↦
      let n = p.stock -ℤ i.quantity in
      decrement_stock-AllLive items (save (record p { stock = n }) m) m' (ground arith)
        (save_stock-AllLive i.product_id n p m e l)
]

pub restore_stock-AllLive :
    (items : List StockItem) (m : List Product) → AllLive m → AllLive (restore_stock items m)
unfolding restore_stock
restore_stock-AllLive [] m l = l
restore_stock-AllLive (i ∷ items) m l = elim (Option-cases (find i.product_id m)) [
  | inl e ↦ rw (e, restore_stock) (restore_stock-AllLive items m l)
  | inr (p, e) ↦
      let n = p.stock +ℤ i.quantity in
      rw (e, restore_stock)
        (restore_stock-AllLive items (save (record p { stock = n }) m)
          (save_stock-AllLive i.product_id n p m e l))
]
