-- ===== src/Orders/Rules.antt =====
-- The checks of orders/utils/index.ts.
use rd_shop_backend.Base.{
  ℕ, ◌+◌, ◌*◌, Option, none, some, List, [], ◌∷◌, ◌==◌, if◌then◌else◌, RowId,
}
use rd_shop_backend.Base.Int.{ℤ, pos, negsuc, ◌+ℤ◌, ◌-ℤ◌, leb_ℤ, ltb_ℤ}
use rd_shop_backend.Base.Outcome.{Result, ok, err, http, bad_request, not_found}
use rd_shop_backend.Orders.Model.{Order, OrderItem, StockItem}

abbrev pub max_order_quantity : ℤ
max_order_quantity = pos 1000

unfoldable pub validate_order_items : List StockItem → Result (Unit {0})
validate_order_items [] = ok tt
validate_order_items (i ∷ items) =
    if leb_ℤ i.quantity (pos 0)
    then err (http bad_request)
    else if ltb_ℤ max_order_quantity i.quantity
    then err (http bad_request)
    else validate_order_items items

-- `order?.userId !== userId`
unfoldable pub assert_order_ownership : Option Order → RowId → Result Order
assert_order_ownership none user_id = err (http not_found)
assert_order_ownership (some o) user_id =
    if o.user_id == user_id then ok o else err (http not_found)

-- `Math.round(parseFloat(price) * quantity * 100)`, on a price in cents
unfoldable pub line_cents : ℕ → ℤ → ℤ
line_cents price (pos n) = pos (price * n)
line_cents price (negsuc n) = pos 0 -ℤ pos (price * (n + 1))

-- `getTotalSumInCents`: the `reduce` from the left
sum_cents : ℤ → List OrderItem → ℤ
unfolding line_cents
sum_cents sum [] = sum
sum_cents sum (i ∷ items) = sum_cents (sum +ℤ line_cents i.price_at_purchase i.quantity) items

unfoldable pub total_in_cents : Order → ℤ
unfolding sum_cents
total_in_cents o = sum_cents (pos 0) o.items
