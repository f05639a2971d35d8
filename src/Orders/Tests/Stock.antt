-- ===== src/Orders/Tests/Stock.antt =====
-- The theorems on stock at concrete inputs.
use rd_shop_backend.Base.{◌≡◌, refl, true, false, List, [], ◌∷◌, arith}
use rd_shop_backend.Base.Int.{pos}
use rd_shop_backend.Base.Table.{find}
use rd_shop_backend.Base.Outcome.{ok, err, http, not_found}
use rd_shop_backend.Orders.Model.{Product, product_entity, user_entity, order_entity, Db}
use rd_shop_backend.Orders.Stock.{lock_validate_and_decrement}
use rd_shop_backend.Orders.Stock.Demand.{demand, deduct}
use rd_shop_backend.Orders.Stock.Laws.{
  locked_ids, IsStocked, twice, lock_validate_and_decrement-demand,
}
use rd_shop_backend.Orders.Tests.{code, basket, shop}

abbrev shelf_after : List Product
shelf_after =
    record { id = 1; price = 499; stock = pos 3; is_active = true; deleted = false }
    ∷ record { id = 2; price = 150; stock = pos 6; is_active = true; deleted = false }
    ∷ []

abbrev shop_after : Db
shop_after = record shop { products = shelf_after }

reserve : lock_validate_and_decrement basket (locked_ids basket) shop ≡ (ok shelf_after, shop_after)
unfolding code
reserve = refl

lock_validate_and_decrement-demand_example :
    (find 2 shop_after.products ≡ deduct (demand 2 basket) (find 2 shop.products))
    × (shop_after ≡ record shop { products = shop_after.products })
lock_validate_and_decrement-demand_example =
    lock_validate_and_decrement-demand basket shop shop_after shelf_after reserve 2

shop-IsStocked : IsStocked shop.products
unfolding find
shop-IsStocked k p found = ground arith

too_many :
    lock_validate_and_decrement
      (twice 9 (pos 1) (pos 1))
      (locked_ids (twice 9 (pos 1) (pos 1)))
      shop
    ≡ (err (http not_found), shop)
unfolding code
too_many = refl
