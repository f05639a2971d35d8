-- ===== src/Cart/Model.antt =====
-- The rows of carts (cart/cart.entity.ts, cart/cart-item.entity.ts), the requests and the answer
-- (cart/dto), the state of the shop, and what a call meets.
use rd_shop_backend.Base.{true, Option, List, RowId}
use rd_shop_backend.Base.Int.{ℤ}
use rd_shop_backend.Base.Table.{Entity}
use rd_shop_backend.Orders.Model.{Product, Address, World}

pub record Cart : Type 0 where
  pub id : RowId
  pub user_id : RowId

pub record CartItem : Type 0 where
  pub id : RowId
  pub cart_id : RowId
  pub product_id : RowId
  pub quantity : ℤ

instance abbrev pub cart_item_entity : Entity CartItem
cart_item_entity = record { id_of = λ i. i.id; is_live = λ i. true }

pub record Shop : Type 0 where
  pub world : World
  pub carts : List Cart
  pub cart_items : List CartItem

-- `AddCartItemDto`
pub record AddCartItem : Type 0 where
  pub product_id : RowId
  pub quantity : ℤ

-- `CartCheckoutDto`
pub record CartCheckout : Type 0 where
  pub idempotency_key : Option RowId
  pub shipping : Option Address

-- A line with its product: none where the product is soft-deleted.
abbrev pub Line : Type 0
Line = CartItem × Option Product

-- A cart with the relations `items` and `items.product`
abbrev pub Loaded : Type 0
Loaded = Cart × List Line

-- `items` with their totals, and `total`, in cents
pub record CartResponse : Type 0 where
  pub cart : Cart
  pub items : List (CartItem × ℤ)
  pub total : ℤ

pub record CartEnv : Type 0 where
  pub cart_id : RowId
  pub item_id : RowId
  pub meanwhile : Shop → Shop
  pub others : Shop → Shop
