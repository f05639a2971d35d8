-- ===== src/Orders/Model.antt =====
-- The rows that the orders domain reads and writes (order.entity.ts, order-item.entity.ts,
-- product.entity.ts, processed-message.entity.ts), the request of create-order.dto.ts, and the
-- state around them: the database, the broker's queue, the emitted events and the audit log.
use rd_shop_backend.Base.{ℕ, Bool, true, not, Option, List, RowId}
use rd_shop_backend.Base.Int.{ℤ}
use rd_shop_backend.Base.Table.{Entity}
use rd_shop_backend.Base.Outcome.{Action}

pub data OrderStatus : Type 0 where
  cancelled created paid pending processed : OrderStatus

-- `price` is in cents: the column is numeric(12, 2). `deleted` says that `deletedAt` is set.
pub record Product : Type 0 where
  pub id : RowId
  pub price : ℕ
  pub stock : ℤ
  pub is_active : Bool
  pub deleted : Bool

pub record Address : Type 0 where
  pub city : Option RowId
  pub country : Option RowId
  pub first_name : Option RowId
  pub last_name : Option RowId
  pub phone : Option RowId
  pub postcode : Option RowId

pub record User : Type 0 where
  pub id : RowId
  pub email : RowId
  pub address : Address
  pub deleted : Bool

pub record OrderItem : Type 0 where
  pub product_id : RowId
  pub quantity : ℤ
  pub price_at_purchase : ℕ

pub record Order : Type 0 where
  pub id : RowId
  pub user_id : RowId
  pub status : OrderStatus
  pub idempotency_key : Option RowId
  pub payment_id : Option RowId
  pub shipping : Address
  pub items : List OrderItem

pub record ProcessedMessage : Type 0 where
  pub message_id : RowId
  pub idempotency_key : Option RowId
  pub order_id : RowId

instance abbrev pub product_entity : Entity Product
product_entity = record { id_of = λ p. p.id; is_live = λ p. not p.deleted }

instance abbrev pub user_entity : Entity User
user_entity = record { id_of = λ u. u.id; is_live = λ u. not u.deleted }

instance abbrev pub order_entity : Entity Order
order_entity = record { id_of = λ o. o.id; is_live = λ o. true }

-- create-order.dto.ts
pub record StockItem : Type 0 where
  pub product_id : RowId
  pub quantity : ℤ

pub record CreateOrder : Type 0 where
  pub idempotency_key : Option RowId
  pub items : List StockItem
  pub shipping : Option Address

-- order-process-message.dto.ts, less the constant and the time stamp of the producer
pub record ProcessMessage : Type 0 where
  pub message_id : RowId
  pub order_id : RowId
  pub correlation_id : Option RowId
  pub attempt : ℤ

pub record Db : Type 0 where
  pub users : List User
  pub products : List Product
  pub orders : List Order
  pub processed_messages : List ProcessedMessage

pub data Event : Type 0 where
  order_created order_cancelled order_paid : RowId → RowId → Event

pub data Audit : Type 0 where
  idempotent_hit creation_done cancellation payment_authorized payment_failed :
      RowId → RowId → Audit
  creation_failed : RowId → Audit

pub record World : Type 0 where
  pub db : Db
  pub queue : List ProcessMessage
  pub events : List Event
  pub audit : List Audit

-- An action on the database alone.
abbrev pub in_db : {A : Type 0} → Action Db A → Action World A
in_db m w = let (r, d) = m w.db in (r, record w { db = d })
