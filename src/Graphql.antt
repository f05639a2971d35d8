-- ===== src/Graphql.antt =====
-- The GraphQL side of orders (apps/shop/src/graphql): the batch functions of the loaders, which the
-- DataLoader library calls with the keys of one tick, and the resolvers of fields.
pub mod Loaders
mod Tests
use rd_shop_backend.Base.{
  Bool, true, false, ◌&&◌, Option, none, some, List, [], ◌∷◌, ◌++◌, map, ◌==◌, if◌then◌else◌, RowId,
  contains, Text,
}
use rd_shop_backend.Base.Table.{Entity, find_in}
use rd_shop_backend.Base.Outcome.{Result, ok, err}
use rd_shop_backend.Cursors.Keyset.{filter}
use rd_shop_backend.Orders.Model.{Order}
use rd_shop_backend.Orders.Queries.{Dated, FindOrders, QueryEnv, Listing, find_orders_with_filters}

-- A `Map`: setting a key again replaces its value.
unfoldable pub map_set : {V : Type 0} → RowId → V → List (RowId × V) → List (RowId × V)
map_set k v [] = (k, v) ∷ []
map_set k v ((n, w) ∷ m) = if n == k then (k, v) ∷ m else (n, w) ∷ map_set k v m

unfoldable pub map_get : {V : Type 0} → RowId → List (RowId × V) → Option V
map_get k [] = none
map_get k ((n, v) ∷ m) = if n == k then some v else map_get k m

-- `map.get(k) ?? []`
abbrev pub or_empty : {A : Type 0} → Option (List A) → List A
or_empty none = []
or_empty (some xs) = xs

module _ {A : Type 0} ⦃e : Entity A⦄ where
  -- `new Map(rows.map((row) => [row.id, row]))`, on a map that is there
  unfoldable pub map_by_id : List (RowId × A) → List A → List (RowId × A)
  unfolding map_set
  map_by_id m [] = m
  map_by_id m (x ∷ xs) = map_by_id (map_set (e.id_of x) x m) xs

  -- The batch functions of `OrderLoader.byId`, `ProductLoader.byId` and `UserLoader.byId`
  unfoldable pub batch_by_id : List A → List RowId → List (Option A)
  unfolding map_by_id map_get
  batch_by_id table ids =
      let rows = map_by_id [] (find_in ids table) in map (λ id. map_get id rows) ids

  module _ (key : A → RowId) where
    -- `where: { key: In(ids) }`
    unfoldable pub find_by_keys : List RowId → List A → List A
    find_by_keys ids = filter (λ x. e.is_live x && contains (key x) ids)

    -- `rows.forEach((row) => map.set(key, [...existing, row]))`
    unfoldable pub group_by_key : List (RowId × List A) → List A → List (RowId × List A)
    unfolding map_set map_get
    group_by_key m [] = m
    group_by_key m (x ∷ xs) =
        group_by_key (map_set (key x) (or_empty (map_get (key x) m) ++ x ∷ []) m) xs

    -- The batch functions of `OrderItemLoader.byOrderId`, `OrderItemLoader.byProductId` and
    -- `OrderLoader.byUserId`
    unfoldable pub batch_by_key : List A → List RowId → List (List A)
    unfolding find_by_keys group_by_key map_get
    batch_by_key table ids =
        let groups = group_by_key [] (find_by_keys ids table) in
        map (λ id. or_empty (map_get id groups)) ids

-- A row of the items of orders, with the relations that were loaded with it
pub record ItemRow : Type 0 where
  pub id : RowId
  pub order_id : RowId
  pub product_id : RowId

instance abbrev pub item_row_entity : Entity ItemRow
item_row_entity = record { id_of = λ i. i.id; is_live = λ i. true }

-- The codes of `GraphQLError`
pub data GraphqlCode : Type 0 where
  code_order_not_found code_product_not_found code_user_not_found : GraphqlCode

pub data FieldAnswer (A : Type 0) : Type 0 where
  resolved : A → FieldAnswer A
  graphql_error : GraphqlCode → RowId → FieldAnswer A

-- A relation that is loaded with its parent, or the answer of a loader
unfoldable pub resolve_relation :
    {A : Type 0} → GraphqlCode → RowId → Option A → Option A → FieldAnswer A
resolve_relation code id (some parent) loaded = resolved parent
resolve_relation code id none (some row) = resolved row
resolve_relation code id none none = graphql_error code id

-- `OrdersResolver.items`: the loader's answer where the relation is not there
unfoldable pub resolve_items : {A : Type 0} → Option (List A) → List A → List A
resolve_items none loaded = loaded
resolve_items (some items) loaded = items

-- `OrdersConnection`
pub record OrdersConnection : Type 0 where
  pub nodes : List Order
  pub has_next_page : Bool
  pub next_cursor : Option Text

-- `Boolean(nextCursor)`
abbrev pub is_given : Option Text → Bool
is_given none = false
is_given (some []) = false
is_given (some (c ∷ t)) = true

-- `OrdersResolver.getOrders`
unfoldable pub get_orders : QueryEnv → RowId → FindOrders → List Dated → Result OrdersConnection
unfolding find_orders_with_filters
get_orders env user_id filters rows = elim (find_orders_with_filters env user_id filters rows) [
  | err e ↦ err e
  | ok listing ↦ ok (record {
    nodes = listing.orders;
    has_next_page = is_given listing.next_cursor;
    next_cursor = listing.next_cursor;
  })
]
