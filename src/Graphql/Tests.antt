-- ===== src/Graphql/Tests.antt =====
-- The theorems on the loaders at concrete inputs.
use rd_shop_backend.Base.{◌≡◌, List, [], ◌∷◌, RowId}
use rd_shop_backend.Cursors.Keyset.{filter}
use rd_shop_backend.Graphql.{ItemRow, item_row_entity, batch_by_key}
use rd_shop_backend.Graphql.Loaders.{batch_by_key-filter}

abbrev item : RowId → RowId → ItemRow
item id order_id = record { id = id; order_id = order_id; product_id = 5 }

abbrev items : List ItemRow
items = item 1 10 ∷ item 2 11 ∷ item 3 10 ∷ []

batch_by_key-filter_example :
    batch_by_key (λ i. i.order_id) items (10 ∷ 12 ∷ 11 ∷ [])
    ≡ (item 1 10 ∷ item 3 10 ∷ []) ∷ [] ∷ (item 2 11 ∷ []) ∷ []
unfolding filter
batch_by_key-filter_example = batch_by_key-filter (λ i. i.order_id) items (10 ∷ 12 ∷ 11 ∷ [])
