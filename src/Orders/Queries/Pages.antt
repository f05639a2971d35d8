-- ===== src/Orders/Queries/Pages.antt =====
-- One page of orders, and the cursor that it gives.
use rd_shop_backend.Base.{
  ℕ, zero, suc, ap, ◌≡◌, refl, ◌≢◌, Bool, some, List, [], ◌∷◌, map, arith, ltb, RowId, length, take,
  Text,
}
use rd_shop_backend.Base.Outcome.{ok}
use rd_shop_backend.Orders.Model.{Order}
use rd_shop_backend.Cursors.{
  encode_cursor-nonempty, CursorText, decode_epoch_cursor, Readable,
  decode_epoch_cursor-encode_cursor,
}
use rd_shop_backend.Cursors.Keyset.{
  Pairwise, filter, newest_first, newest_first-Pairwise, is_after, is_other, millis, filter-take,
}
use rd_shop_backend.Cursors.Paging.{take_all, take-take, ltb-length-take}
use rd_shop_backend.Orders.Queries.{
  Dated, id_of, created_at, Listing, apply_cursor_pagination, order_cursor, build_order_next_cursor,
  build_main_query, list_page,
}

-- No two rows have the same id.
abbrev pub HasUniqueIds : List Dated → Type 0
HasUniqueIds = Pairwise (is_other id_of created_at)

abbrev pub sorted : List Dated → List Dated
sorted = newest_first id_of created_at

-- The page is read again with its relations, in the same order.
build_main_query-take :
    (p : Dated → Bool) (n : ℕ) (rows : List Dated)
    → HasUniqueIds rows
    → build_main_query (map id_of (take n (filter p (sorted rows)))) rows
      ≡ map (λ x. x.order) (take n (filter p (sorted rows)))
unfolding build_main_query
build_main_query-take p n rows unique = ap (map (λ x. x.order)) (
    filter-take id_of created_at p n (sorted rows) (
      newest_first-Pairwise id_of created_at (is_other id_of created_at) (λ x y. ground arith) rows
        unique))

-- A page has the first rows that meet the condition, and a cursor if there are more of them.
abbrev pub page_of : CursorText → ℕ → List Dated → Listing
page_of texts limit found = record {
  orders = map (λ x. x.order) (take limit found);
  next_cursor = build_order_next_cursor texts (take limit found) (ltb limit (length found));
}

list_page_found :
    (texts : CursorText) (limit : ℕ) (query : List RowId → List Order) (found : List Dated)
    → query (map id_of (take limit found)) ≡ map (λ x. x.order) (take limit found)
    → query (map id_of (take (suc limit) found)) ≡ map (λ x. x.order) (take (suc limit) found)
    → list_page texts limit query found ≡ page_of texts limit found
unfolding list_page build_order_next_cursor
list_page_found texts zero query [] h k = ground arith
list_page_found texts (suc limit) query [] h k = ground arith
list_page_found texts limit query (x ∷ xs) h k = ground (
  arith,
  take_all limit (x ∷ xs),
  take_all (suc limit) (x ∷ xs),
  take-take limit (x ∷ xs),
  ltb-length-take limit (x ∷ xs),
)

pub list_page-page_of :
    (texts : CursorText) (limit : ℕ) (p : Dated → Bool) (rows : List Dated)
    → HasUniqueIds rows
    → list_page texts limit (λ ids. build_main_query ids rows) (filter p (sorted rows))
      ≡ page_of texts limit (filter p (sorted rows))
list_page-page_of texts limit p rows unique =
    let query : List RowId → List Order = λ ids. build_main_query ids rows in
    list_page_found texts limit query (filter p (sorted rows))
      (build_main_query-take p limit rows unique) (build_main_query-take p (suc limit) rows unique)

-- The cursor of a row selects the rows after it.
pub apply_cursor_pagination-order_cursor :
    (texts : CursorText) (x : Dated)
    → Readable texts
    → apply_cursor_pagination texts (some (order_cursor texts x))
      ≡ ok (is_after id_of created_at (millis id_of created_at x) (id_of x))
unfolding apply_cursor_pagination order_cursor
apply_cursor_pagination-order_cursor texts x r =
    let n = millis id_of created_at x in
    by_text (order_cursor texts x)
      (encode_cursor-nonempty (texts.id_text (id_of x)) (texts.number_text n))
      (decode_epoch_cursor-encode_cursor texts (id_of x) n r)
  where
    by_text :
        (t : Text)
        → t ≢ []
        → decode_epoch_cursor texts t ≡ ok (millis id_of created_at x, texts.id_text (id_of x))
        → apply_cursor_pagination texts (some t)
          ≡ ok (is_after id_of created_at (millis id_of created_at x) (id_of x))
    by_text [] given h = absurd (given refl)
    by_text (a ∷ t) given h = ground (arith, h, r.id_back (id_of x))
