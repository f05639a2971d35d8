-- ===== src/Products/Listing/Tests.antt =====
-- The theorem on the listing of products at a concrete input: two pages, the cheapest first.
use rd_shop_backend.Base.{ℕ, ◌≡◌, refl, ap, true, false, none, some, List, [], ◌∷◌, ◌==◌, RowId}
use rd_shop_backend.Base.Int.{pos}
use rd_shop_backend.Base.Outcome.{ok}
use rd_shop_backend.Cursors.Tests.{texts, texts-Readable, word, count, length-replicate}
use rd_shop_backend.Cursors.Collecting.{collect}
use rd_shop_backend.Cursors.Keyset.{filter}
use rd_shop_backend.Cursors.Sorting.{asc, precedes, insert_sorted, sort_rows}
use rd_shop_backend.Products.Model.{Review}
use rd_shop_backend.Products.Reviews.{Rating, sum_ratings, count_reviews, get_rating_info}
use rd_shop_backend.Products.Listing.{
  by_price, Entry, ProductTexts, FindProducts, is_selected, sort_key, cursor_key, is_sorted_before,
  rated,
}
use rd_shop_backend.Products.Listing.Batch.{rated-get_rating_info}
use rd_shop_backend.Products.Listing.Pages.{ReadableProducts, product_page, collect-selected}

abbrev product_texts : ProductTexts
product_texts = record {
  cursor = texts;
  price_text = word 48;
  price_of = λ t. some (count t);
  title_text = word 98;
  title_of = count;
  title_rank = λ t. t;
  is_like = λ a b. a == b;
  upper = λ c. c;
}

readable : ReadableProducts product_texts
readable = record {
  cursor = texts-Readable;
  some_price = λ n e. cc;
  price_back = λ n. ap some (length-replicate 48 n);
  some_title = λ t h e. cc;
  title_back = length-replicate 98;
}

abbrev entry : RowId → ℕ → Entry
entry id price = record {
  item = record {
    product = record { id = id; price = price; stock = pos 9; is_active = true; deleted = false };
    title = id;
    main_image_id = none;
  };
  created_at = 1000;
  category = 1;
  brand = none;
  country = none;
  description = none;
}

abbrev entries : List Entry
entries = entry 1 30 ∷ entry 2 20 ∷ []

abbrev reviews : List Review
reviews =
    record { id = 40; user_id = 7; product_id = 1; rating = 4; text = 3; created_at = 9000 } ∷ []

abbrev cheapest_first : FindProducts
cheapest_first = record {
  brand = [];
  category = none;
  country = [];
  cursor = none;
  is_active = none;
  limit = some 1;
  max_price = none;
  min_price = none;
  search = none;
  sort_by = some by_price;
  sort_order = some asc;
}

abbrev four_stars : Rating
four_stars = record { average_rating = some 400; reviews_count = 1 }

abbrev unrated : Rating
unrated = record { average_rating = none; reviews_count = 0 }

collect-selected_example :
    collect (product_page product_texts cheapest_first entries reviews) 3 none
    ≡ ok ((entry 2 20, unrated) ∷ (entry 1 30, four_stars) ∷ [])
unfolding filter precedes insert_sorted sort_rows sum_ratings count_reviews get_rating_info
    is_selected sort_key cursor_key is_sorted_before
collect-selected_example =
    collect-selected product_texts cheapest_first entries reviews readable refl (refl, (refl, tt))
      refl

rated-get_rating_info_example :
    rated entries reviews ≡ (entry 1 30, four_stars) ∷ (entry 2 20, unrated) ∷ []
unfolding sum_ratings count_reviews get_rating_info
rated-get_rating_info_example = rated-get_rating_info entries reviews
