-- ===== src/Users/Listing/Tests.antt =====
-- The theorems on the listing of users at concrete inputs.
use rd_shop_backend.Base.{ℕ, false, ◌≡◌, refl, true, none, some, [], ◌∷◌, List, RowId}
use rd_shop_backend.Base.Outcome.{ok}
use rd_shop_backend.Base.Table.{find}
use rd_shop_backend.Cursors.Collecting.{collect}
use rd_shop_backend.Cursors.Sorting.{precedes, insert_sorted, sort_rows}
use rd_shop_backend.Cursors.Keyset.{filter}
use rd_shop_backend.Cursors.Paging.{last, cut_page}
use rd_shop_backend.Auth.Tokens.{Account}
use rd_shop_backend.Users.Model.{
  null_value, Profile, UserRow, user_row_entity, from_entity, UserResponse,
}
use rd_shop_backend.Users.Listing.{
  FindUsers, UserPage, is_newer_user, is_after_user, is_listed, after_cursor, find_all,
}
use rd_shop_backend.Users.Listing.Pages.{user_page, collect-listed}

unfoldable pub code : Unit {0}
unfolding precedes insert_sorted sort_rows filter last cut_page from_entity find is_newer_user
    is_after_user is_listed after_cursor find_all collect user_page
code = tt

abbrev pub account : RowId → Account
account id = record {
  id = id;
  email = id;
  password = some 5;
  roles = [];
  scopes = [];
  is_email_verified = true;
  deleted = false;
}

abbrev pub profile : Profile
profile = record {
  first_name = null_value;
  last_name = null_value;
  phone = null_value;
  city = null_value;
  country = null_value;
  postcode = null_value;
}

abbrev pub user : RowId → ℕ → UserRow
user id time = record {
  account = account id;
  profile = profile;
  avatar_id = none;
  created_at = time;
}

abbrev users : List UserRow
users = user 1 1500 ∷ user 2 3500 ∷ user 3 2500 ∷ []

abbrev by_two : FindUsers
by_two = record { cursor = none; limit = some 2; search = none }

abbrev shown : List UserResponse
shown =
    from_entity (user 2 3500) none
    ∷ from_entity (user 3 2500) none
    ∷ from_entity (user 1 1500) none
    ∷ []

collect-listed_example : collect (user_page (λ s u. true) by_two users) 4 none ≡ ok shown
unfolding code
collect-listed_example =
    collect-listed (λ s u. true) by_two users (refl, (refl, (refl, tt))) refl refl

abbrev close : List UserRow
close = user 1 1500 ∷ user 2 1700 ∷ []

abbrev after_two : FindUsers
after_two = record { cursor = some 2; limit = some 2; search = none }

abbrev empty_page : UserPage
empty_page = record { users = []; limit = 2; next_cursor = none }

misses_runs : find_all (λ s u. true) after_two close ≡ ok empty_page
unfolding code
misses_runs = refl

known : find 2 close ≡ some (user 2 1700)
unfolding code
known = refl
