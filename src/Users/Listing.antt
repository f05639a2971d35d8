-- ===== src/Users/Listing.antt =====
-- UsersService.findAll (users/users.service.ts, users/dto/find-users.dto.ts). ILIKE is a parameter.
pub mod Pages
pub mod Tests
use rd_shop_backend.Base.{
  ℕ, suc, ◌*◌, ◌/◌, Bool, true, not, ◌&&◌, Option, none, some, List, map, RowId, take, truthy,
}
use rd_shop_backend.Base.Table.{find}
use rd_shop_backend.Base.Outcome.{Result, ok, err, http, bad_request}
use rd_shop_backend.Cursors.Keyset.{filter}
use rd_shop_backend.Cursors.Paging.{cut_page}
use rd_shop_backend.Cursors.Sorting.{desc, precedes, sort_rows}
use rd_shop_backend.Users.Model.{UserRow, user_row_entity, UserResponse, from_entity}

-- `FindUsersDto`
pub record FindUsers : Type 0 where
  pub cursor : Option RowId
  pub limit : Option ℕ
  pub search : Option RowId

-- `UsersListResponseDto`
pub record UserPage : Type 0 where
  pub users : List UserResponse
  pub limit : ℕ
  pub next_cursor : Option RowId

-- `limit ?? 10`
abbrev pub users_limit : Option ℕ → ℕ
users_limit none = 10
users_limit (some n) = n

abbrev pub user_id_of : UserRow → RowId
user_id_of u = (u.account).id

-- `ORDER BY createdAt DESC, id DESC`
unfoldable pub is_newer_user : UserRow → UserRow → Bool
unfolding precedes
is_newer_user u v = precedes desc u.created_at (user_id_of u) v.created_at (user_id_of v)

-- The cursor's creation time is a JavaScript date: it has no more than milliseconds, while the column
-- that it is compared with has microseconds.
unfoldable pub is_after_user : UserRow → UserRow → Bool
unfolding precedes
is_after_user c u =
    precedes desc (c.created_at / 1000 * 1000) (user_id_of c) u.created_at (user_id_of u)

-- The first name, the last name or the email contains the text.
module _ (is_named : RowId → UserRow → Bool) where
  unfoldable pub is_listed : FindUsers → UserRow → Bool
  is_listed dto u =
      not (u.account).deleted
      && elim (truthy dto.search) [ none ↦ true | some search ↦ is_named search u ]

  unfoldable pub after_cursor : FindUsers → List UserRow → Result (UserRow → Bool)
  unfolding is_after_user
  after_cursor dto users = elim (truthy dto.cursor) [
    | none ↦ ok (λ u. true)
    | some id ↦ elim (find id users) [
      | none ↦ err (http bad_request)
      | some c ↦ ok (is_after_user c)
    ]
  ]

  unfoldable pub find_all : FindUsers → List UserRow → Result UserPage
  unfolding is_newer_user is_listed after_cursor cut_page
  find_all dto users =
      let limit = users_limit dto.limit in
      elim (after_cursor dto users) [
        | err e ↦ err e
        | ok after ↦
            let rows =
              take (suc limit)
                (filter (λ u. is_listed dto u && after u) (sort_rows is_newer_user users)) in
            let (page, end) = cut_page limit rows in
            ok (record {
              users = map (λ u. from_entity u none) page;
              limit = limit;
              next_cursor = elim end [ none ↦ none | some u ↦ some (user_id_of u) ];
            })
      ]
