-- ===== src/Users/Listing/Pages.antt =====
-- The pages of users together, and the users that they miss.
use rd_shop_backend.Base.{
  suc, ap, ◌∙◌, ◌*◌, ◌/◌, ◌≡◌, refl, sym, Bool, true, false, not, ◌&&◌, ◌||◌, Option, none, some,
  List, [], ◌∷◌, ◌++◌, map, arith, ltb, ◌==◌, RowId, length, take, all, All, all-take,
}
use rd_shop_backend.Base.Table.{find}
use rd_shop_backend.Base.Outcome.{Result, ok, err}
use rd_shop_backend.Cursors.Keyset.{
  Pairwise, filter, filter-Pairwise, filter-&&, filter-All, All-append_cons, filter-true,
  length-filter, filter-imp,
}
use rd_shop_backend.Cursors.Paging.{cut_page-take}
use rd_shop_backend.Cursors.Collecting.{collect, paged, is_followed, Descends, collect-found}
use rd_shop_backend.Cursors.Sorting.{
  sort_rows, sort_rows-Descends, sort_rows-All, length-sort_rows, all-sort_rows, precedes,
}
use rd_shop_backend.Users.Model.{UserRow, user_row_entity, UserResponse, from_entity}
use rd_shop_backend.Users.Listing.{
  FindUsers, UserPage, users_limit, user_id_of, is_newer_user, is_after_user, is_listed,
  after_cursor, find_all,
}

abbrev sees : UserRow → UserResponse
sees u = from_entity u none

-- Ids are distinct, and creation times are in distinct milliseconds or have no parts of one.
abbrev is_whole : UserRow → Bool
is_whole u = u.created_at / 1000 * 1000 == u.created_at

abbrev pub is_apart_user : UserRow → UserRow → Bool
is_apart_user u v =
    not (user_id_of u == user_id_of v)
    && (not (u.created_at / 1000 == v.created_at / 1000) || is_whole u && is_whole v)

swap_apart : (u v : UserRow) → is_apart_user u v ≡ is_apart_user v u
swap_apart u v = ground arith

newer_trans :
    (u v w : UserRow)
    → is_newer_user u v ≡ true
    → is_newer_user v w ≡ true
    → is_newer_user u w ≡ true
unfolding is_newer_user precedes
newer_trans u v w h k = ground arith

newer_total :
    (u v : UserRow) → is_apart_user u v ≡ true → (is_newer_user u v || is_newer_user v u) ≡ true
unfolding is_newer_user precedes
newer_total u v h = ground arith

follows :
    (u v : UserRow)
    → is_apart_user u v ≡ true
    → is_newer_user u v ≡ true
    → is_followed is_after_user u v ≡ true
unfolding is_newer_user is_after_user precedes
follows u v h k = ground arith

not_after_self : (u : UserRow) → is_after_user u u ≡ false
unfolding is_after_user precedes
not_after_self u = ground arith

-- A user that is not removed is found by the id.
abbrev FoundIn : List UserRow → UserRow → Type 0
FoundIn users u = (u.account).deleted ≡ false → find (user_id_of u) users ≡ some u

abbrev is_other_user : UserRow → UserRow → Bool
is_other_user u v = not (user_id_of u == user_id_of v)

FoundIn-cons :
    (u : UserRow) (users vs : List UserRow)
    → all (is_other_user u) vs ≡ true
    → All (FoundIn users) vs
    → All (FoundIn (u ∷ users)) vs
unfolding find
FoundIn-cons u users [] other h = tt
FoundIn-cons u users (v ∷ vs) other h =
    (λ live. ground (arith, h.0 live), FoundIn-cons u users vs (ground arith) h.1)

all_other :
    (u : UserRow) (vs : List UserRow)
    → all (is_apart_user u) vs ≡ true
    → all (is_other_user u) vs ≡ true
all_other u [] h = refl
all_other u (v ∷ vs) h = ground (arith, all_other u vs)

All-FoundIn : (users : List UserRow) → Pairwise is_apart_user users → All (FoundIn users) users
unfolding find
All-FoundIn [] h = tt
All-FoundIn (u ∷ users) h = (
  λ live. ground (arith, live),
  FoundIn-cons u users users (all_other u users h.0) (All-FoundIn users h.1),
)

module _ (is_named : RowId → UserRow → Bool) (dto : FindUsers) (users : List UserRow) where
  -- The users that the filters select, in the order of the listing
  abbrev pub listed : List UserRow
  listed = filter (is_listed is_named dto) (sort_rows is_newer_user users)

  -- One request of a client
  unfoldable pub user_page : Option RowId → Result (List UserResponse × Option RowId)
  unfolding find_all
  user_page cursor = elim (find_all is_named (record dto { cursor = cursor }) users) [
    | err e ↦ err e
    | ok page ↦ ok (page.users, page.next_cursor)
  ]

  listed-live : (u : UserRow) → is_listed is_named dto u ≡ true → (u.account).deleted ≡ false
  unfolding is_listed
  listed-live u h = ground arith

  user_page-paged :
      (cursor : Option RowId) (after : UserRow → Bool)
      → after_cursor is_named (record dto { cursor = cursor }) users ≡ ok after
      → user_page cursor
        ≡ ok (paged is_after_user sees user_id_of (users_limit dto.limit) (filter after listed))
  unfolding user_page find_all is_listed
  user_page-paged cursor after h =
      let limit = users_limit dto.limit in
      ground (
        arith,
        h,
        filter-&& (is_listed is_named dto) after (sort_rows is_newer_user users),
        cut_page-take limit (filter after listed),
      )

  -- The id of a user selects the users after that one.
  abbrev Selects : UserRow → Type 0
  Selects u =
      (u.account).deleted ≡ false
      → after_cursor is_named (record dto { cursor = some (user_id_of u) }) users
        ≡ ok (is_after_user u)

  All-Selects :
      (us : List UserRow)
      → all (λ u. not (user_id_of u == 0)) us ≡ true
      → All (FoundIn users) us
      → All Selects us
  unfolding after_cursor
  All-Selects [] given found = tt
  All-Selects (u ∷ us) given found =
      (λ live. ground (arith, found.0 live), All-Selects us (ground arith) found.1)

  listed-page :
      Pairwise is_apart_user users
      → all (λ u. not (user_id_of u == 0)) users ≡ true
      → (q : List UserRow) (r : UserRow) (rest : List UserRow) → listed ≡ q ++ r ∷ rest
      → user_page (some (user_id_of r))
        ≡ ok (
            paged is_after_user sees user_id_of
              (users_limit dto.limit)
              (filter (is_after_user r) listed))
  listed-page apart given q r rest split =
      let selects = All-Selects users given (All-FoundIn users apart) in
      let each : All (λ u. Selects u × (is_listed is_named dto u ≡ true)) (q ++ r ∷ rest) =
        rw (sym split) (
          filter-All Selects (is_listed is_named dto) (sort_rows is_newer_user users)
            (sort_rows-All is_newer_user Selects users selects)) in
      let own =
        All-append_cons (λ u. Selects u × (is_listed is_named dto u ≡ true)) q r rest each in
      user_page-paged (some (user_id_of r)) (is_after_user r) (own.0 (listed-live r own.1))

  -- A client that follows the cursors from the first page gets exactly the users that are not removed
  -- and meet the search, each once, newest first; every cursor on the way leads to further users,
  -- and the last page has none: if ids are
  -- distinct and not empty, any two creation times lie in different milliseconds or have no parts of
  -- one, and the limit is not zero. One request more than there are users is enough.
  pub collect-listed :
      Pairwise is_apart_user users
      → all (λ u. not (user_id_of u == 0)) users ≡ true
      → ltb 0 (users_limit dto.limit) ≡ true
      → collect user_page (suc (length users)) none ≡ ok (map sees listed)
  unfolding after_cursor is_listed
  collect-listed apart given positive =
      let descends : Descends is_after_user listed =
        filter-Pairwise (is_followed is_after_user) (is_listed is_named dto)
          (sort_rows is_newer_user users)
          (sort_rows-Descends is_newer_user is_apart_user swap_apart newer_trans newer_total
            is_after_user follows users apart) in
      let first : user_page none
          ≡ ok (paged is_after_user sees user_id_of (users_limit dto.limit) listed) =
        user_page-paged none (λ u. true) refl
        ∙ ap (λ xs. ok (paged is_after_user sees user_id_of (users_limit dto.limit) xs))
            (filter-true listed) in
      collect-found is_after_user sees user_id_of (users_limit dto.limit) user_page listed positive
        not_after_self descends (listed-page apart given) (suc (length users)) first
        (ground (
          arith,
          length-filter (is_listed is_named dto) (sort_rows is_newer_user users),
          length-sort_rows is_newer_user users,
        ))

all-map :
    {A B : Type 0} (p : B → Bool) (f : A → B) (xs : List A)
    → all (λ x. p (f x)) xs ≡ true
    → all p (map f xs) ≡ true
all-map p f [] h = refl
all-map p f (x ∷ xs) h = ground (arith, all-map p f xs)

-- What the page after a user's cursor shows
page_after :
    (is_named : RowId → UserRow → Bool) (dto : FindUsers) (users : List UserRow) (c : UserRow)
    (page : UserPage)
    → find (user_id_of c) users ≡ some c
    → dto.cursor ≡ some (user_id_of c)
    → (user_id_of c == 0) ≡ false
    → find_all is_named dto users ≡ ok page
    → page.users
      ≡ map sees (
          take (users_limit dto.limit) (
            filter
              (λ u. is_listed is_named dto u && is_after_user c u)
              (sort_rows is_newer_user users)))
unfolding find_all after_cursor
page_after is_named dto users c page known cursor given h = ground (
  arith,
  known,
  cursor,
  cut_page-take (users_limit dto.limit)
      (filter (λ u. is_listed is_named dto u && is_after_user c u) (sort_rows is_newer_user users)),
)

none_after :
    (m : UserRow → Bool) (c u : UserRow) (users : List UserRow)
    → c.created_at / 1000 ≡ u.created_at / 1000
    → ltb (u.created_at / 1000 * 1000) u.created_at ≡ true
    → all (λ v. is_other_user v u || v.created_at == u.created_at) users ≡ true
    → all (λ v. not (m v && is_after_user c v) || not (user_id_of v == user_id_of u)) users ≡ true
unfolding is_after_user precedes
none_after m c u [] same part row = refl
none_after m c u (v ∷ users) same part row = ground (arith, none_after m c u users same part)

-- The page after a user's cursor has no other user of the same millisecond, unless that one's creation
-- time has no part of a millisecond: so a user who was created earlier in it, and comes later in the
-- listing, is missed whatever the ids are. If the cursor's user is in the table under a nonempty id,
-- and rows with the id of the user that is missed have that user's creation time.
pub find_all_misses :
    (is_named : RowId → UserRow → Bool) (dto : FindUsers) (users : List UserRow) (c u : UserRow)
    (page : UserPage)
    → find (user_id_of c) users ≡ some c
    → dto.cursor ≡ some (user_id_of c)
    → (user_id_of c == 0) ≡ false
    → all (λ v. is_other_user v u || v.created_at == u.created_at) users ≡ true
    → c.created_at / 1000 ≡ u.created_at / 1000
    → ltb (u.created_at / 1000 * 1000) u.created_at ≡ true
    → find_all is_named dto users ≡ ok page
    → all (λ r. not (r.id == user_id_of u)) page.users ≡ true
unfolding from_entity
find_all_misses is_named dto users c u page known cursor given row same part h =
    let p : UserRow → Bool = λ v. is_listed is_named dto v && is_after_user c v in
    let is_not : UserRow → Bool = λ v. not (user_id_of v == user_id_of u) in
    rw (page_after is_named dto users c page known cursor given h) (
      all-map (λ r. not (r.id == user_id_of u)) sees
        (take (users_limit dto.limit) (filter p (sort_rows is_newer_user users)))
        (all-take is_not (users_limit dto.limit) (filter p (sort_rows is_newer_user users)) (
          filter-imp p is_not (sort_rows is_newer_user users) (
            all-sort_rows is_newer_user (λ v. not (p v) || is_not v) users
            ∙ none_after (is_listed is_named dto) c u users same part row))))
