-- ===== src/Auth/Permissions.antt =====
-- Roles and scopes (auth/permissions), and the guards that a route asks for them: RolesGuard and
-- ScopesGuard (auth/guards). What a route requires is the list that the decorators give, none
-- without a decorator.
use rd_shop_backend.Base.{
  ℕ, ◌≡◌, refl, Bool, true, Option, none, some, List, [], ◌∷◌, arith, ◌==◌, if◌then◌else◌, any, all,
}
use rd_shop_backend.Base.Outcome.{Result, ok, err, http, forbidden}

pub data UserRole : Type 0 where
  admin_role support_role user_role : UserRole

pub data UserScope : Type 0 where
  files_write orders_read orders_write payments_read payments_write : UserScope
  products_images_read products_images_write products_read products_write : UserScope
  users_read users_write : UserScope

abbrev role_code : UserRole → ℕ
role_code admin_role = 0
role_code support_role = 1
role_code user_role = 2

abbrev scope_code : UserScope → ℕ
scope_code files_write = 0
scope_code orders_read = 1
scope_code orders_write = 2
scope_code payments_read = 3
scope_code payments_write = 4
scope_code products_images_read = 5
scope_code products_images_write = 6
scope_code products_read = 7
scope_code products_write = 8
scope_code users_read = 9
scope_code users_write = 10

abbrev pub new_user_roles : List UserRole
new_user_roles = user_role ∷ []

abbrev pub new_user_scopes : List UserScope
new_user_scopes = orders_read ∷ orders_write ∷ files_write ∷ products_read ∷ []

-- `Object.values(UserScope)`
abbrev pub admin_scopes : List UserScope
admin_scopes =
    files_write ∷ orders_read ∷ orders_write ∷ payments_read ∷ payments_write ∷ products_images_read
    ∷ products_images_write ∷ products_read ∷ products_write ∷ users_read ∷ users_write ∷ []

abbrev pub support_scopes : List UserScope
support_scopes = orders_read ∷ payments_read ∷ products_read ∷ users_read ∷ []

unfoldable pub has_role : List UserRole → UserRole → Bool
has_role roles role = any (λ r. role_code r == role_code role) roles

unfoldable pub has_scope : List UserScope → UserScope → Bool
has_scope scopes scope = any (λ s. scope_code s == scope_code scope) scopes

-- `RolesGuard.canActivate`: one of the required roles
unfoldable pub roles_guard : Option (List UserRole) → List UserRole → Result Bool
unfolding has_role
roles_guard none roles = ok true
roles_guard (some []) roles = ok true
roles_guard (some (r ∷ required)) roles =
    if any (has_role roles) (r ∷ required) then ok true else err (http forbidden)

-- `ScopesGuard.canActivate`: every one of the required scopes
unfoldable pub scopes_guard : Option (List UserScope) → List UserScope → Result Bool
unfolding has_scope
scopes_guard none scopes = ok true
scopes_guard (some []) scopes = ok true
scopes_guard (some (s ∷ required)) scopes =
    if all (has_scope scopes) (s ∷ required) then ok true else err (http forbidden)

has_scope-admin : (scope : UserScope) → has_scope admin_scopes scope ≡ true
unfolding has_scope
has_scope-admin files_write = refl
has_scope-admin orders_read = refl
has_scope-admin orders_write = refl
has_scope-admin payments_read = refl
has_scope-admin payments_write = refl
has_scope-admin products_images_read = refl
has_scope-admin products_images_write = refl
has_scope-admin products_read = refl
has_scope-admin products_write = refl
has_scope-admin users_read = refl
has_scope-admin users_write = refl

all_have-admin : (required : List UserScope) → all (has_scope admin_scopes) required ≡ true
all_have-admin [] = refl
all_have-admin (s ∷ required) = ground (arith, has_scope-admin s, all_have-admin required)

-- An administrator passes the scope guard of every route.
pub scopes_guard-admin :
    (required : Option (List UserScope)) → scopes_guard required admin_scopes ≡ ok true
unfolding scopes_guard
scopes_guard-admin none = refl
scopes_guard-admin (some []) = refl
scopes_guard-admin (some (s ∷ required)) = ground (arith, all_have-admin (s ∷ required))
