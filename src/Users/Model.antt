-- ===== src/Users/Model.antt =====
-- The rows of users (users/user.entity.ts), what the responses show of them and the profile that a
-- request sends (users/dto). `UserRow` adds the profile, the avatar and the creation time to the columns
-- of `Account`; `updated_at`, which no rule reads, is left out.
use rd_shop_backend.Base.{ℕ, ◌/◌, Bool, not, Option, List, RowId}
use rd_shop_backend.Base.Table.{Entity}
use rd_shop_backend.Auth.Permissions.{UserRole, UserScope}
use rd_shop_backend.Auth.Tokens.{Account}
use rd_shop_backend.Files.{FileRecord, Bucket}

-- A property of an object: undefined, null, or a string.
pub data Field : Type 0 where
  absent null_value : Field
  text : RowId → Field

-- The columns that a user edits, and `UpdateProfileDto`. The classes declare their fields, so that a
-- request has every one of them: those that it does not name are undefined.
pub record Profile : Type 0 where
  pub first_name : Field
  pub last_name : Field
  pub phone : Field
  pub city : Field
  pub country : Field
  pub postcode : Field

-- `created_at` is in microseconds.
pub record UserRow : Type 0 where
  pub account : Account
  pub profile : Profile
  pub avatar_id : Option RowId
  pub created_at : ℕ

instance abbrev pub user_row_entity : Entity UserRow
user_row_entity = record { id_of = λ u. (u.account).id; is_live = λ u. not (u.account).deleted }

-- `UserResponseDto`. `created_at` is a JavaScript date, in milliseconds.
pub record UserResponse : Type 0 where
  pub id : RowId
  pub email : RowId
  pub profile : Profile
  pub avatar_id : Option RowId
  pub avatar_url : Option RowId
  pub roles : List UserRole
  pub scopes : List UserScope
  pub is_email_verified : Bool
  pub created_at : ℕ

-- `fromEntity`, and the URL that is then set
unfoldable pub from_entity : UserRow → Option RowId → UserResponse
from_entity u url = record {
  id = (u.account).id;
  email = (u.account).email;
  profile = u.profile;
  avatar_id = u.avatar_id;
  avatar_url = url;
  roles = (u.account).roles;
  scopes = (u.account).scopes;
  is_email_verified = (u.account).is_email_verified;
  created_at = u.created_at / 1000;
}

pub record Directory : Type 0 where
  pub users : List UserRow
  pub files : List FileRecord

-- What a call meets: the clock, the bucket, and what other requests commit before it saves its row.
pub record UserEnv : Type 0 where
  pub bucket : Bucket
  pub now : ℕ
  pub others : Directory → Directory
