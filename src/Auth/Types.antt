-- ===== src/Auth/Types.antt =====
-- The entities of backend/src/auth/entities, what the service returns, and its surroundings: bcrypt,
-- SHA-256, the signing of JWTs, random bytes and the mail are not code of the repository.
use paya.Prelude.{ℕ, String, Bool, Option, none, some, List, ◌≡◌, str_eq, if◌then◌else◌}
use paya.Runtime.Action.{Result}
use paya.Runtime.Repository.{Repository}

pub data Role : Type 0 where
  user merchant admin : Role

pub record User : Type 0 where
  pub id : String
  pub email : String
  pub password_hash : String
  pub first_name : Option String
  pub last_name : Option String
  pub role : Role
  pub is_active : Bool
  pub is_email_verified : Bool
  pub last_login_at : Option ℕ
  pub created_at : ℕ

-- The unique `tokenHash` is its key.
pub record RefreshToken : Type 0 where
  pub user_id : String
  pub token_hash : String
  pub expires_at : ℕ
  pub revoked : Bool
  pub replaced_by_token_hash : Option String
  pub user_agent : Option String
  pub ip_address : Option String

pub record PasswordResetToken : Type 0 where
  pub user_id : String
  pub token_hash : String
  pub expires_at : ℕ
  pub used : Bool

pub record TokenPair : Type 0 where
  pub access_token : String
  pub refresh_token : String
  pub expires_in : ℕ

pub record SafeUser : Type 0 where
  pub id : String
  pub email : String
  pub first_name : Option String
  pub last_name : Option String
  pub role : Role
  pub is_email_verified : Bool
  pub created_at : ℕ

pub record RegisterDto : Type 0 where
  pub email : String
  pub password : String
  pub first_name : Option String
  pub last_name : Option String

pub record Context : Type 0 where
  pub user_agent : Option String
  pub ip_address : Option String

-- A table of refresh tokens with `update(where, set)`, which changes the rows that the condition
-- selects, under a key that the change keeps.
pub record TokenTable : Type 1 where
  pub rows : Repository String RefreshToken str_eq (λ t. t.token_hash)
  pub update_by : (RefreshToken → Bool) → (RefreshToken → RefreshToken) → rows.Table → rows.Table
  pub find_one-update_by :
      (p : RefreshToken → Bool) (f : RefreshToken → RefreshToken)
      → ((t : RefreshToken) → (f t).token_hash ≡ t.token_hash)
      → (k : String) (t : rows.Table)
      → rows.find_one k (update_by p f t)
        ≡ (elim (rows.find_one k t) [ none ↦ none | some r ↦ some (if p r then f r else r) ])

-- `expires_in` is the setting JWT_ACCESS_EXPIRES_IN in seconds.
pub record Setting : Type 1 where
  pub users : Repository String User str_eq (λ u. u.id)
  pub refresh_tokens : TokenTable
  pub reset_tokens : Repository String PasswordResetToken str_eq (λ t. t.token_hash)
  pub hash_password : String → String
  pub compare_password : String → String → Bool
  pub hash_token : String → String
  pub sign : User → Result String
  pub to_lower_case : String → String
  pub expires_in : ℕ

-- The mails are those handed to the mail service, which catches its errors, the newest first, with
-- the token in each.
pub record World (env : Setting) : Type 0 where
  pub users : env.users.Table
  pub refresh_tokens : env.refresh_tokens.rows.Table
  pub reset_tokens : env.reset_tokens.Table
  pub mails : List (String × String)
