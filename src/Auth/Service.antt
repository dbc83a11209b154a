-- ===== src/Auth/Service.antt =====
-- backend/src/auth/auth.service.ts. Random tokens, generated ids and times are arguments. bcrypt's salt
-- is left out, and so is `cleanupExpiredTokens`, which deletes expired tokens.
use paya.Prelude.{
  is_some, ℕ, ◌+◌, String, Bool, true, false, not, Option, none, some, List, [], ◌∷◌, ◌&&◌, ◌||◌,
  ltb, str_eq, if◌then◌else◌,
}
use paya.Runtime.Action.{
  Action, ok, err, conflict, unauthorized, query_failed, pure, gets, or_throw, throw_if, modify,
  from_result, ◌>>=◌, ◌>>◌,
}
use paya.Auth.Types.{
  Role, User, RefreshToken, PasswordResetToken, TokenPair, SafeUser, RegisterDto, Context, Setting,
  World,
}

abbrev pub refresh_token_ttl_ms : ℕ
refresh_token_ttl_ms = 604800000

abbrev pub password_reset_ttl_ms : ℕ
password_reset_ttl_ms = 3600000

unfoldable pub to_safe_user : User → SafeUser
to_safe_user u = record {
  id = u.id;
  email = u.email;
  first_name = u.first_name;
  last_name = u.last_name;
  role = u.role;
  is_email_verified = u.is_email_verified;
  created_at = u.created_at;
}

abbrev pub first : List User → Option User
first [] = none
first (u ∷ us) = some u

-- `update({ userId, revoked: false }, { revoked: true })`
abbrev pub is_live_of : String → RefreshToken → Bool
is_live_of user_id t = str_eq t.user_id user_id && not t.revoked

abbrev pub has_hash : String → RefreshToken → Bool
has_hash h t = str_eq t.token_hash h

abbrev pub revoke : RefreshToken → RefreshToken
revoke t = record t { revoked = true }

module _ (env : Setting) where
  abbrev pub find_user : String → Action (World env) (Option User)
  find_user id = gets (λ w. env.users.find_one id w.users)

  abbrev pub find_by_email : String → Action (World env) (Option User)
  find_by_email email =
      gets (λ w. first (env.users.find_by (λ u. str_eq u.email (env.to_lower_case email)) w.users))

  abbrev pub save_user : User → Action (World env) (Unit {0})
  save_user u = modify (λ w. record w { users = env.users.save u w.users })

  abbrev pub insert_user : User → Action (World env) (Unit {0})
  insert_user u w = elim (env.users.insert u w.users) [
    | none ↦ (err query_failed, w)
    | some t ↦ (ok tt, record w { users = t })
  ]

  abbrev pub insert_refresh_token : RefreshToken → Action (World env) (Unit {0})
  insert_refresh_token r w = elim (env.refresh_tokens.rows.insert r w.refresh_tokens) [
    | none ↦ (err query_failed, w)
    | some t ↦ (ok tt, record w { refresh_tokens = t })
  ]

  abbrev pub new_refresh_token : User → Context → String → ℕ → RefreshToken
  new_refresh_token user context raw now = record {
    user_id = user.id;
    token_hash = env.hash_token raw;
    expires_at = now + refresh_token_ttl_ms;
    revoked = false;
    replaced_by_token_hash = none;
    user_agent = context.user_agent;
    ip_address = context.ip_address;
  }

  unfoldable pub issue_token_pair : User → Context → String → ℕ → Action (World env) TokenPair
  issue_token_pair user context raw now = do
    access_token ← from_result (env.sign user)
    insert_refresh_token (new_refresh_token user context raw now)
    pure (record { access_token = access_token; refresh_token = raw; expires_in = env.expires_in })

  abbrev pub new_user : RegisterDto → String → ℕ → User
  new_user dto id now = record {
    id = id;
    email = env.to_lower_case dto.email;
    password_hash = env.hash_password dto.password;
    first_name = dto.first_name;
    last_name = dto.last_name;
    role = Role.user;
    is_active = true;
    is_email_verified = false;
    last_login_at = none;
    created_at = now;
  }

  unfoldable pub register :
      RegisterDto → Context → String → String → ℕ → Action (World env) (SafeUser × TokenPair)
  unfolding issue_token_pair to_safe_user
  register dto context id raw now = do
    existing ← find_by_email dto.email
    throw_if (is_some existing) (conflict "An account with this email already exists")
    let user = new_user dto id now
    insert_user user
    tokens ← issue_token_pair user context raw now
    pure (to_safe_user user, tokens)

  abbrev pub is_password : String → Option User → Option User
  is_password password none = none
  is_password password (some u) =
      if env.compare_password password u.password_hash then some u else none

  unfoldable pub login :
      String → String → Context → String → ℕ → Action (World env) (SafeUser × TokenPair)
  unfolding issue_token_pair to_safe_user
  login email password context raw now = do
    found ← find_by_email email
    user ← or_throw (is_password password found) (unauthorized "Invalid email or password")
    throw_if (not user.is_active) (unauthorized "This account has been deactivated")
    let seen : User = record user { last_login_at = some now }
    save_user seen
    tokens ← issue_token_pair seen context raw now
    pure (to_safe_user seen, tokens)

  -- The row and the user that `refresh` accepts.
  abbrev pub is_usable : ℕ → Option RefreshToken → Option RefreshToken
  is_usable now none = none
  is_usable now (some t) = if t.revoked || ltb t.expires_at now then none else some t

  abbrev pub is_active_user : Option User → Option User
  is_active_user none = none
  is_active_user (some u) = if u.is_active then some u else none

  abbrev pub replaced : RefreshToken → String → RefreshToken
  replaced stored raw = record stored {
    revoked = true;
    replaced_by_token_hash = some (env.hash_token raw);
  }

  abbrev pub save_replaced : RefreshToken → String → TokenPair → Action (World env) TokenPair
  save_replaced stored raw tokens = do
    modify (λ w. record w {
      refresh_tokens = env.refresh_tokens.rows.save (replaced stored raw) w.refresh_tokens;
    })
    pure tokens

  -- `refresh` once the token and its user are found to be good.
  unfoldable pub rotate : RefreshToken → User → Context → String → ℕ → Action (World env) TokenPair
  unfolding issue_token_pair
  rotate stored user context raw now = do
    tokens ← issue_token_pair user context raw now
    save_replaced stored raw tokens

  unfoldable pub refresh : String → Context → String → ℕ → Action (World env) TokenPair
  unfolding rotate
  refresh token context raw now = do
    found ← gets (λ w. env.refresh_tokens.rows.find_one (env.hash_token token) w.refresh_tokens)
    stored ← or_throw (is_usable now found) (unauthorized "Invalid or expired refresh token")
    owner ← find_user stored.user_id
    user ← or_throw (is_active_user owner) (unauthorized "Invalid or expired refresh token")
    rotate stored user context raw now

  unfoldable pub logout : String → Action (World env) (Unit {0})
  logout token = modify (λ w. record w {
    refresh_tokens =
        env.refresh_tokens.update_by (has_hash (env.hash_token token)) revoke w.refresh_tokens;
  })

  unfoldable pub logout_all : String → Action (World env) (Unit {0})
  logout_all user_id = modify (λ w. record w {
    refresh_tokens = env.refresh_tokens.update_by (is_live_of user_id) revoke w.refresh_tokens;
  })

  -- `if (!user) return`, and the rest of `forgotPassword`.
  unfoldable pub send_reset : Option User → String → ℕ → Action (World env) (Unit {0})
  send_reset none raw now w = (ok tt, w)
  send_reset (some user) raw now w =
      elim (env.reset_tokens.insert
        (record {
          user_id = user.id;
          token_hash = env.hash_token raw;
          expires_at = now + password_reset_ttl_ms;
          used = false;
        })
        w.reset_tokens) [
          | none ↦ (err query_failed, w)
          | some t ↦ (ok tt, record w { reset_tokens = t; mails = (user.email, raw) ∷ w.mails })
        ]

  unfoldable pub forgot_password : String → String → ℕ → Action (World env) (Unit {0})
  unfolding send_reset
  forgot_password email raw now = do user ← find_by_email email; send_reset user raw now

  abbrev pub is_open : ℕ → Option PasswordResetToken → Option PasswordResetToken
  is_open now none = none
  is_open now (some t) = if t.used || ltb t.expires_at now then none else some t

  abbrev pub use_reset_token : PasswordResetToken → Action (World env) (Unit {0})
  use_reset_token t = modify (λ w. record w {
    reset_tokens = env.reset_tokens.save (record t { used = true }) w.reset_tokens;
  })

  -- `resetPassword` once the token and its user are found to be good.
  unfoldable pub set_password : PasswordResetToken → User → String → Action (World env) (Unit {0})
  unfolding logout_all
  set_password t user new_password = do
    save_user (record user { password_hash = env.hash_password new_password })
    use_reset_token t
    logout_all user.id

  unfoldable pub reset_password : String → String → ℕ → Action (World env) (Unit {0})
  unfolding set_password
  reset_password token new_password now = do
    found ← gets (λ w. env.reset_tokens.find_one (env.hash_token token) w.reset_tokens)
    t ← or_throw (is_open now found) (unauthorized "Invalid or expired password reset token")
    owner ← find_user t.user_id
    user ← or_throw owner (unauthorized "Invalid or expired password reset token")
    set_password t user new_password

  unfoldable pub change_password : String → String → String → Action (World env) (Unit {0})
  unfolding logout_all
  change_password user_id current_password new_password = do
    found ← find_user user_id
    user ←
        or_throw (is_password current_password found) (unauthorized "Current password is incorrect")
    save_user (record user { password_hash = env.hash_password new_password })
    logout_all user.id

  unfoldable pub get_profile : String → Action (World env) SafeUser
  unfolding to_safe_user
  get_profile user_id = do
    found ← find_user user_id
    user ← or_throw found (unauthorized "User no longer exists")
    pure (to_safe_user user)
