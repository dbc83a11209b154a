-- ===== src/Auth/Tests.antt =====
-- The theorems on accounts at tables that are lists, with one user and one refresh token, and runs.
use native.Mathlib.Nat.{ℕ_set}
use paya.Runtime.Text.{String-set}
use paya.Prelude.{
  String, Bool, true, false, none, some, List, [], ◌∷◌, map, ◌≡◌, refl, arith, str_eq, str_eq_iff,
  if◌then◌else◌, Bool-cases, inl, inr,
}
use paya.Runtime.Action.{ok, err}
use paya.Runtime.ListTable.{list_repository, lookup}
use paya.Auth.Types
use paya.Auth.Types.{User, RefreshToken, PasswordResetToken, Context, TokenTable, Setting, World}
use paya.Auth.Service.{refresh, reset_password}
use paya.Auth.Sessions.{Refreshed, refresh-Refreshed}
use paya.Auth.Resets.{Reset, reset_password-Reset}
use paya.Auth.Histories.{Call, logout_call, login_call, handle_all, refresh-handle_all}
use paya.Auth.Revocations.{refused}

user_set : IsSet User
user_set = hlevel (String-set, ℕ_set)

token_set : IsSet RefreshToken
token_set = hlevel (String-set, ℕ_set)

reset_set : IsSet PasswordResetToken
reset_set = hlevel (String-set, ℕ_set)

abbrev token_key : RefreshToken → String
token_key t = t.token_hash

abbrev change : (RefreshToken → Bool) → (RefreshToken → RefreshToken) → RefreshToken → RefreshToken
change p f t = if p t then f t else t

lookup-change :
    (p : RefreshToken → Bool) (f : RefreshToken → RefreshToken)
    → ((t : RefreshToken) → (f t).token_hash ≡ t.token_hash)
    → (k : String) (t : List RefreshToken)
    → lookup str_eq str_eq_iff token_key token_set k (map (change p f) t)
      ≡ (elim (lookup str_eq str_eq_iff token_key token_set k t) [
        | none ↦ none
        | some r ↦ some (change p f r)
      ])
lookup-change p f same k [] = refl
lookup-change p f same k (r ∷ t) = elim (Bool-cases (str_eq r.token_hash k)) [
  | inl hit ↦ ground (arith, hit, same r)
  | inr miss ↦ ground (arith, miss, same r, lookup-change p f same k t)
]

abbrev tokens : TokenTable
tokens = record {
  rows = list_repository str_eq str_eq_iff token_key token_set;
  update_by = λ p f t. map (change p f) t;
  find_one-update_by = lookup-change;
}

abbrev env : Setting
env = record {
  users = list_repository str_eq str_eq_iff (λ u. u.id) user_set;
  refresh_tokens = tokens;
  reset_tokens = list_repository str_eq str_eq_iff (λ t. t.token_hash) reset_set;
  hash_password = λ p. p;
  compare_password = str_eq;
  hash_token = λ t. t;
  sign = λ u. ok u.id;
  to_lower_case = λ s. s;
  expires_in = 900;
}

abbrev ann : User
ann = record {
  id = "u";
  email = "ann@paya";
  password_hash = "secret";
  first_name = none;
  last_name = none;
  role = Types.Role.user;
  is_active = true;
  is_email_verified = false;
  last_login_at = none;
  created_at = 1;
}

abbrev token : RefreshToken
token = record {
  user_id = "u";
  token_hash = "old";
  expires_at = 100;
  revoked = false;
  replaced_by_token_hash = none;
  user_agent = none;
  ip_address = none;
}

abbrev context : Context
context = record { user_agent = none; ip_address = none }

abbrev world : World env
world = record {
  users = ann ∷ [];
  refresh_tokens = token ∷ [];
  reset_tokens = record { user_id = "u"; token_hash = "reset"; expires_at = 50; used = false } ∷ [];
  mails = [];
}

refresh-Refreshed_example :
    Refreshed env "old" context "new" 9 world (refresh env "old" context "new" 9 world)
refresh-Refreshed_example = refresh-Refreshed env "old" context "new" 9 world

reset_password-Reset_example :
    Reset env "reset" "better" 9 world (reset_password env "reset" "better" 9 world)
reset_password-Reset_example = reset_password-Reset env "reset" "better" 9 world

abbrev calls : List Call
calls = login_call "ann@paya" "secret" context "other" 10 ∷ logout_call "new" ∷ []

refresh-handle_all_example :
    let after = handle_all env calls (refresh env "old" context "new" 9 world).1 in
    refresh env "old" context "more" 11 after ≡ (err (refused env), after)
unfolding refresh
refresh-handle_all_example =
    refresh-handle_all env "old" context "new" 9 world refl calls context "more" 11
