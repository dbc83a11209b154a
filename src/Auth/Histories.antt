-- ===== src/Auth/Histories.antt =====
-- Sequences of the calls of backend/src/auth/auth.service.ts, in any order and with any arguments.
use paya.Prelude.{ℕ, String, true, List, [], ◌∷◌, ◌≡◌, refl, arith}
use paya.Runtime.Action.{is_ok, Result, ok, err}
use paya.Auth.Types.{TokenPair, RegisterDto, Context, Setting, World}
use paya.Auth.Service.{
  register, login, refresh, logout, logout_all, forgot_password, reset_password, change_password,
  replaced,
}
use paya.Auth.Sessions.{Refreshed, refresh-Refreshed}
use paya.Auth.Revocations.{Revoked, refused}
use paya.Auth.Keeping.{
  refresh-Keeps, logout-Keeps, logout_all-Keeps, register-Keeps, login-Keeps, forgot-Keeps,
  reset-Keeps, change-Keeps,
}

-- The calls with what they take from outside: ids, random tokens and times.
pub data Call : Type 0 where
  register_call : RegisterDto → Context → String → String → ℕ → Call
  login_call : String → String → Context → String → ℕ → Call
  refresh_call : String → Context → String → ℕ → Call
  logout_call : String → Call
  logout_all_call : String → Call
  forgot_call : String → String → ℕ → Call
  reset_call : String → String → ℕ → Call
  change_call : String → String → String → Call

module _ (env : Setting) where
  abbrev pub handle : Call → World env → World env
  handle (register_call dto context id raw now) w = (register env dto context id raw now w).1
  handle (login_call email password context raw now) w =
      (login env email password context raw now w).1
  handle (refresh_call token context raw now) w = (refresh env token context raw now w).1
  handle (logout_call token) w = (logout env token w).1
  handle (logout_all_call id) w = (logout_all env id w).1
  handle (forgot_call email raw now) w = (forgot_password env email raw now w).1
  handle (reset_call token password now) w = (reset_password env token password now w).1
  handle (change_call id old new) w = (change_password env id old new w).1

  abbrev pub handle_all : List Call → World env → World env
  handle_all [] w = w
  handle_all (c ∷ cs) w = handle_all cs (handle c w)

  handle-Revoked :
      (c : Call) (h : String) (w : World env) → Revoked env h w → Revoked env h (handle c w)
  handle-Revoked (register_call dto context id raw now) =
      (register-Keeps env dto context id raw now).kept
  handle-Revoked (login_call email password context raw now) =
      (login-Keeps env email password context raw now).kept
  handle-Revoked (refresh_call token context raw now) =
      (refresh-Keeps env token context raw now).kept
  handle-Revoked (logout_call token) = (logout-Keeps env token).kept
  handle-Revoked (logout_all_call id) = (logout_all-Keeps env id).kept
  handle-Revoked (forgot_call email raw now) = (forgot-Keeps env email raw now).kept
  handle-Revoked (reset_call token password now) = (reset-Keeps env token password now).kept
  handle-Revoked (change_call id old new) = (change-Keeps env id old new).kept

  handle_all-Revoked :
      (cs : List Call) (h : String) (w : World env)
      → Revoked env h w
      → Revoked env h (handle_all cs w)
  handle_all-Revoked [] h w r = r
  handle_all-Revoked (c ∷ cs) h w r = handle_all-Revoked cs h (handle c w) (handle-Revoked c h w r)

  refresh-Revoked :
      (token : String) (context : Context) (raw : String) (now : ℕ) (w : World env)
      → Revoked env (env.hash_token token) w
      → refresh env token context raw now w ≡ (err (refused env), w)
  unfolding refresh
  refresh-Revoked token context raw now w r = ground (arith, r.found, r.off)

  after-Revoked :
      (token : String) (context : Context) (raw : String) (now : ℕ) (w : World env)
      (answer : Result TokenPair × World env)
      → Refreshed env token context raw now w answer
      → is_ok answer.0 ≡ true
      → Revoked env (env.hash_token token) answer.1
  after-Revoked token context raw now w (ok tokens, w')
        (t, f, live, valid, u, known, active, (same, fresh, old, other, users)) done =
      record { row = replaced env t raw; found = old; off = refl }
  after-Revoked token context raw now w (err e, w') h done = cc

  -- Once `refresh` has returned for a token, it throws for that token and changes nothing, whatever
  -- calls are handled in between, each as a whole. `cleanupExpiredTokens` is not among the calls.
  pub refresh-handle_all :
      (token : String) (context : Context) (raw : String) (now : ℕ) (w : World env)
      → is_ok (refresh env token context raw now w).0 ≡ true
      → (cs : List Call) (again : Context) (next : String) (later : ℕ)
      → let after = handle_all cs (refresh env token context raw now w).1 in
        refresh env token again next later after ≡ (err (refused env), after)
  refresh-handle_all token context raw now w done cs again next later =
      let answer = refresh env token context raw now w in
      refresh-Revoked token again next later (handle_all cs answer.1) (
        handle_all-Revoked cs (env.hash_token token) answer.1 (
          after-Revoked token context raw now w answer
            (refresh-Refreshed env token context raw now w) done))
