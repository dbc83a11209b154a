-- ===== src/Auth/Keeping.antt =====
-- Every call of the service keeps the revoked tokens revoked.
use paya.Prelude.{is_some, ℕ, String, not, Option, none, some, refl, arith, Option-cases, inl, inr}
use paya.Runtime.Action.{gets, pure, conflict, or_throw, throw_if, unauthorized}
use paya.Auth.Types.{PasswordResetToken, User, RefreshToken, RegisterDto, Context, Setting}
use paya.Auth.Service.{
  issue_token_pair, register, login, refresh, logout, logout_all, send_reset, forgot_password,
  reset_password, set_password, change_password, rotate, replaced, has_hash, is_live_of,
  to_safe_user, is_usable, is_active_user, find_user, find_by_email, save_user, insert_user,
  new_user, use_reset_token, is_open, save_replaced, is_password,
}
use paya.Auth.Sessions.{token_of}
use paya.Auth.Revocations.{
  Keeps, refused, update_by-Revoked, save-Revoked, issue-Keeps, then-Keeps, quiet-Keeps,
  or_throw-Keeps, throw_if-Keeps,
}

module _ (env : Setting) where
  pub rotate-Keeps :
      (t : RefreshToken) (u : User) (context : Context) (raw : String) (now : ℕ)
      → Keeps env (rotate env t u context raw now)
  unfolding rotate
  rotate-Keeps t u context raw now =
      then-Keeps env (issue_token_pair env u context raw now) (save_replaced env t raw)
        (issue-Keeps env u context raw now)
        (λ tokens. record { kept = λ h w r. save-Revoked env (replaced env t raw) h w refl r })

  pub refresh-Keeps :
      (token : String) (context : Context) (raw : String) (now : ℕ)
      → Keeps env (refresh env token context raw now)
  unfolding refresh
  refresh-Keeps token context raw now =
      then-Keeps env (gets (token_of env (env.hash_token token))) _ (quiet-Keeps env _ (λ w. refl))
        (λ found.
          then-Keeps env (or_throw (is_usable env now found) (refused env)) _
            (or_throw-Keeps env _ _)
            (λ stored.
              then-Keeps env (find_user env stored.user_id) _ (quiet-Keeps env _ (λ w. refl))
                (λ owner.
                  then-Keeps env (or_throw (is_active_user env owner) (refused env)) _
                    (or_throw-Keeps env _ _) (λ u. rotate-Keeps stored u context raw now))))

  pub logout_all-Keeps : (id : String) → Keeps env (logout_all env id)
  unfolding logout_all
  logout_all-Keeps id = record {
    kept = λ h w r. update_by-Revoked env (is_live_of id) h w (logout_all env id w).1 refl r;
  }

  pub logout-Keeps : (token : String) → Keeps env (logout env token)
  unfolding logout
  logout-Keeps token = record {
    kept = λ h w r.
        update_by-Revoked env (has_hash (env.hash_token token)) h w (logout env token w).1 refl r;
  }

  pub insert_user-Keeps : (u : User) → Keeps env (insert_user env u)
  insert_user-Keeps u = quiet-Keeps env _ (λ w. elim (Option-cases (env.users.insert u w.users)) [
    | inl taken ↦ rw (insert_user, taken) refl
    | inr (t, added) ↦ rw (insert_user, added) refl
  ])

  pub register-Keeps :
      (dto : RegisterDto) (context : Context) (id raw : String) (now : ℕ)
      → Keeps env (register env dto context id raw now)
  unfolding register
  register-Keeps dto context id raw now =
      let u = new_user env dto id now in
      then-Keeps env (find_by_email env dto.email) _ (quiet-Keeps env _ (λ w. refl)) (λ existing.
        then-Keeps env
          (throw_if (is_some existing) (conflict "An account with this email already exists")) _
          (throw_if-Keeps env _ _)
          (λ x. then-Keeps env (insert_user env u) _ (insert_user-Keeps u) (λ y.
            then-Keeps env (issue_token_pair env u context raw now)
              (λ tokens. pure (to_safe_user u, tokens)) (issue-Keeps env u context raw now)
              (λ tokens. quiet-Keeps env _ (λ w. refl)))))

  pub login-Keeps :
      (email password : String) (context : Context) (raw : String) (now : ℕ)
      → Keeps env (login env email password context raw now)
  unfolding login
  login-Keeps email password context raw now =
      then-Keeps env (find_by_email env email) _ (quiet-Keeps env _ (λ w. refl)) (λ found.
        then-Keeps env
          (or_throw (is_password env password found) (unauthorized "Invalid email or password")) _
          (or_throw-Keeps env _ _)
          (λ u.
            let seen : User = record u { last_login_at = some now } in
            then-Keeps env
              (throw_if (not u.is_active) (unauthorized "This account has been deactivated")) _
              (throw_if-Keeps env _ _)
              (λ x. then-Keeps env (save_user env seen) _ (quiet-Keeps env _ (λ w. refl)) (λ y.
                then-Keeps env (issue_token_pair env seen context raw now)
                  (λ tokens. pure (to_safe_user seen, tokens))
                  (issue-Keeps env seen context raw now)
                  (λ tokens. quiet-Keeps env _ (λ w. refl))))))

  pub send_reset-Keeps :
      (o : Option User) (raw : String) (now : ℕ) → Keeps env (send_reset env o raw now)
  unfolding send_reset
  send_reset-Keeps none raw now = quiet-Keeps env _ (λ w. refl)
  send_reset-Keeps (some u) raw now = quiet-Keeps env _ (λ w. ground (arith))

  pub forgot-Keeps : (email raw : String) (now : ℕ) → Keeps env (forgot_password env email raw now)
  unfolding forgot_password
  forgot-Keeps email raw now =
      then-Keeps env (find_by_email env email) _ (quiet-Keeps env _ (λ w. refl))
        (λ u. send_reset-Keeps u raw now)

  pub set_password-Keeps :
      (t : PasswordResetToken) (u : User) (password : String)
      → Keeps env (set_password env t u password)
  unfolding set_password
  set_password-Keeps t u password =
      let u' : User = record u { password_hash = env.hash_password password } in
      then-Keeps env (save_user env u') _ (quiet-Keeps env _ (λ w. refl)) (λ x.
        then-Keeps env (use_reset_token env t) _ (quiet-Keeps env _ (λ w. refl))
          (λ y. logout_all-Keeps u.id))

  pub reset-Keeps :
      (token password : String) (now : ℕ) → Keeps env (reset_password env token password now)
  unfolding reset_password
  reset-Keeps token password now =
      let refusal = unauthorized "Invalid or expired password reset token" in
      then-Keeps env (gets (λ w. env.reset_tokens.find_one (env.hash_token token) w.reset_tokens)) _
        (quiet-Keeps env _ (λ w. refl))
        (λ found.
          then-Keeps env (or_throw (is_open env now found) refusal) _ (or_throw-Keeps env _ _) (λ t.
            then-Keeps env (find_user env t.user_id) _ (quiet-Keeps env _ (λ w. refl)) (λ owner.
              then-Keeps env (or_throw owner refusal) _ (or_throw-Keeps env _ _)
                (λ u. set_password-Keeps t u password))))

  pub change-Keeps : (id old new : String) → Keeps env (change_password env id old new)
  unfolding change_password
  change-Keeps id old new =
      then-Keeps env (find_user env id) _ (quiet-Keeps env _ (λ w. refl)) (λ found.
        then-Keeps env
          (or_throw (is_password env old found) (unauthorized "Current password is incorrect")) _
          (or_throw-Keeps env _ _)
          (λ u.
            then-Keeps env (save_user env (record u { password_hash = env.hash_password new })) _
              (quiet-Keeps env _ (λ w. refl)) (λ x. logout_all-Keeps u.id)))
