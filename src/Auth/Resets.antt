-- ===== src/Auth/Resets.antt =====
-- What `resetPassword` of backend/src/auth/auth.service.ts leaves.
use paya.Prelude.{
  ℕ, String, true, false, some, ◌≡◌, refl, arith, ◌||◌, ltb, str_eq, if◌then◌else◌, Option-cases,
  Bool-cases, inl, inr, subst,
}
use paya.Runtime.Action.{Result, ok, err, unauthorized}
use paya.Auth.Types.{User, RefreshToken, PasswordResetToken, Setting, World}
use paya.Auth.Service.{set_password, reset_password, logout_all, revoke, is_live_of}
use paya.Auth.Sessions.{token_of}

module _ (env : Setting) where
  abbrev pub Reset : String → String → ℕ → World env → Result (Unit {0}) × World env → Type 0
  Reset token new_password now w (ok x, w') =
      (t : PasswordResetToken) × (env.reset_tokens.find_one (env.hash_token token) w.reset_tokens
        ≡ some t)
      × (t.used ≡ false)
      × (ltb t.expires_at now ≡ false)
      × (u : User) × (env.users.find_one t.user_id w.users ≡ some u)
      × (env.users.find_one t.user_id w'.users
          ≡ some (record u { password_hash = env.hash_password new_password }))
      × (env.reset_tokens.find_one (env.hash_token token) w'.reset_tokens
          ≡ some (record t { used = true }))
      × ((h : String) (r : RefreshToken)
          → token_of env h w' ≡ some r
          → str_eq r.user_id u.id ≡ true
          → r.revoked ≡ true)
      × (w'.mails ≡ w.mails)
  Reset token new_password now w (err e, w') = w' ≡ w

  -- Of a user who was logged out everywhere every token is revoked.
  revoked-update_by :
      (id h : String) (rows : env.refresh_tokens.rows.Table) (r : RefreshToken)
      → env.refresh_tokens.rows.find_one h
          (env.refresh_tokens.update_by (is_live_of id) revoke rows)
        ≡ some r
      → str_eq r.user_id id ≡ true
      → r.revoked ≡ true
  revoked-update_by id h rows r found mine =
      let law = env.refresh_tokens.find_one-update_by (is_live_of id) revoke (λ t. refl) h rows in
      elim (Option-cases (env.refresh_tokens.rows.find_one h rows)) [
        | inl absent ↦ ground (arith, absent, law, found)
        | inr (t, known) ↦
            let e : (if is_live_of id t then revoke t else t) ≡ r =
              ground (arith, known, law, found) in
            elim (Bool-cases (str_eq t.user_id id)) [
              | inl same ↦ elim (Bool-cases t.revoked) [
                | inl off ↦ ground (arith, e, same, off)
                | inr on ↦ ground (arith, e, same, on)
              ]
              | inr other ↦ ground (arith, e, other, mine)
            ]
      ]

  set_password-Reset :
      (token new_password : String) (now : ℕ) (w : World env) (t : PasswordResetToken) (u : User)
      → env.reset_tokens.find_one (env.hash_token token) w.reset_tokens ≡ some t
      → (t.used || ltb t.expires_at now) ≡ false
      → env.users.find_one t.user_id w.users ≡ some u
      → Reset token new_password now w (set_password env t u new_password w)
  unfolding set_password logout_all
  set_password-Reset token new_password now w t u found good known =
      let u' : User = record u { password_hash = env.hash_password new_password } in
      let t' : PasswordResetToken = record t { used = true } in
      (
        t,
        found,
        ground (arith, good),
        ground (arith, good),
        u,
        known,
        ground (
          arith,
          env.users.key-find_one t.user_id u w.users known,
          env.users.find_one-save t.user_id u' w.users,
        ),
        ground (
          arith,
          env.reset_tokens.key-find_one (env.hash_token token) t w.reset_tokens found,
          env.reset_tokens.find_one-save (env.hash_token token) t' w.reset_tokens,
        ),
        λ h r left mine. revoked-update_by u.id h w.refresh_tokens r left mine,
        refl,
      )

  -- `resetPassword` that returns was given a token that is neither used nor expired, of a user who
  -- exists. Afterwards the user has the new password, the token is used, and every refresh token of
  -- the user is revoked. If it throws, nothing has changed.
  pub reset_password-Reset :
      (token new_password : String) (now : ℕ) (w : World env)
      → Reset token new_password now w (reset_password env token new_password now w)
  unfolding reset_password
  reset_password-Reset token new_password now w =
      let answer = reset_password env token new_password now w in
      let refusal = unauthorized "Invalid or expired password reset token" in
      elim (Option-cases (env.reset_tokens.find_one (env.hash_token token) w.reset_tokens)) [
        | inl absent ↦ ground (arith, absent)
        | inr (t, found) ↦ elim (Bool-cases (t.used || ltb t.expires_at now)) [
          | inl bad ↦
              let e : (err refusal, w) ≡ answer = ground (arith, found, bad) in
              subst (Reset token new_password now w) e refl
          | inr good ↦ elim (Option-cases (env.users.find_one t.user_id w.users)) [
            | inl lost ↦
                let e : (err refusal, w) ≡ answer = ground (arith, found, good, lost) in
                subst (Reset token new_password now w) e refl
            | inr (u, known) ↦
                let e : set_password env t u new_password w ≡ answer =
                  ground (arith, found, good, known) in
                subst (Reset token new_password now w) e
                  (set_password-Reset token new_password now w t u found good known)
          ]
        ]
      ]
