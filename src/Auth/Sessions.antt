-- ===== src/Auth/Sessions.antt =====
-- What `refresh` of backend/src/auth/auth.service.ts leaves.
use paya.Prelude.{
  ◌+◌, none, ℕ, String, true, false, Option, some, ◌≡◌, refl, arith, ◌||◌, ltb, str_eq, str_eq_iff,
  if◌then◌else◌, Option-cases, Bool-cases, inl, inr, subst,
}
use paya.Runtime.Action.{Result, Result-cases, ok, err, unauthorized, query_failed}
use paya.Auth.Types.{User, RefreshToken, TokenPair, Context, Setting, World}
use paya.Auth.Service.{issue_token_pair, rotate, refresh, replaced, new_refresh_token}

module _ (env : Setting) where
  abbrev pub token_of : String → World env → Option RefreshToken
  token_of h w = env.refresh_tokens.rows.find_one h w.refresh_tokens

  -- The new token is another row than the old one.
  rotate-apart :
      (old : RefreshToken) (token : String) (fresh : RefreshToken) (w : World env)
      (t : env.refresh_tokens.rows.Table)
      → token_of token w ≡ some old
      → env.refresh_tokens.rows.insert fresh w.refresh_tokens ≡ some t
      → str_eq fresh.token_hash token ≡ false
  rotate-apart old token fresh w t found added = elim (Bool-cases (str_eq fresh.token_hash token)) [
    | inl same ↦ absurd (
        ground (
          arith,
          found,
          str_eq_iff fresh.token_hash token,
          same,
          env.refresh_tokens.rows.insert-fresh fresh w.refresh_tokens t added,
        ))
    | inr apart ↦ apart
  ]

  find_one-rotate :
      (k : String) (old fresh : RefreshToken) (rows t : env.refresh_tokens.rows.Table)
      → env.refresh_tokens.rows.insert fresh rows ≡ some t
      → env.refresh_tokens.rows.find_one k (env.refresh_tokens.rows.save old t) ≡ (
          if str_eq old.token_hash k
          then some old
          else if str_eq fresh.token_hash k
          then some fresh
          else env.refresh_tokens.rows.find_one k rows)
  find_one-rotate k old fresh rows t added = ground (
    arith,
    env.refresh_tokens.rows.find_one-save k old t,
    env.refresh_tokens.rows.find_one-insert k fresh rows t added,
  )

  abbrev pub Rotated :
      String
      → RefreshToken
      → User
      → Context
      → String
      → ℕ
      → World env
      → Result TokenPair × World env
      → Type 0
  Rotated h t u context raw now w (ok tokens, w') =
      (tokens.refresh_token ≡ raw)
      × (token_of (env.hash_token raw) w'
          ≡ some (record {
            user_id = u.id;
            token_hash = env.hash_token raw;
            expires_at = now + 604800000;
            revoked = false;
            replaced_by_token_hash = none;
            user_agent = context.user_agent;
            ip_address = context.ip_address;
          }))
      × (token_of h w'
          ≡ some (record t { revoked = true; replaced_by_token_hash = some (env.hash_token raw) }))
      × ((k : String)
          → str_eq h k ≡ false
          → str_eq (env.hash_token raw) k ≡ false
          → token_of k w' ≡ token_of k w)
      × (w'.users ≡ w.users)
  Rotated h t u context raw now w (err e, w') = w' ≡ w

  rotate-Rotated :
      (h : String) (t : RefreshToken) (u : User) (context : Context) (raw : String) (now : ℕ)
      (w : World env)
      → token_of h w ≡ some t
      → Rotated h t u context raw now w (rotate env t u context raw now w)
  unfolding rotate issue_token_pair
  rotate-Rotated h t u context raw now w found = elim (Result-cases (env.sign u)) [
    | inr (jwt, signed) ↦
        let fresh = new_refresh_token env u context raw now in
        elim (Option-cases (env.refresh_tokens.rows.insert fresh w.refresh_tokens)) [
          | inl taken ↦
              let e : (err query_failed, w) ≡ rotate env t u context raw now w =
                ground (arith, signed, taken) in
              subst (Rotated h t u context raw now w) e refl
          | inr (rows, added) ↦
              let apart = rotate-apart t h fresh w rows found added in
              let same = env.refresh_tokens.rows.key-find_one h t w.refresh_tokens found in
              let row = λ (k : String).
                find_one-rotate k (replaced env t raw) fresh w.refresh_tokens rows added in
              let e : t.token_hash ≡ h = (str_eq_iff t.token_hash h).0 same in
              let w' : World env = record w {
                refresh_tokens = env.refresh_tokens.rows.save (replaced env t raw) rows;
              } in
              let tokens : TokenPair = record {
                access_token = jwt;
                refresh_token = raw;
                expires_in = env.expires_in;
              } in
              let done : (ok tokens, w') ≡ rotate env t u context raw now w =
                ground (arith, signed, added) in
              subst (Rotated h t u context raw now w) done (
                refl,
                ground (
                  arith,
                  row (env.hash_token raw),
                  e,
                  str_eq_iff h (env.hash_token raw),
                  str_eq_iff (env.hash_token raw) h,
                  str_eq_iff (env.hash_token raw) (env.hash_token raw),
                  apart,
                ),
                ground (arith, row h, same),
                λ k old new. ground (arith, row k, e, old, new),
                refl,
              )
        ]
    | inl (e, refused) ↦ rw refused refl
  ]

  abbrev pub Refreshed :
      String → Context → String → ℕ → World env → Result TokenPair × World env → Type 0
  Refreshed token context raw now w (ok tokens, w') =
      (t : RefreshToken) × (token_of (env.hash_token token) w ≡ some t)
      × (t.revoked ≡ false)
      × (ltb t.expires_at now ≡ false)
      × (u : User) × (env.users.find_one t.user_id w.users ≡ some u)
      × (u.is_active ≡ true)
      × Rotated (env.hash_token token) t u context raw now w (ok tokens, w')
  Refreshed token context raw now w (err e, w') = w' ≡ w

  Refreshed-rotate :
      (token : String) (context : Context) (raw : String) (now : ℕ) (w : World env)
      (t : RefreshToken) (u : User)
      → token_of (env.hash_token token) w ≡ some t
      → (t.revoked || ltb t.expires_at now) ≡ false
      → env.users.find_one t.user_id w.users ≡ some u
      → u.is_active ≡ true
      → (answer : Result TokenPair × World env)
      → Rotated (env.hash_token token) t u context raw now w answer
      → Refreshed token context raw now w answer
  Refreshed-rotate token context raw now w t u found good known active (ok tokens, w') h =
      (t, found, ground (arith, good), ground (arith, good), u, known, active, h)
  Refreshed-rotate token context raw now w t u found good known active (err e, w') h = h

  -- `refresh` that returns was given a token whose row is neither revoked nor expired and whose user
  -- is active. Afterwards that row is revoked and names its replacement, the new token has a row that
  -- is not revoked, every other row is as before, and so are the users. If it throws, nothing has
  -- changed.
  pub refresh-Refreshed :
      (token : String) (context : Context) (raw : String) (now : ℕ) (w : World env)
      → Refreshed token context raw now w (refresh env token context raw now w)
  unfolding refresh
  refresh-Refreshed token context raw now w =
      let answer = refresh env token context raw now w in
      elim (Option-cases (token_of (env.hash_token token) w)) [
        | inl absent ↦ ground (arith, absent)
        | inr (t, found) ↦ elim (Bool-cases (t.revoked || ltb t.expires_at now)) [
          | inl bad ↦
              let e : (err (unauthorized "Invalid or expired refresh token"), w) ≡ answer =
                ground (arith, found, bad) in
              subst (Refreshed token context raw now w) e refl
          | inr good ↦ elim (Option-cases (env.users.find_one t.user_id w.users)) [
            | inl lost ↦
                let e : (err (unauthorized "Invalid or expired refresh token"), w) ≡ answer =
                  ground (arith, found, good, lost) in
                subst (Refreshed token context raw now w) e refl
            | inr (u, known) ↦ elim (Bool-cases u.is_active) [
              | inr inactive ↦
                  let e : (err (unauthorized "Invalid or expired refresh token"), w) ≡ answer =
                    ground (arith, found, good, known, inactive) in
                  subst (Refreshed token context raw now w) e refl
              | inl active ↦
                  let e : rotate env t u context raw now w ≡ answer =
                    ground (arith, found, good, known, active) in
                  subst (Refreshed token context raw now w) e (
                    Refreshed-rotate token context raw now w t u found good known active
                      (rotate env t u context raw now w)
                      (rotate-Rotated (env.hash_token token) t u context raw now w found))
            ]
          ]
        ]
      ]
