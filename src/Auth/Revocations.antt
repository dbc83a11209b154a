-- ===== src/Auth/Revocations.antt =====
-- A revoked token, and what keeps it revoked.
use paya.Prelude.{
  ℕ, String, Bool, true, Option, none, some, ◌≡◌, refl, arith, str_eq, str_eq_iff, if◌then◌else◌,
  Option-cases, inl, inr, subst,
}
use paya.Runtime.Action.{
  ◌>>=◌, Action, Error, or_throw, throw_if, Result, Result-cases, ok, err, unauthorized,
}
use paya.Auth.Types.{User, RefreshToken, Context, Setting, World}
use paya.Auth.Service.{issue_token_pair, new_refresh_token, revoke}
use paya.Auth.Sessions.{token_of}

module _ (env : Setting) where
  pub record Revoked (h : String) (w : World env) : Type 0 where
    pub row : RefreshToken
    pub found : token_of env h w ≡ some row
    pub off : row.revoked ≡ true

  pub update_by-Revoked :
      (p : RefreshToken → Bool) (h : String) (w w' : World env)
      → w'.refresh_tokens ≡ env.refresh_tokens.update_by p revoke w.refresh_tokens
      → Revoked h w
      → Revoked h w'
  update_by-Revoked p h w w' e r =
      let law = env.refresh_tokens.find_one-update_by p revoke (λ t. refl) h w.refresh_tokens in
      record {
        row = if p r.row then revoke r.row else r.row;
        found = ground (arith, e, law, r.found);
        off = ground (arith, r.off);
      }

  -- An insert is of another row than one that is there.
  pub insert-Revoked :
      (fresh : RefreshToken) (h : String) (w w' : World env)
      → env.refresh_tokens.rows.insert fresh w.refresh_tokens ≡ some w'.refresh_tokens
      → Revoked h w
      → Revoked h w'
  insert-Revoked fresh h w w' e r = record {
    row = r.row;
    found = ground (
      arith,
      r.found,
      str_eq_iff fresh.token_hash h,
      env.refresh_tokens.rows.insert-fresh fresh w.refresh_tokens w'.refresh_tokens e,
      env.refresh_tokens.rows.find_one-insert h fresh w.refresh_tokens w'.refresh_tokens e,
    );
    off = r.off;
  }

  pub same-Revoked :
      (h : String) (w w' : World env)
      → w'.refresh_tokens ≡ w.refresh_tokens
      → Revoked h w
      → Revoked h w'
  same-Revoked h w w' e r = record { row = r.row; found = ground (arith, e, r.found); off = r.off }

  pub issue_token_pair-Revoked :
      (u : User) (context : Context) (raw : String) (now : ℕ) (h : String) (w : World env)
      → Revoked h w
      → Revoked h (issue_token_pair env u context raw now w).1
  unfolding issue_token_pair
  issue_token_pair-Revoked u context raw now h w r = elim (Result-cases (env.sign u)) [
    | inl (e, refused) ↦ rw refused r
    | inr (jwt, signed) ↦
        let fresh = new_refresh_token env u context raw now in
        let after = (issue_token_pair env u context raw now w).1 in
        elim (Option-cases (env.refresh_tokens.rows.insert fresh w.refresh_tokens)) [
          | inl taken ↦ let e : w ≡ after = ground (arith, signed, taken) in subst (Revoked h) e r
          | inr (rows, added) ↦
              let w' : World env = record w { refresh_tokens = rows } in
              let e : w' ≡ after = ground (arith, signed, added) in
              subst (Revoked h) e (insert-Revoked fresh h w w' added r)
        ]
  ]

  pub save-Revoked :
      (t : RefreshToken) (h : String) (w : World env)
      → t.revoked ≡ true
      → Revoked h w
      → Revoked h (record w { refresh_tokens = env.refresh_tokens.rows.save t w.refresh_tokens })
  save-Revoked t h w off r = record {
    row = if str_eq t.token_hash h then t else r.row;
    found = ground (arith, env.refresh_tokens.rows.find_one-save h t w.refresh_tokens, r.found);
    off = ground (arith, off, r.off);
  }

  abbrev pub refused : Error
  refused = unauthorized "Invalid or expired refresh token"

  -- What keeps every revoked token revoked, whether it returns or throws.
  pub record Keeps {A : Type 0} (m : Action (World env) A) : Type 0 where
    pub kept : (h : String) (w : World env) → Revoked h w → Revoked h (m w).1

  pub bind-Revoked :
      {A B : Type 0} (k : A → Action (World env) B) (h : String) (answer : Result A × World env)
      → Revoked h answer.1
      → ((a : A) → Keeps (k a))
      → Revoked h (((λ (w : World env). answer) >>= k) answer.1).1
  bind-Revoked k h (err e, w) r rest = r
  bind-Revoked k h (ok a, w) r rest = (rest a).kept h w r

  pub then-Keeps :
      {A B : Type 0} (m : Action (World env) A) (k : A → Action (World env) B)
      → Keeps m
      → ((a : A) → Keeps (k a))
      → Keeps (m >>= k)
  then-Keeps m k start rest = record {
    kept = λ h w r. bind-Revoked k h (m w) (start.kept h w r) rest;
  }

  pub quiet-Keeps :
      {A : Type 0} (m : Action (World env) A)
      → ((w : World env) → (m w).1.refresh_tokens ≡ w.refresh_tokens)
      → Keeps m
  quiet-Keeps m same = record { kept = λ h w r. same-Revoked h w (m w).1 (same w) r }

  pub issue-Keeps :
      (u : User) (context : Context) (raw : String) (now : ℕ)
      → Keeps (issue_token_pair env u context raw now)
  issue-Keeps u context raw now = record { kept = issue_token_pair-Revoked u context raw now }

  pub or_throw-Keeps :
      {A : Type 0} (o : Option A) (e : Error) → Keeps (or_throw {S = World env} o e)
  or_throw-Keeps none e = quiet-Keeps _ (λ w. refl)
  or_throw-Keeps (some a) e = quiet-Keeps _ (λ w. refl)

  pub throw_if-Keeps : (c : Bool) (e : Error) → Keeps (throw_if {S = World env} c e)
  throw_if-Keeps c e = quiet-Keeps _ (λ w. refl)
