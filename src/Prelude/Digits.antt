-- ===== src/Prelude/Digits.antt =====
-- Lists whose keys grow by a decimal digit at least: each is ten times the one before plus one, or more.
use Prim.Native.Nat.{ℕ, suc, ◌+◌, ◌*◌, ◌≤◌, ◌<◌}
use mathlib.Core.Path.{◌≡◌, refl}
use mathlib.Core.Logic.{inl, inr}
use mathlib.Core.Bool.{Bool}
use mathlib.Core.List.{List, [], ◌∷◌}
use native.Mathlib.Omega.{arith}
use paya.Prelude.Tests.{◌==◌, Bool-cases}
use paya.Prelude.Lists.{keep}
use paya.Prelude.Ordered.{Strict, from, at_key, count, keep-from_all}

module _ {A : Type 0} (key : A → ℕ) where
  abbrev pub Spaced : ℕ → List A → Type 0
  Spaced b [] = Unit
  Spaced b (x ∷ xs) = (10 * b + 1 ≤ key x) × Spaced (key x) xs

  pub Strict-of_Spaced : (b : ℕ) (xs : List A) → Spaced b xs → Strict key b xs
  Strict-of_Spaced b [] s = tt
  Strict-of_Spaced b (x ∷ xs) s = (omega (arith, s), Strict-of_Spaced (key x) xs s.1)

  -- The keys above a key `b` are those from ten times it plus one on.
  pub keep-after : (b : ℕ) (xs : List A) → Spaced b xs → keep (from key (10 * b + 1)) xs ≡ xs
  keep-after b [] s = refl
  keep-after b (x ∷ xs) s = ground (
    arith,
    s,
    keep-from_all key (10 * b + 1) (key x) xs (omega (arith, s)) (Strict-of_Spaced (key x) xs s.1),
  )

  Spaced-mono : (a b : ℕ) (xs : List A) → a ≤ b → Spaced b xs → Spaced a xs
  Spaced-mono a b [] h s = tt
  Spaced-mono a b (x ∷ xs) h s = (omega (arith, s, h), s.1)

  pub Spaced-keep : (p : A → Bool) (b : ℕ) (xs : List A) → Spaced b xs → Spaced b (keep p xs)
  Spaced-keep p b [] s = tt
  Spaced-keep p b (x ∷ xs) s = ground (
    arith,
    s,
    Spaced-keep p (key x) xs s.1,
    Spaced-mono b (key x) (keep p xs) (omega (arith, s)) (Spaced-keep p (key x) xs s.1),
  )

  pub count-above : (b v : ℕ) (xs : List A) → Strict key b xs → 1 ≤ count (at_key key v) xs → b < v
  count-above b v [] s h = absurd (omega (arith, h))
  count-above b v (x ∷ xs) s h = elim (Bool-cases (key x == v)) [
    | inl hit ↦ ground (arith, hit, s)
    | inr miss ↦ ground (arith, s, h, miss, count-above (key x) v xs s.1)
  ]

  -- The next numeral after a key is no later than ten times it plus one.
  pub keep-next :
      (v b : ℕ) (xs : List A)
      → Spaced b xs
      → 1 ≤ count (at_key key v) xs
      → keep (from key (10 * v + 1)) xs ≡ keep (from key (suc v)) xs
  keep-next v b [] s h = refl
  keep-next v b (x ∷ xs) s h = elim (Bool-cases (key x == v)) [
    | inl hit ↦
        let e : key x ≡ v = ground (arith, hit) in
        let all = keep-after (key x) xs s.1 in
        let also =
          keep-from_all key (suc (key x)) (key x) xs (omega arith)
            (Strict-of_Spaced (key x) xs s.1) in
        ground (arith, e, all, also)
    | inr miss ↦
        let rest : 1 ≤ count (at_key key v) xs = ground (arith, h, miss) in
        ground (
          arith,
          miss,
          count-above (key x) v xs (Strict-of_Spaced (key x) xs s.1) rest,
          keep-next v (key x) xs s.1 rest,
        )
  ]

  -- Keys that are there at most once, and of which any two are that far apart.
  pub Spaced-of_Strict :
      (b : ℕ) (xs : List A)
      → Strict key b xs
      → ((w : ℕ) → 1 ≤ count (at_key key w) xs → 10 * b + 1 ≤ w)
      → ((v w : ℕ)
          → 1 ≤ count (at_key key v) xs
          → 1 ≤ count (at_key key w) xs
          → v < w
          → 10 * v + 1 ≤ w)
      → Spaced b xs
  Spaced-of_Strict b [] s first apart = tt
  Spaced-of_Strict b (x ∷ xs) s first apart = (
    first (key x) (ground arith),
    Spaced-of_Strict (key x) xs s.1
        (λ w h. apart (key x) w (ground arith) (ground (arith, h)) (count-above (key x) w xs s.1 h))
        (λ v w hv hw. apart v w (ground (arith, hv)) (ground (arith, hw))),
  )
