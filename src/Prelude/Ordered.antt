-- ===== src/Prelude/Ordered.antt =====
-- Lists in the order of a key: what is counted, kept and taken of them.
use Prim.Native.Nat.{ℕ, zero, suc, ◌≤◌, ◌<◌}
use mathlib.Core.Path.{◌≡◌, refl, ap}
use mathlib.Core.Logic.{inl, inr}
use mathlib.Core.Bool.{Bool}
use mathlib.Core.List.{List, [], ◌∷◌, ◌++◌}
use native.Mathlib.Omega.{arith}
use paya.Prelude.Tests.{if◌then◌else◌, leb, ◌==◌, Bool-cases}
use paya.Prelude.Lists.{length, keep}

module _ {ℓ} {A : Type ℓ} where
  abbrev pub take : ℕ → List A → List A
  take zero xs = []
  take (suc n) [] = []
  take (suc n) (x ∷ xs) = x ∷ take n xs

  abbrev pub drop : ℕ → List A → List A
  drop zero xs = xs
  drop (suc n) [] = []
  drop (suc n) (x ∷ xs) = drop n xs

  abbrev pub count : (A → Bool) → List A → ℕ
  count p [] = 0
  count p (x ∷ xs) = if p x then suc (count p xs) else count p xs

  pub take-append-drop : (n : ℕ) (xs : List A) → take n xs ++ drop n xs ≡ xs
  take-append-drop zero xs = refl
  take-append-drop (suc n) [] = refl
  take-append-drop (suc n) (x ∷ xs) = ap (λ t. x ∷ t) (take-append-drop n xs)

  pub length-drop-le : (n : ℕ) (xs : List A) → length (drop n xs) ≤ length xs
  length-drop-le zero xs = omega arith
  length-drop-le (suc n) [] = omega arith
  length-drop-le (suc n) (x ∷ xs) = omega (arith, length-drop-le n xs)

module _ {ℓ} {A : Type ℓ} (key : A → ℕ) where
  -- No key is below `b`, and none is below the one before it.
  abbrev pub Ascending : ℕ → List A → Type 0
  Ascending b [] = Unit
  Ascending b (x ∷ xs) = (b ≤ key x) × Ascending (key x) xs

  -- Every key is above `b` and above the one before it.
  abbrev pub Strict : ℕ → List A → Type 0
  Strict b [] = Unit
  Strict b (x ∷ xs) = (b < key x) × Strict (key x) xs

  abbrev pub from : ℕ → A → Bool
  from v x = leb v (key x)

  pub Strict-mono : (a b : ℕ) (xs : List A) → a ≤ b → Strict b xs → Strict a xs
  Strict-mono a b [] h s = tt
  Strict-mono a b (x ∷ xs) h s = (omega (arith, s), s.1)

  -- Everything above a bound is kept.
  pub keep-from_all : (v b : ℕ) (xs : List A) → v ≤ suc b → Strict b xs → keep (from v) xs ≡ xs
  keep-from_all v b [] h s = refl
  keep-from_all v b (x ∷ xs) h s =
      ground (arith, h, s, keep-from_all v (key x) xs (omega (arith, h, s)) s.1)

  pub keep-from_from :
      (v w : ℕ) (xs : List A) → v ≤ w → keep (from w) (keep (from v) xs) ≡ keep (from w) xs
  keep-from_from v w [] h = refl
  keep-from_from v w (x ∷ xs) h = ground (arith, h, keep-from_from v w xs h)

  pub Strict-keep : (p : A → Bool) (b : ℕ) (xs : List A) → Strict b xs → Strict b (keep p xs)
  Strict-keep p b [] s = tt
  Strict-keep p b (x ∷ xs) s = ground (
    arith,
    s,
    Strict-keep p (key x) xs s.1,
    Strict-mono b (key x) (keep p xs) (omega (arith, s)) (Strict-keep p (key x) xs s.1),
  )

  abbrev pub at_key : ℕ → A → Bool
  at_key v x = key x == v

  -- No key below the bound of an ascending list.
  count-below : (v b : ℕ) (xs : List A) → v < b → Ascending b xs → count (at_key v) xs ≡ 0
  count-below v b [] h s = refl
  count-below v b (x ∷ xs) h s =
      ground (arith, h, s, count-below v (key x) xs (omega (arith, h, s)) s.1)

  -- An ascending list in which each key occurs at most once, and none up to `b`.
  pub Strict-of_counts :
      (b c : ℕ) (xs : List A)
      → Ascending c xs
      → ((v : ℕ) → count (at_key v) xs ≤ (if leb v b then 0 else 1))
      → Strict b xs
  Strict-of_counts b c [] s h = tt
  Strict-of_counts b c (x ∷ xs) s h =
      let above : b < key x = ground (arith, h (key x)) in
      (
        above,
        Strict-of_counts (key x) (key x) xs s.1 λ v. elim (Bool-cases (leb v (key x))) [
          | inl le ↦ ground (arith, le, h v, above, count-below v (key x) xs)
          | inr gt ↦ ground (arith, h v, gt)
        ],
      )

  pub keep-below : (m n : ℕ) (xs : List A) → m ≤ n → Strict n xs → keep (λ x. leb (key x) m) xs ≡ []
  keep-below m n [] h s = refl
  keep-below m n (x ∷ xs) h s =
      ground (arith, h, s, keep-below m (key x) xs (omega (arith, h, s)) s.1)
