-- ===== src/Prelude/Mapped.antt =====
-- The image of an ordered list, and its length as a count.
use Prim.Native.Nat.{ℕ, zero, suc}
use mathlib.Core.Path.{◌≡◌, refl, ap}
use mathlib.Core.Bool.{Bool, true}
use mathlib.Core.List.{List, [], ◌∷◌, map}
use native.Mathlib.Omega.{arith}
use paya.Prelude.Lists.{length, keep}
use paya.Prelude.Ordered.{take, count, Strict}
use paya.Prelude.Digits.{Spaced}

module _ {A B : Type 0} (f : A → B) where
  pub map-take : (n : ℕ) (xs : List A) → map f (take n xs) ≡ take n (map f xs)
  map-take zero xs = refl
  map-take (suc n) [] = refl
  map-take (suc n) (x ∷ xs) = ap (λ t. f x ∷ t) (map-take n xs)

  pub map-keep : (p : B → Bool) (xs : List A) → map f (keep (λ x. p (f x)) xs) ≡ keep p (map f xs)
  map-keep p [] = refl
  map-keep p (x ∷ xs) = ground (arith, map-keep p xs)

  pub Strict-map :
      (key : B → ℕ) (b : ℕ) (xs : List A) → Strict (λ x. key (f x)) b xs → Strict key b (map f xs)
  Strict-map key b [] s = tt
  Strict-map key b (x ∷ xs) s = (s.0, Strict-map key (key (f x)) xs s.1)

  pub Spaced-map :
      (key : B → ℕ) (b : ℕ) (xs : List A) → Spaced (λ x. key (f x)) b xs → Spaced key b (map f xs)
  Spaced-map key b [] s = tt
  Spaced-map key b (x ∷ xs) s = (s.0, Spaced-map key (key (f x)) xs s.1)

pub length-count : {A : Type 0} (xs : List A) → length xs ≡ count (λ x. true) xs
length-count [] = refl
length-count (x ∷ xs) = ap suc (length-count xs)
