-- ===== src/Prelude/Lists.antt =====
-- Lists over the native numbers, and the array methods that the source calls.
use Prim.Native.Nat.{ℕ, suc, ◌+◌, ◌≤◌}
use mathlib.Core.Path.{◌≡◌, refl, ap}
use mathlib.Core.Bool.{Bool-set, Bool, true, false, ◌&&◌, ◌||◌}
use mathlib.Core.Logic.{◌⊎◌, inl, inr}
use mathlib.Core.Logic.Or
use mathlib.Core.HLevel.{×_prop}
use mathlib.Core.List.{
  Mem, mem-cons, mem-cons_self, mem-cons_of_mem, not-mem-nil, Mem-prop, List, [], ◌∷◌, ◌++◌, map,
}
use mathlib.Core.Option.{Option, none, some}
use native.Mathlib.Omega.{arith}
use paya.Prelude.Tests.{if◌then◌else◌, Bool-cases}

module _ {ℓ} {A : Type ℓ} where
  abbrev pub length : List A → ℕ
  length [] = 0
  length (x ∷ xs) = suc (length xs)

  pub List-cases : (xs : List A) → (xs ≡ []) ⊎ ((x : A) × (r : List A) × (xs ≡ x ∷ r))
  List-cases [] = inl refl
  List-cases (x ∷ xs) = inr (x, xs, refl)

  -- `xs.every(p)`
  abbrev pub every : (A → Bool) → List A → Bool
  every p [] = true
  every p (x ∷ xs) = p x && every p xs

  -- `xs.some(p)`
  abbrev pub any : (A → Bool) → List A → Bool
  any p [] = false
  any p (x ∷ xs) = p x || any p xs

  -- `xs.find(p)`
  abbrev pub find : (A → Bool) → List A → Option A
  find p [] = none
  find p (x ∷ xs) = if p x then some x else find p xs

  -- An assignment to a field of the object that `xs.find(p)` returned: the first element that
  -- passes is changed in place.
  abbrev pub update_first : (A → Bool) → (A → A) → List A → List A
  update_first p f [] = []
  update_first p f (x ∷ xs) = if p x then f x ∷ xs else x ∷ update_first p f xs

  -- `xs.filter(p)`
  abbrev pub keep : (A → Bool) → List A → List A
  keep p [] = []
  keep p (x ∷ xs) = if p x then x ∷ keep p xs else keep p xs

  -- A predicate of every element.
  abbrev pub All {κ} : (A → Type κ) → List A → Type κ
  All P [] = Unit
  All P (x ∷ xs) = P x × All P xs

  pub length-append : (xs ys : List A) → length (xs ++ ys) ≡ length xs + length ys
  length-append [] ys = omega arith
  length-append (x ∷ xs) ys = omega (arith, length-append xs ys)

  pub keep-keep : (p : A → Bool) (xs : List A) → keep p (keep p xs) ≡ keep p xs
  keep-keep p [] = refl
  keep-keep p (x ∷ xs) = ground (arith, keep-keep p xs)

  pub length-keep-le : (p : A → Bool) (xs : List A) → length (keep p xs) ≤ length xs
  length-keep-le p [] = omega arith
  length-keep-le p (x ∷ xs) = ground (arith, length-keep-le p xs)

  pub length-update_first :
      (p : A → Bool) (f : A → A) (xs : List A) → length (update_first p f xs) ≡ length xs
  length-update_first p f [] = refl
  length-update_first p f (x ∷ xs) = ground (arith, length-update_first p f xs)

pub length-map {ℓ κ} :
    {A : Type ℓ} {B : Type κ} (f : A → B) (xs : List A) → length (map f xs) ≡ length xs
length-map f [] = refl
length-map f (x ∷ xs) = ap suc (length-map f xs)

-- `every` decides the test at each element.
pub every-Mem {ℓ} :
    {A : Type ℓ} (p : A → Bool) (xs : List A)
    → ((x : A) → Mem x xs → p x ≡ true)
    → every p xs ≡ true
every-Mem p [] h = refl
every-Mem p (x ∷ xs) h =
    ground (arith, h x mem-cons_self, every-Mem p xs (λ y m. h y (mem-cons_of_mem x m)))

pub Mem-every {ℓ} :
    {A : Type ℓ} (p : A → Bool) (x : A) (xs : List A) → every p xs ≡ true → Mem x xs → p x ≡ true
Mem-every p x [] h m = absurd (not-mem-nil m)
Mem-every p x (y ∷ ys) h m =
    Or.elim (Bool-set (p x) true) (mem-cons.0 m) (λ e. rw e (ground (arith, h)))
      (λ r. Mem-every p x ys (ground (arith, h)) r)

module _ {ℓ κ} {A : Type ℓ} (P : A → Type κ) where
  -- Taking the element between two lists out, and putting another in its place.
  pub All-middle :
      (xs : List A) (y : A) (ys : List A) → All P (xs ++ y ∷ ys) → P y × All P (xs ++ ys)
  All-middle [] y ys h = h
  All-middle (x ∷ xs) y ys h = let (p, t) = All-middle xs y ys h.1 in (p, (h.0, t))

  pub All-insert :
      (xs : List A) (y : A) (ys : List A) → P y → All P (xs ++ ys) → All P (xs ++ y ∷ ys)
  All-insert [] y ys p h = (p, h)
  All-insert (x ∷ xs) y ys p h = (h.0, All-insert xs y ys p h.1)

pub All-mono {ℓ κ} :
    {A : Type ℓ} (P Q : A → Type κ) (xs : List A) → ((x : A) → P x → Q x) → All P xs → All Q xs
All-mono P Q [] f h = tt
All-mono P Q (x ∷ xs) f h = (f x h.0, All-mono P Q xs f h.1)

module _ {A : Type 0} (p : A → Bool) where
  pub mem-keep_of : (x : A) (l : List A) → Mem x l → p x ≡ true → Mem x (keep p l)
  mem-keep_of x [] m h = absurd (not-mem-nil m)
  mem-keep_of x (y ∷ l) m h = elim (Bool-cases (p y)) [
    | inl yes_y ↦ rw yes_y (
        Or.elim Mem-prop (mem-cons.0 m) (λ e. rw e mem-cons_self)
          (λ r. mem-cons_of_mem y (mem-keep_of x l r h)))
    | inr no_y ↦ rw no_y (
        Or.elim Mem-prop (mem-cons.0 m) (λ e. absurd (ground (arith, e, h, no_y)))
          (λ r. mem-keep_of x l r h))
  ]

  pub mem_of_mem-keep : (x : A) (l : List A) → Mem x (keep p l) → Mem x l × (p x ≡ true)
  mem_of_mem-keep x [] m = absurd (not-mem-nil m)
  mem_of_mem-keep x (y ∷ l) m = elim (Bool-cases (p y)) [
    | inl yes_y ↦
        Or.elim (×_prop Mem-prop (Bool-set _ _)) (mem-cons.0 (rw yes_y at m))
          (λ e. (rw e mem-cons_self, rw e yes_y))
          (λ r. let (s, h) = mem_of_mem-keep x l r in (mem-cons_of_mem y s, h))
    | inr no_y ↦ let (s, h) = mem_of_mem-keep x l (rw no_y at m) in (mem-cons_of_mem y s, h)
  ]
