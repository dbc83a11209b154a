-- ===== src/Runtime/WholeNumber.antt =====
-- Whole numbers with NaN, as an instance of `Number` for the examples: `none` is NaN, a difference
-- below zero is taken as zero, a quotient is rounded down, and a text reads as NaN.
use Prim.Native.String.{◌++◌ as str_append}
use paya.Prelude.{
  String, zero, suc, ◌%◌, if◌then◌else◌, ℕ, ◌+◌, ◌-◌, ◌*◌, ◌/◌, false, Option, none, some, ◌≡◌,
  refl, ltb, leb, ◌==◌, max, true, arith,
}
use paya.Runtime.Number.{Number}

abbrev pub lift : {A : Type 0} → A → (ℕ → ℕ → A) → Option ℕ → Option ℕ → A
lift d f (some a) (some b) = f a b
lift d f _ _ = d

pub lift-none_right : {A : Type 0} (d : A) (f : ℕ → ℕ → A) (x : Option ℕ) → lift d f x none ≡ d
lift-none_right d f (some a) = refl
lift-none_right d f none = refl

pub lift-none_left : {A : Type 0} (d : A) (f : ℕ → ℕ → A) (x : Option ℕ) → lift d f none x ≡ d
lift-none_left d f (some a) = refl
lift-none_left d f none = refl

pub whole_max-lt :
    (x y : Option ℕ) → lift false ltb x y ≡ true → lift none (λ a b. some (max a b)) x y ≡ y
whole_max-lt (some a) (some b) h = ground (arith, h)
whole_max-lt (some a) none h = cc
whole_max-lt none y h = cc

pub whole_max-gt :
    (x y : Option ℕ) → lift false ltb y x ≡ true → lift none (λ a b. some (max a b)) x y ≡ x
whole_max-gt (some a) (some b) h = ground (arith, h)
whole_max-gt (some a) none h = cc
whole_max-gt none (some b) h = cc
whole_max-gt none none h = cc

abbrev digit : ℕ → String
digit n =
    if n == 0
    then "0"
    else if n == 1
    then "1"
    else if n == 2
    then "2"
    else if n == 3
    then "3"
    else if n == 4
    then "4"
    else if n == 5
    then "5"
    else if n == 6
    then "6"
    else if n == 7
    then "7"
    else if n == 8
    then "8"
    else "9"

-- The decimal digits of a number, the first argument at most.
abbrev pub digits : ℕ → ℕ → String
digits zero n = ""
digits (suc fuel) n =
    let front = digits fuel (n / 10) in
    if ltb n 10 then digit n else str_append front (digit (n % 10))

abbrev pub whole_text : Option ℕ → String
whole_text none = "NaN"
whole_text (some n) = digits 16 n

abbrev pub whole_number : Number
whole_number = record {
  Num = Option ℕ;
  nan = none;
  of_ℕ = λ n. some n;
  add = lift none (λ a b. some (a + b));
  sub = lift none (λ a b. some (a - b));
  mul = lift none (λ a b. some (a * b));
  div = lift none (λ a b. some (a / b));
  max = lift none (λ a b. some (max a b));
  lt = lift false ltb;
  le = lift false leb;
  equal = lift false ◌==◌;
  to_text = whole_text;
  of_text = λ s. none;
  decimal_text = whole_text;
  lt-nan_left = lift-none_left false ltb;
  lt-nan_right = lift-none_right false ltb;
  le-nan_left = lift-none_left false leb;
  add-nan_left = lift-none_left none (λ a b. some (a + b));
  add-nan_right = lift-none_right none (λ a b. some (a + b));
  equal-nan_left = lift-none_left false ◌==◌;
  sub-nan_right = lift-none_right none (λ a b. some (a - b));
  div-nan_left = lift-none_left none (λ a b. some (a / b));
  max-lt = whole_max-lt;
  max-gt = whole_max-gt;
}
