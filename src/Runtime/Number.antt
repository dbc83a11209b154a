-- ===== src/Runtime/Number.antt =====
-- The JavaScript numbers that carry money and percentages: IEEE doubles, which the engine provides.
-- Counters, versions and milliseconds are whole and stay far below 2^53; they are native numbers.
use Prim.Native.String.{◌++◌ as str_append}
use paya.Prelude.{
  String, str_eq, ℕ, Bool, true, false, ◌≡◌, Option, none, some, not, ◌&&◌, if◌then◌else◌,
}

pub record Number : Type 1 where
  pub Num : Type 0
  pub nan : Num
  pub of_ℕ : ℕ → Num
  pub add : Num → Num → Num
  pub sub : Num → Num → Num
  pub mul : Num → Num → Num
  pub div : Num → Num → Num
  -- `Math.max(a, b)`
  pub max : Num → Num → Num
  -- `a < b`, `a <= b`, `a === b`
  pub lt : Num → Num → Bool
  pub le : Num → Num → Bool
  pub equal : Num → Num → Bool
  -- `String(x)` and `Number(s)`, and the text that the database driver returns for a decimal column.
  pub to_text : Num → String
  pub of_text : String → Num
  pub decimal_text : Num → String
  -- What IEEE 754 says of NaN.
  pub lt-nan_left : (x : Num) → lt nan x ≡ false
  pub lt-nan_right : (x : Num) → lt x nan ≡ false
  pub le-nan_left : (x : Num) → le nan x ≡ false
  pub add-nan_left : (x : Num) → add nan x ≡ nan
  pub add-nan_right : (x : Num) → add x nan ≡ nan
  pub equal-nan_left : (x : Num) → equal nan x ≡ false
  pub sub-nan_right : (x : Num) → sub x nan ≡ nan
  pub div-nan_left : (x : Num) → div nan x ≡ nan
  -- `Math.max` of two numbers that differ is the greater one.
  pub max-lt : (x y : Num) → lt x y ≡ true → max x y ≡ y
  pub max-gt : (x y : Num) → lt y x ≡ true → max x y ≡ x

module _ (num : Number) where
  open num use {Num, nan}

  -- An optional number in arithmetic: `undefined` converts to NaN.
  abbrev pub to_number : Option Num → Num
  to_number none = nan
  to_number (some x) = x

  -- `!!x`: neither zero nor NaN.
  abbrev pub truthy : Num → Bool
  truthy x = num.equal x x && not (num.equal x (num.of_ℕ 0))

  -- `x || 0`
  abbrev pub or_zero : Option Num → Num
  or_zero none = num.of_ℕ 0
  or_zero (some x) = if truthy x then x else num.of_ℕ 0

-- A JavaScript value that is a number, or the text that a decimal column was read as.
pub data Value (Num : Type 0) : Type 0 where
  number : Num → Value Num
  text : String → Value Num

module _ (num : Number) where
  open num use {Num, of_ℕ, add, lt, to_text, of_text, decimal_text}

  -- `Number(v)`, `String(v)`
  abbrev pub number_of : Value Num → Num
  number_of (number x) = x
  number_of (text s) = of_text s

  abbrev pub text_of : Value Num → String
  text_of (number x) = to_text x
  text_of (text s) = s

  -- `a + b`, which joins texts unless both are numbers.
  abbrev pub plus : Value Num → Value Num → Value Num
  plus (number x) (number y) = number (add x y)
  plus (number x) (text s) = text (str_append (to_text x) s)
  plus (text s) v = text (str_append s (text_of v))

  -- `v > limit`, for a limit that is a number.
  abbrev pub exceeds : Value Num → Num → Bool
  exceeds v limit = lt limit (number_of v)

  -- `v || 0`
  abbrev pub value_or_zero : Option (Value Num) → Value Num
  value_or_zero none = number (of_ℕ 0)
  value_or_zero (some (number x)) = if truthy num x then number x else number (of_ℕ 0)
  value_or_zero (some (text s)) = if str_eq s "" then number (of_ℕ 0) else text s
