-- ===== src/Runtime/Text.antt =====
-- Equality of texts is decidable, so texts form a set; and the default of an optional text.
use mathlib.Core.HLevel.{hedberg}
use paya.Prelude.{
  String, str_eq, str_eq_iff, Bool-cases, inl, inr, arith, Option, none, some, if◌then◌else◌,
}

String-discrete : Discrete String
String-discrete s t = elim (Bool-cases (str_eq s t)) [
  | inl same ↦ yes ((str_eq_iff s t).0 same)
  | inr other ↦ no (λ e. ground (arith, other, (str_eq_iff s t).1 e))
]

pub String-set : IsSet String
String-set = hedberg String-discrete

-- `s || d` on an optional text: the empty text counts as missing.
abbrev pub or_text : Option String → String → String
or_text none d = d
or_text (some s) d = if str_eq s "" then d else s
