-- ===== src/Split/Validation.antt =====
-- `validateRecipients` of backend/src/payment-split/payment-split.service.ts.
pub mod Accepts
use paya.Prelude.{◌==◌, ◌||◌, ltb, List, [], ◌∷◌, length, if◌then◌else◌}
use paya.Runtime.Action.{Result, ok, err, bad_request}
use paya.Runtime.Number.{Number, to_number}
use paya.Split.Types.{RecipientDto, SplitType}

module _ (num : Number) where
  open num use {Num, of_ℕ, add, lt, le, equal}

  -- The loop of the case `PERCENTAGE`, with the total so far. `x > 100` reads `100 < x`.
  sum_percentages : List (RecipientDto Num) → Num → Result Num
  sum_percentages [] total = ok total
  sum_percentages (r ∷ rs) total =
      let p = to_number num r.percentage in
      let rest = sum_percentages rs (add total p) in
      if lt p (of_ℕ 1) || lt (of_ℕ 100) p
      then err (bad_request "Percentage must be between 1 and 100")
      else rest

  -- The loop of the case `FIXED_AMOUNT`; the total is computed and not used.
  sum_fixed : List (RecipientDto Num) → Num → Result Num
  sum_fixed [] total = ok total
  sum_fixed (r ∷ rs) total =
      let x = to_number num r.fixed_amount in
      let rest = sum_fixed rs (add total x) in
      if le x (of_ℕ 0) then err (bad_request "Fixed amount must be greater than 0") else rest

  -- The loop of the case `MILESTONE`.
  check_percentages : List (RecipientDto Num) → Result (Unit {0})
  check_percentages [] = ok tt
  check_percentages (r ∷ rs) =
      let p = to_number num r.percentage in
      let rest = check_percentages rs in
      if lt p (of_ℕ 1) || lt (of_ℕ 100) p
      then err (bad_request "Percentage must be between 1 and 100")
      else rest

  require_hundred : Result Num → Result (Unit {0})
  require_hundred (err e) = err e
  require_hundred (ok total) =
      if equal total (of_ℕ 100) then ok tt else err (bad_request "Percentages must sum to 100")

  forget : Result Num → Result (Unit {0})
  forget (err e) = err e
  forget (ok total) = ok tt

  check_recipients : SplitType → List (RecipientDto Num) → Result (Unit {0})
  unfolding sum_percentages sum_fixed check_percentages require_hundred forget
  check_recipients SplitType.percentage rs = require_hundred (sum_percentages rs (of_ℕ 0))
  check_recipients SplitType.fixed_amount rs = forget (sum_fixed rs (of_ℕ 0))
  check_recipients SplitType.milestone rs = check_percentages rs

  unfoldable pub validate_recipients : List (RecipientDto Num) → SplitType → Result (Unit {0})
  unfolding check_recipients
  validate_recipients rs type =
      if length rs == 0
      then err (bad_request "At least one recipient is required")
      else if ltb 50 (length rs)
      then err (bad_request "Maximum 50 recipients allowed")
      else check_recipients type rs
