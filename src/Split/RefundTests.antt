-- ===== src/Split/RefundTests.antt =====
-- The theorems on the refunds of a split at the tables of the other examples.
use paya.Prelude.{some, [], ◌∷◌}
use paya.Runtime.WholeNumber.{whole_number}
use paya.Split.Types
use paya.Split.Refunds.{handle_partial_payment, refund_specific_distribution}
use paya.Split.Refunds.Outcomes.{
  RefundedOne, refund_specific_distribution-RefundedOne, PartlyPaid,
  handle_partial_payment-PartlyPaid,
}
use paya.Split.Tests.{db, split, distribution, world}

-- The split is completed, and so is its distribution.
abbrev paid : Types.World db
paid = record world {
  splits = record split { status = Types.SplitStatus.completed } ∷ [];
  distributions = record distribution { status = Types.SplitStatus.completed } ∷ [];
}

abbrev waiting : Types.World db
waiting = record world { splits = record split { status = Types.SplitStatus.pending } ∷ [] }

refund_specific_distribution-RefundedOne_example :
    RefundedOne whole_number db "d1" (some 100) "returned" 9 paid (
      refund_specific_distribution whole_number db "d1"
        (some 100)
        "returned"
        "shop"
        "MERCHANT"
        9
        paid)
refund_specific_distribution-RefundedOne_example =
    refund_specific_distribution-RefundedOne whole_number db "d1" (some 100) "returned" "shop"
      "MERCHANT" 9 paid

handle_partial_payment-PartlyPaid_example :
    PartlyPaid whole_number db "SPLIT_1"
      (some 600)
      waiting
      (handle_partial_payment whole_number db "SPLIT_1" (some 600) "shop" "MERCHANT" waiting)
handle_partial_payment-PartlyPaid_example =
    handle_partial_payment-PartlyPaid whole_number db "SPLIT_1" (some 600) "shop" "MERCHANT" waiting
