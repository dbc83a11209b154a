-- ===== src/Split/Tests.antt =====
-- The theorems on payment splits at concrete tables, and runs of the service.
use paya.Prelude.{
  ℕ, String, Option, none, some, true, false, ◌≤◌, any, List, [], ◌∷◌, ◌≡◌, refl, arith, str_eq,
  str_eq_iff, ◌↔◌,
}
use paya.Runtime.Action.{ok}
use paya.Runtime.ListTable.{list_repository}
use paya.Runtime.WholeNumber.{whole_number}
use paya.Runtime.Text.{String-set}
use paya.Split.Types
use paya.Split.Types.{split_cancelled}
use paya.Split.Create.{create_split}
use paya.Split.Creation.{Created, create_split-Created}
use paya.Split.Lifecycle.{retry_failed_distributions}
use paya.Split.Distribute.{
  has_status, completion_status, distribute_to_recipient, confirm_distribution,
}
use paya.Split.Calls.{Call, run, run_all, Audited, run-Audited}
use paya.Split.Moves.Histories.{Persists, retries_left, run_all-Persists, retries, retries-le}
use paya.Split.Outcomes.{retry_failed_distributions-revives}
use paya.Split.DistributionOutcomes.{Adds, distribute_to_recipient-Adds}
use mathlib.Core.Option

abbrev pub Num : Type 0
Num = Option ℕ

pub split_set : IsSet (Types.PaymentSplit Num)
split_set = hlevel String-set

pub distribution_set : IsSet (Types.SplitDistribution Num)
distribution_set = hlevel String-set

pub milestone_set : IsSet (Types.SplitMilestone Num)
milestone_set = hlevel String-set

pub same_pair_iff : (a b : String × String) → (Types.same_pair a b ≡ true) ↔ (a ≡ b)
same_pair_iff a b = (
  λ h. ground (arith, h, str_eq_iff a.0 b.0, str_eq_iff a.1 b.1),
  λ h. ground (arith, h, str_eq_iff a.0 b.0, str_eq_iff a.1 b.1),
)

abbrev pub db : Types.Database Num
db = record {
  splits = list_repository str_eq str_eq_iff (λ s. s.split_id) split_set;
  distributions = list_repository str_eq str_eq_iff (λ d. d.distribution_id) distribution_set;
  milestones = list_repository Types.same_pair same_pair_iff Types.milestone_key milestone_set;
}

abbrev to_ann : Types.RecipientDto Num
to_ann = record {
  address = "ann";
  percentage = some (some 30);
  fixed_amount = none;
  split_type = Types.SplitType.percentage;
}

abbrev to_bob : Types.RecipientDto Num
to_bob = record to_ann { address = "bob"; percentage = some (some 70) }

abbrev ann : Types.Recipient Num
ann = record {
  address = "ann";
  percentage = some (some 30);
  fixed_amount = none;
  split_type = Types.SplitType.percentage;
  distributed_amount = some 0;
  distribution_status = Types.SplitStatus.executing;
}

abbrev bob : Types.Recipient Num
bob = record ann {
  address = "bob";
  percentage = some (some 70);
  distribution_status = Types.SplitStatus.completed;
}

abbrev pub split : Types.PaymentSplit Num
split = record {
  split_id = "SPLIT_1";
  payment_id = "pay";
  merchant_address = "shop";
  total_amount = some 1000;
  currency = "USDC";
  split_type = Types.SplitType.percentage;
  status = Types.SplitStatus.executing;
  recipients = ann ∷ bob ∷ [];
  retry_count = 1;
  max_retries = 3;
  executed_at = some 5;
  completed_at = none;
  metadata = Types.no_metadata;
}

abbrev pub distribution : Types.SplitDistribution Num
distribution = record {
  distribution_id = "d1";
  split_id = "SPLIT_1";
  recipient_address = "ann";
  amount = some 300;
  transaction_hash = none;
  status = Types.SplitStatus.executing;
  attempted_at = some 6;
  completed_at = none;
  error_message = none;
  retry_count = 0;
  metadata = Types.no_metadata;
}

abbrev milestone : Types.SplitMilestone Num
milestone = record {
  milestone_id = "ship";
  split_id = "SPLIT_1";
  description = "goods shipped";
  trigger_condition = "tracking number";
  required_amount = some 500;
  status = Types.MilestoneStatus.triggered;
  triggered_at = some 7;
  completed_at = none;
  triggered_by = some "shop";
  completed_by = none;
}

abbrev pub world : Types.World db
world = record {
  splits = split ∷ [];
  distributions = distribution ∷ [];
  milestones = milestone ∷ [];
  audits = [];
}

abbrev dto : Types.CreateSplitDto Num
dto = record {
  payment_id = "pay";
  merchant_address = "shop";
  total_amount = some 1000;
  currency = "USDC";
  split_type = Types.SplitType.percentage;
  recipients = to_ann ∷ to_bob ∷ [];
  milestones = none;
  metadata = Types.no_metadata;
}

abbrev pay_ann : Types.DistributeRecipientDto Num
pay_ann = record {
  split_id = "SPLIT_1";
  recipient_address = "ann";
  amount = some 300;
  distribution_id = "d2";
}

abbrev history : List (Call Num)
history =
    Call.distribute pay_ann "op" "admin" 10
    ∷ Call.fail "d2" "timeout"
    ∷ Call.retry "SPLIT_1" "shop" "merchant"
    ∷ Call.cancel "SPLIT_1" "shop" "merchant"
    ∷ Call.confirm "d1" "0xabc" 11 12
    ∷ []

run_all-Persists_example :
    Persists
      (db.splits.find_one "SPLIT_1" world.splits)
      (db.splits.find_one "SPLIT_1" (run_all whole_number db history world).splits)
run_all-Persists_example = run_all-Persists whole_number db history world "SPLIT_1"

retries-le_example :
    retries whole_number db "SPLIT_1" history world
    ≤ retries_left (db.splits.find_one "SPLIT_1" world.splits)
retries-le_example = retries-le whole_number db history world "SPLIT_1"

run-Audited_example :
    Audited whole_number db split_cancelled world
      (run whole_number db (Call.cancel "SPLIT_1" "shop" "merchant") world)
run-Audited_example = run-Audited whole_number db (Call.cancel "SPLIT_1" "shop" "merchant") world

create_split-Created_example :
    Created whole_number db dto "SPLIT_2" world
      (create_split whole_number db dto "op" "admin" "2" world)
create_split-Created_example = create_split-Created whole_number db dto "op" "admin" "2" world

retry_failed_distributions-revives_example :
    let (r, w') = retry_failed_distributions db "SPLIT_1" "shop" "merchant" world in
    (s' : Types.PaymentSplit Num) × (r ≡ ok s')
    × (db.splits.find_one "SPLIT_1" w'.splits ≡ some s')
    × (s'.status ≡ Types.SplitStatus.executing)
    × (any (has_status Types.SplitStatus.failed) s'.recipients ≡ false)
    × (s'.retry_count ≡ 2)
retry_failed_distributions-revives_example =
    retry_failed_distributions-revives db "SPLIT_1" "shop" "merchant" world split refl refl
      (omega arith)

distribute_to_recipient-Adds_example :
    Adds whole_number db pay_ann split
      (distribute_to_recipient whole_number db pay_ann "op" "admin" 8 world).1
unfolding distribute_to_recipient
distribute_to_recipient-Adds_example =
    distribute_to_recipient-Adds whole_number db pay_ann "op" "admin" 8 world split refl refl

-- The last distribution of a split completes it.
confirm_last :
    Option.map
      (λ s. s.status)
      (db.splits.find_one "SPLIT_1"
        (confirm_distribution whole_number db "d1" "0xabc" 8 9 world).1.splits)
    ≡ some Types.SplitStatus.completed
unfolding confirm_distribution completion_status
confirm_last = refl
