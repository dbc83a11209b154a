-- ===== src/Split/Moves/Requests.antt =====
-- Every request of `PaymentSplitService` moves the stored splits along `Follows` only.
use paya.Prelude.{
  ℕ, ◌+◌, String, some, arith, Option-cases, inl, inr, map, length-map, length-update_first,
}
use paya.Runtime.Action.{Action}
use paya.Runtime.Number.{Number}
use paya.Split.Types.{SplitStatus, Recipient, PaymentSplit, DistributeRecipientDto, Database, World}
use paya.Split.Lifecycle.{execute_split, cancel_split, retry_failed_distributions, reset_failed}
use paya.Split.Distribute.{
  has_address, mark_recipient, completion_status, count_failure, start_recipient, confirm_split,
  fail_split, distribute_to_recipient, confirm_distribution, fail_distribution,
}
use paya.Split.Milestones.{trigger_milestone, complete_milestone}
use paya.Split.Calls.{Call, forget, run}
use paya.Split.Moves.{Follows, Kept, Kept-refl, completion-Follows, failure-Follows, save-Kept}

module _ (num : Number) (db : Database num.Num) where
  open num use {Num, add}

  start-Follows :
      (dto : DistributeRecipientDto Num) (s : PaymentSplit Num)
      → Follows s (start_recipient num db dto s)
  unfolding start_recipient
  start-Follows dto s = ground (
    arith,
    length-update_first (has_address dto.recipient_address)
        (λ (r : Recipient Num). record r {
          distributed_amount = add r.distributed_amount dto.amount;
          distribution_status = SplitStatus.executing;
        })
        s.recipients,
  )

  -- Every request leaves the row of every split as it was, or replaces it by one that follows it.
  abbrev Keeps : String → World db → World db → Type 0
  Keeps j w w' = Kept (db.splits.find_one j w.splits) (db.splits.find_one j w'.splits)

  Keeps-refl : (j : String) (w : World db) → Keeps j w w
  Keeps-refl j w = Kept-refl (db.splits.find_one j w.splits)

  execute-Keeps :
      (id executor by role : String) (now : ℕ) (w : World db) (j : String)
      → Keeps j w (execute_split db id executor by role now w).1
  unfolding execute_split
  execute-Keeps id executor by role now w j = elim (Option-cases (db.splits.find_one id w.splits)) [
    | inl lost ↦ ground (arith, Keeps-refl j w)
    | inr (s, found) ↦ ground (
      arith,
      Keeps-refl j w,
      save-Kept db id j s (record s { status = SplitStatus.executing; executed_at = some now })
          w.splits found,
    )
  ]

  cancel-Keeps :
      (id canceller role : String) (w : World db) (j : String)
      → Keeps j w (cancel_split db id canceller role w).1
  unfolding cancel_split
  cancel-Keeps id canceller role w j = elim (Option-cases (db.splits.find_one id w.splits)) [
    | inl lost ↦ ground (arith, Keeps-refl j w)
    | inr (s, found) ↦ ground (
      arith,
      Keeps-refl j w,
      save-Kept db id j s (record s { status = SplitStatus.cancelled }) w.splits found,
    )
  ]

  retry-Keeps :
      (id retryer role : String) (w : World db) (j : String)
      → Keeps j w (retry_failed_distributions db id retryer role w).1
  unfolding retry_failed_distributions
  retry-Keeps id retryer role w j = elim (Option-cases (db.splits.find_one id w.splits)) [
    | inl lost ↦ ground (arith, Keeps-refl j w)
    | inr (s, found) ↦ ground (
      arith,
      Keeps-refl j w,
      length-map {0, 0} reset_failed s.recipients,
      save-Kept db id j s
          (record s {
            retry_count = s.retry_count + 1;
            status = SplitStatus.executing;
            recipients = map reset_failed s.recipients;
          })
          w.splits found,
    )
  ]

  distribute-Keeps :
      (dto : DistributeRecipientDto Num) (by role : String) (now : ℕ) (w : World db) (j : String)
      → Keeps j w (distribute_to_recipient num db dto by role now w).1
  unfolding distribute_to_recipient
  distribute-Keeps dto by role now w j =
      elim (Option-cases (db.splits.find_one dto.split_id w.splits)) [
        | inl lost ↦ ground (arith, Keeps-refl j w)
        | inr (s, found) ↦ ground (
          arith,
          Keeps-refl j w,
          save-Kept db dto.split_id j s (start_recipient num db dto s) w.splits found
              (start-Follows dto s),
        )
      ]

  -- The write of `confirmDistribution`, to a split that may be missing.
  confirm_split-Keeps :
      (id address : String) (now : ℕ) (w : World db) (j : String)
      → Keeps j w (confirm_split num db address now (db.splits.find_one id w.splits) w).1
  unfolding confirm_split
  confirm_split-Keeps id address now w j = elim (Option-cases (db.splits.find_one id w.splits)) [
    | inl lost ↦ rw (lost, confirm_split) (Keeps-refl j w)
    | inr (s, found) ↦ ground (
      arith,
      save-Kept db id j s (completion_status now (mark_recipient address SplitStatus.completed s))
          w.splits found (completion-Follows address now s),
    )
  ]

  fail_split-Keeps :
      (id address : String) (w : World db) (j : String)
      → Keeps j w (fail_split num db address (db.splits.find_one id w.splits) w).1
  unfolding fail_split
  fail_split-Keeps id address w j = elim (Option-cases (db.splits.find_one id w.splits)) [
    | inl lost ↦ rw (lost, fail_split) (Keeps-refl j w)
    | inr (s, found) ↦ ground (
      arith,
      save-Kept db id j s (count_failure address s) w.splits found (failure-Follows address s),
    )
  ]

  confirm-Keeps :
      (id hash : String) (now later : ℕ) (w : World db) (j : String)
      → Keeps j w (confirm_distribution num db id hash now later w).1
  unfolding confirm_distribution
  confirm-Keeps id hash now later w j =
      elim (Option-cases (db.distributions.find_one id w.distributions)) [
        | inl lost ↦ ground (arith, Keeps-refl j w)
        | inr (d, found) ↦ ground (
          arith,
          confirm_split-Keeps d.split_id d.recipient_address later
              (record w {
                distributions =
                    db.distributions.save
                      (record d {
                        transaction_hash = some hash;
                        status = SplitStatus.completed;
                        completed_at = some now;
                      })
                      w.distributions;
              })
              j,
        )
      ]

  fail-Keeps :
      (id message : String) (w : World db) (j : String)
      → Keeps j w (fail_distribution num db id message w).1
  unfolding fail_distribution
  fail-Keeps id message w j = elim (Option-cases (db.distributions.find_one id w.distributions)) [
    | inl lost ↦ ground (arith, Keeps-refl j w)
    | inr (d, found) ↦ ground (
      arith,
      fail_split-Keeps d.split_id d.recipient_address
          (record w {
            distributions =
                db.distributions.save
                  (record d {
                    status = SplitStatus.failed;
                    error_message = some message;
                    retry_count = d.retry_count + 1;
                  })
                  w.distributions;
          })
          j,
    )
  ]

  trigger-Keeps :
      (id m triggerer by role : String) (now : ℕ) (w : World db) (j : String)
      → Keeps j w (trigger_milestone db id m triggerer by role now w).1
  unfolding trigger_milestone
  trigger-Keeps id m triggerer by role now w j = ground (arith, Keeps-refl j w)

  complete-Keeps :
      (id m by role : String) (now later : ℕ) (w : World db) (j : String)
      → Keeps j w (complete_milestone db id m by role now later w).1
  unfolding complete_milestone
  complete-Keeps id m by role now later w j = elim (Option-cases (db.splits.find_one id w.splits)) [
    | inl lost ↦ ground (arith, Keeps-refl j w)
    | inr (s, found) ↦ ground (
      arith,
      Keeps-refl j w,
      save-Kept db id j s (record s { status = SplitStatus.completed; completed_at = some later })
          w.splits found,
    )
  ]

  -- Discarding the returned entity does not change the tables.
  forget-Keeps :
      {A : Type 0} (m : Action (World db) A) (w : World db) (j : String)
      → Keeps j w (m w).1
      → Keeps j w (forget num db m w).1
  forget-Keeps m w j h = ground arith

  pub run-Keeps :
      (c : Call Num) (w : World db) (j : String)
      → Kept (db.splits.find_one j w.splits) (db.splits.find_one j (run num db c w).1.splits)
  unfolding run
  run-Keeps (Call.execute id executor by role now) w j =
      forget-Keeps (execute_split db id executor by role now) w j
        (execute-Keeps id executor by role now w j)
  run-Keeps (Call.cancel id canceller role) w j =
      forget-Keeps (cancel_split db id canceller role) w j (cancel-Keeps id canceller role w j)
  run-Keeps (Call.retry id retryer role) w j =
      forget-Keeps (retry_failed_distributions db id retryer role) w j
        (retry-Keeps id retryer role w j)
  run-Keeps (Call.distribute dto by role now) w j =
      forget-Keeps (distribute_to_recipient num db dto by role now) w j
        (distribute-Keeps dto by role now w j)
  run-Keeps (Call.confirm id hash now later) w j =
      forget-Keeps (confirm_distribution num db id hash now later) w j
        (confirm-Keeps id hash now later w j)
  run-Keeps (Call.fail id message) w j =
      forget-Keeps (fail_distribution num db id message) w j (fail-Keeps id message w j)
  run-Keeps (Call.trigger id m triggerer by role now) w j =
      forget-Keeps (trigger_milestone db id m triggerer by role now) w j
        (trigger-Keeps id m triggerer by role now w j)
  run-Keeps (Call.complete id m by role now later) w j =
      forget-Keeps (complete_milestone db id m by role now later) w j
        (complete-Keeps id m by role now later w j)
