-- ===== src/Split/Outcomes.antt =====
-- What the requests to `PaymentSplitService` about a split or a milestone do to it.
use paya.Prelude.{
  any, map, List, [], ◌∷◌, false, ℕ, ◌+◌, ◌<◌, String, true, false, some, ◌≡◌, ◌≢◌, ◌↔◌, ◌⊎◌, arith,
  str_eq_iff, Option-cases, Bool-cases, subst, sym, every-Mem, Mem-every, inl, inr, every, List, [],
  ◌∷◌, refl,
}
use paya.Runtime.Action.{ok, is_ok}
use paya.Split.Types.{
  SplitStatus, MilestoneStatus, Recipient, PaymentSplit, SplitMilestone, milestone_key, Database,
  World,
}
use paya.Split.Lifecycle.{execute_split, cancel_split, retry_failed_distributions, reset_failed}
use paya.Split.Distribute.{has_status}
use paya.Split.Milestones.{in_split, has_milestone_status, complete_milestone}

module _ {Num : Type 0} (db : Database Num) where
  -- Reading back the split that was just written under its id.
  pub find_one-save_self :
      (id : String) (s s' : PaymentSplit Num) (t : db.splits.Table)
      → db.splits.find_one id t ≡ some s
      → s'.split_id ≡ s.split_id
      → db.splits.find_one id (db.splits.save s' t) ≡ some s'
  find_one-save_self id s s' t found same = ground (
    arith,
    db.splits.find_one-save id s' t,
    db.splits.key-find_one id s t,
    str_eq_iff s.split_id id,
    str_eq_iff s'.split_id id,
  )

  -- `executeSplit` succeeds exactly for the merchant of a PENDING split.
  pub execute_split-ok :
      (id executor by role : String) (now : ℕ) (w : World db) (s : PaymentSplit Num)
      → db.splits.find_one id w.splits ≡ some s
      → (is_ok (execute_split db id executor by role now w).0 ≡ true)
        ↔ ((s.status ≡ SplitStatus.pending) × (s.merchant_address ≡ executor))
  unfolding execute_split
  execute_split-ok id executor by role now w s found = (
    λ h. ground (arith, h, str_eq_iff s.merchant_address executor),
    λ h. ground (arith, h, str_eq_iff s.merchant_address executor),
  )

  -- `cancelSplit`: the merchant, and neither COMPLETED nor EXECUTING.
  pub cancel_split-ok :
      (id canceller role : String) (w : World db) (s : PaymentSplit Num)
      → db.splits.find_one id w.splits ≡ some s
      → (is_ok (cancel_split db id canceller role w).0 ≡ true) ↔ (
          (s.merchant_address ≡ canceller)
          × (s.status ≢ SplitStatus.completed)
          × (s.status ≢ SplitStatus.executing))
  unfolding cancel_split
  cancel_split-ok id canceller role w s found = (
    λ h. ground (arith, h, str_eq_iff s.merchant_address canceller),
    λ h. ground (arith, h, str_eq_iff s.merchant_address canceller),
  )

  reset_failed-none_failed :
      (rs : List (Recipient Num))
      → any (has_status SplitStatus.failed) (map reset_failed rs) ≡ false
  unfolding reset_failed
  reset_failed-none_failed [] = refl
  reset_failed-none_failed (r ∷ rs) = ground (arith, reset_failed-none_failed rs)

  -- `retryFailedDistributions` by the merchant of a stored split, below the retry limit, succeeds
  -- whatever the status of the split. The split is then EXECUTING, no recipient is FAILED, and the
  -- retry count has grown by one.
  pub retry_failed_distributions-revives :
      (id retryer role : String) (w : World db) (s : PaymentSplit Num)
      → db.splits.find_one id w.splits ≡ some s
      → s.merchant_address ≡ retryer
      → s.retry_count < s.max_retries
      → let (r, w') = retry_failed_distributions db id retryer role w in
        (s' : PaymentSplit Num) × (r ≡ ok s')
        × (db.splits.find_one id w'.splits ≡ some s')
        × (s'.status ≡ SplitStatus.executing)
        × (any (has_status SplitStatus.failed) s'.recipients ≡ false)
        × (s'.retry_count ≡ s.retry_count + 1)
  unfolding retry_failed_distributions
  retry_failed_distributions-revives id retryer role w s found merchant left =
      let s' : PaymentSplit Num = record s {
        retry_count = s.retry_count + 1;
        status = SplitStatus.executing;
        recipients = map reset_failed s.recipients;
      } in
      let same = str_eq_iff s.merchant_address retryer in
      (
        s',
        ground (arith, same),
        ground (arith, same, find_one-save_self id s s' w.splits found),
        refl,
        reset_failed-none_failed s.recipients,
        refl,
      )

  -- Every milestone that the table holds for the split is COMPLETED.
  abbrev pub AllCompleted : String → db.milestones.Table → Type 0
  AllCompleted id t =
      (x : SplitMilestone Num)
      → db.milestones.find_one (milestone_key x) t ≡ some x
      → x.split_id ≡ id
      → x.status ≡ MilestoneStatus.completed

  every-AllCompleted :
      (id : String) (t : db.milestones.Table)
      → every
          (has_milestone_status MilestoneStatus.completed)
          (db.milestones.find_by (in_split id) t)
        ≡ true
      → AllCompleted id t
  every-AllCompleted id t h x found same =
      let m =
        (db.milestones.mem-find_by (in_split id) x t).1
          (found, (str_eq_iff x.split_id id).1 same) in
      ground (
        arith,
        Mem-every (has_milestone_status MilestoneStatus.completed) x
            (db.milestones.find_by (in_split id) t) h m,
      )

  AllCompleted-every :
      (id : String) (t : db.milestones.Table)
      → AllCompleted id t
      → every
          (has_milestone_status MilestoneStatus.completed)
          (db.milestones.find_by (in_split id) t)
        ≡ true
  AllCompleted-every id t all =
      every-Mem (has_milestone_status MilestoneStatus.completed)
        (db.milestones.find_by (in_split id) t)
        λ x m.
          let (found, same) = (db.milestones.mem-find_by (in_split id) x t).0 m in
          rw (all x found ((str_eq_iff x.split_id id).0 same))

  -- What a completed call leaves of the split and its milestones.
  abbrev pub Settles : String → ℕ → PaymentSplit Num → World db → Type 0
  Settles id later s w =
      (AllCompleted id w.milestones
        × (db.splits.find_one id w.splits
            ≡ some (record s { status = SplitStatus.completed; completed_at = some later })))
      ⊎ (¬ AllCompleted id w.milestones × (db.splits.find_one id w.splits ≡ some s))

  -- `completeMilestone` settles the split exactly when every milestone stored for it is COMPLETED
  -- after the call; otherwise it leaves the row of the split alone.
  pub complete_milestone-Settles :
      (id m by role : String) (now later : ℕ) (w : World db) (s : PaymentSplit Num)
      → db.splits.find_one id w.splits ≡ some s
      → is_ok (complete_milestone db id m by role now later w).0 ≡ true
      → Settles id later s (complete_milestone db id m by role now later w).1
  unfolding complete_milestone
  complete_milestone-Settles id m by role now later w s found done =
      elim (Option-cases (db.milestones.find_one (id, m) w.milestones)) [
        | inl lost ↦ absurd (ground (arith, done))
        | inr (x, found_x) ↦
            let t : db.milestones.Table =
              db.milestones.save
                (record x {
                  status = MilestoneStatus.completed;
                  completed_at = some now;
                  completed_by = some by;
                })
                w.milestones in
            let s' : PaymentSplit Num = record s {
              status = SplitStatus.completed;
              completed_at = some later;
            } in
            let tables : (complete_milestone db id m by role now later w).1.milestones ≡ t =
              ground (arith, done) in
            elim (Bool-cases (
              every (has_milestone_status MilestoneStatus.completed)
                (db.milestones.find_by (in_split id) t))) [
                  | inl all ↦ inl (
                    subst (AllCompleted id) (sym tables) (every-AllCompleted id t all),
                    ground (arith, done, all, find_one-save_self id s s' w.splits found),
                  )
                  | inr open_one ↦ inr (
                    λ h. ground (
                      arith,
                      open_one,
                      AllCompleted-every id t (subst (AllCompleted id) tables h),
                    ),
                    ground (arith, done, open_one),
                  )
                ]
      ]
