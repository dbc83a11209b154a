-- ===== src/Split/Refunds/Outcomes.antt =====
-- What the refunds of a split leave.
use Prim.Native.String.{◌++◌ as str_append}
use paya.Prelude.{
  str_eq, ℕ, String, Bool, true, false, some, List, [], ◌∷◌, map, keep, any, foldl, ◌≡◌, refl,
  arith, ◌||◌, if◌then◌else◌, Option-cases, Bool-cases, inl, inr, subst,
}
use paya.Runtime.Action.{Result, ok, err, bad_request}
use paya.Runtime.Number.{Number}
use paya.Split.Types.{
  SplitStatus, split_cancelled, distribution_failed, RefundDistribution, PaymentSplit,
  SplitDistribution, Database, World, same_status,
}
use paya.Split.Calls.{Extends}
use paya.Split.Refunds.{
  is_completed, is_percentage, is_failed_recipient, adjust, partially_paid, reduce_split,
  handle_partial_payment, refunded_distribution, degrade, refund_distribution,
  refund_specific_distribution, refundable,
}

module _ (num : Number) (db : Database num.Num) where
  open num use {Num, of_ℕ, add, mul, div, lt, le}

  -- The share of the refund that a distribution is asked for.
  abbrev pub clawback : Num → Num → SplitDistribution Num → RefundDistribution Num
  clawback amount total d = record {
    distribution_id = d.distribution_id;
    recipient_address = d.recipient_address;
    original_amount = d.amount;
    refund_amount = div (mul amount d.amount) total;
    status = "PENDING_CLAWBACK";
  }

  abbrev pub is_paid : SplitDistribution Num → Bool
  is_paid d = same_status d.status SplitStatus.completed

  -- The sum that can be refunded is that of the completed distributions.
  refundable-foldl :
      (total : Num) (ds : List (SplitDistribution Num))
      → (refundable num db total ds).0 ≡ foldl (λ t d. add t d.amount) total (keep is_paid ds)
  unfolding refundable
  refundable-foldl total [] = refl
  refundable-foldl total (d ∷ ds) = elim (Bool-cases (is_completed d.status)) [
    | inl paid ↦ rw paid (refundable-foldl (add total d.amount) ds)
    | inr unpaid ↦ rw unpaid (refundable-foldl total ds)
  ]

  abbrev pub Refunded :
      String → Num → String → ℕ → World db → Result (PaymentSplit Num) × World db → Type 0
  Refunded id amount reason now w (ok s', w') =
      (s : PaymentSplit Num) × (db.splits.find_one id w.splits ≡ some s)
      × (same_status s.status SplitStatus.cancelled ≡ false)
      × (s' ≡ (
          if same_status s.status SplitStatus.completed
          then record s {
            metadata = record (s.metadata) {
              refund_amount = some amount;
              refund_reason = some reason;
              refund_distributions = some (
                  map (clawback amount s.total_amount) (
                    keep is_paid (
                      db.distributions.find_by (λ d. str_eq d.split_id s.split_id)
                        w.distributions)));
              refund_status = some "PENDING_MANUAL_PROCESSING";
              refunded_at = some now;
            };
          }
          else record s {
            status = SplitStatus.cancelled;
            metadata = record (s.metadata) {
              refund_amount = some amount;
              refund_reason = some reason;
              refunded_at = some now;
            };
          }))
      × (w'.splits ≡ db.splits.save s' w.splits)
      × (w'.distributions ≡ w.distributions)
      × Extends num db split_cancelled w.audits w'.audits
  Refunded id amount reason now w (err e, w') = w' ≡ w

  -- What a refund of one distribution makes of the split of it.
  abbrev pub degraded : PaymentSplit Num → PaymentSplit Num
  degraded s =
      if any (λ r. same_status r.distribution_status SplitStatus.failed) s.recipients
      then record s { status = SplitStatus.partially_completed }
      else s

  abbrev pub RefundedOne :
      String → Num → String → ℕ → World db → Result (SplitDistribution Num) × World db → Type 0
  RefundedOne id amount reason now w (ok d', w') =
      (d : SplitDistribution Num) × (db.distributions.find_one id w.distributions ≡ some d)
      × (is_completed d.status ≡ true)
      × (lt d.amount amount ≡ false)
      × (d' ≡ record d {
        status = SplitStatus.failed;
        error_message = some (str_append "Refunded: " reason);
        metadata = record (d.metadata) {
          refund_amount = some amount;
          refund_reason = some reason;
          refunded_at = some now;
        };
      })
      × (db.distributions.find_one id w'.distributions ≡ some d')
      × ((s : PaymentSplit Num)
          → db.splits.find_one d.split_id w.splits ≡ some s
          → db.splits.find_one d.split_id w'.splits ≡ some (degraded s))
      × Extends num db distribution_failed w.audits w'.audits
  RefundedOne id amount reason now w (err e, w') = w' ≡ w

  one-RefundedOne :
      (id : String) (amount : Num) (reason by role : String) (now : ℕ) (w : World db)
      (d : SplitDistribution Num)
      → db.distributions.find_one id w.distributions ≡ some d
      → is_completed d.status ≡ true
      → lt d.amount amount ≡ false
      → RefundedOne id amount reason now w
          (refund_distribution num db d amount reason by role now w)
  unfolding refund_distribution degrade
  one-RefundedOne id amount reason by role now w d found paid enough =
      let d' = refunded_distribution num db amount reason now d in
      let stored : db.distributions.find_one id (db.distributions.save d' w.distributions)
          ≡ some d' =
        ground (
          arith,
          db.distributions.key-find_one id d w.distributions found,
          db.distributions.find_one-save id d' w.distributions,
        ) in
      let answer = refund_distribution num db d amount reason by role now w in
      elim (Option-cases (db.splits.find_one d.split_id w.splits)) [
        | inl lost ↦ rw lost (d, found, paid, enough, refl, stored, λ s k. cc, (refl, refl))
        | inr (s, known) ↦ elim (Bool-cases (any is_failed_recipient s.recipients)) [
          | inl failed ↦
              let s' : PaymentSplit Num = record s { status = SplitStatus.partially_completed } in
              let saved : db.splits.find_one d.split_id (db.splits.save s' w.splits) ≡ some s' =
                ground (
                  arith,
                  db.splits.key-find_one d.split_id s w.splits known,
                  db.splits.find_one-save d.split_id s' w.splits,
                ) in
              rw (known, failed)
                (
                  d,
                  found,
                  paid,
                  enough,
                  refl,
                  stored,
                  λ x k. ground (arith, k, saved, failed),
                  (refl, refl),
                )
          | inr sound ↦
              rw (known, sound)
                (
                  d,
                  found,
                  paid,
                  enough,
                  refl,
                  stored,
                  λ x k. ground (arith, k, known, sound),
                  (refl, refl),
                )
        ]
      ]

  -- A call of `refundSpecificDistribution` that returns has found the distribution COMPLETED, for no
  -- less than the refund, and has stored it FAILED with the refund in its metadata. Its split is set to
  -- PARTIALLY_COMPLETED if one of its recipients was marked FAILED before, and is else unchanged: the
  -- recipient of the distribution is not marked. If the call throws, nothing has changed.
  pub refund_specific_distribution-RefundedOne :
      (id : String) (amount : Num) (reason by role : String) (now : ℕ) (w : World db)
      → RefundedOne id amount reason now w
          (refund_specific_distribution num db id amount reason by role now w)
  unfolding refund_specific_distribution
  refund_specific_distribution-RefundedOne id amount reason by role now w =
      let answer = refund_specific_distribution num db id amount reason by role now w in
      elim (Option-cases (db.distributions.find_one id w.distributions)) [
        | inl absent ↦ ground (arith, absent)
        | inr (d, found) ↦ elim (Bool-cases (is_completed d.status)) [
          | inr other ↦
              let e : (err (bad_request "Can only refund completed distributions"), w) ≡ answer =
                ground (arith, found, other) in
              subst (RefundedOne id amount reason now w) e refl
          | inl paid ↦ elim (Bool-cases (lt d.amount amount)) [
            | inl more ↦
                let e : (err (bad_request "Refund amount cannot exceed distribution amount"), w)
                    ≡ answer =
                  ground (arith, found, paid, more) in
                subst (RefundedOne id amount reason now w) e refl
            | inr enough ↦
                let e : refund_distribution num db d amount reason by role now w ≡ answer =
                  ground (arith, found, paid, enough) in
                subst (RefundedOne id amount reason now w) e
                  (one-RefundedOne id amount reason by role now w d found paid enough)
          ]
        ]
      ]

  abbrev pub PartlyPaid : String → Num → World db → Result (PaymentSplit Num) × World db → Type 0
  PartlyPaid id partial w (ok s', w') =
      (s : PaymentSplit Num) × (db.splits.find_one id w.splits ≡ some s)
      × (same_status s.status SplitStatus.pending ≡ true)
      × (le partial (of_ℕ 0) ≡ false)
      × (lt s.total_amount partial ≡ false)
      × (db.splits.find_one id w'.splits ≡ some s')
      × (s'.status ≡ s.status)
      × (s'.total_amount ≡ partial)
      × (s'.metadata.original_amount ≡ some partial)
      × (s'.recipients ≡ (
          if is_percentage s.split_type
          then map (adjust num db partial) s.recipients
          else s.recipients))
  PartlyPaid id partial w (err e, w') = w' ≡ w

  reduce-PartlyPaid :
      (id : String) (partial : Num) (by role : String) (w : World db) (s : PaymentSplit Num)
      → db.splits.find_one id w.splits ≡ some s
      → same_status s.status SplitStatus.pending ≡ true
      → (le partial (of_ℕ 0) || lt s.total_amount partial) ≡ false
      → PartlyPaid id partial w (reduce_split num db s partial by role w)
  unfolding reduce_split
  reduce-PartlyPaid id partial by role w s found waiting right =
      let s' = partially_paid num db partial s in
      (
        s,
        found,
        waiting,
        ground (arith, right),
        ground (arith, right),
        ground (
          arith,
          db.splits.key-find_one id s w.splits found,
          db.splits.find_one-save id s' w.splits,
        ),
        refl,
        refl,
        refl,
        refl,
      )

  -- `handlePartialPayment` that returns has found the split PENDING and the amount neither zero or
  -- less nor more than the total. The amount is then the total and also what the metadata calls the
  -- original amount; the recipients of a percentage split get their share of it as fixed amounts. If
  -- the call throws, nothing has changed.
  pub handle_partial_payment-PartlyPaid :
      (id : String) (partial : Num) (by role : String) (w : World db)
      → PartlyPaid id partial w (handle_partial_payment num db id partial by role w)
  unfolding handle_partial_payment
  handle_partial_payment-PartlyPaid id partial by role w =
      let answer = handle_partial_payment num db id partial by role w in
      elim (Option-cases (db.splits.find_one id w.splits)) [
        | inl absent ↦ ground (arith, absent)
        | inr (s, found) ↦ elim (Bool-cases (same_status s.status SplitStatus.pending)) [
          | inr other ↦
              let e : (err (bad_request "Can only handle partial payments for pending splits"), w)
                  ≡ answer =
                ground (arith, found, other) in
              subst (PartlyPaid id partial w) e refl
          | inl waiting ↦ elim (Bool-cases (le partial (of_ℕ 0) || lt s.total_amount partial)) [
            | inl wrong ↦
                let e : (err (bad_request "Invalid partial amount"), w) ≡ answer =
                  ground (arith, found, waiting, wrong) in
                subst (PartlyPaid id partial w) e refl
            | inr right ↦
                let e : reduce_split num db s partial by role w ≡ answer =
                  ground (arith, found, waiting, right) in
                subst (PartlyPaid id partial w) e
                  (reduce-PartlyPaid id partial by role w s found waiting right)
          ]
        ]
      ]
