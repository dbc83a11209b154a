-- ===== src/Split/DistributionOutcomes.antt =====
-- What the requests about distributions do to a split: `distributeToRecipient`,
-- `confirmDistribution` and `failDistribution` of
-- backend/src/payment-split/payment-split.service.ts.
use paya.Prelude.{
  List, [], ◌∷◌, false, ℕ, ◌+◌, ◌≤◌, ◌<◌, String, true, false, some, ◌≡◌, ◌↔◌, ◌⊎◌, arith, str_eq,
  str_eq_iff, Option-cases, inl, inr, find, update_first, every, List, [], ◌∷◌, refl,
}
use paya.Runtime.Action.{is_ok}
use paya.Runtime.Number.{Number}
use paya.Split.Types.{
  SplitStatus, Recipient, PaymentSplit, SplitDistribution, DistributeRecipientDto, Database, World,
}
use paya.Split.Distribute.{
  has_address, has_status, mark_recipient, completion_status, count_failure, start_recipient,
  distribute_to_recipient, confirm_distribution, fail_distribution,
}
use paya.Split.Outcomes.{find_one-save_self}

module _ {Num : Type 0} where
  -- A change of the first recipient with one address does not show under another.
  find-update_first_ne :
      (a b : String) (f : Recipient Num → Recipient Num) (rs : List (Recipient Num))
      → ((r : Recipient Num) → (f r).address ≡ r.address)
      → str_eq a b ≡ false
      → find (has_address b) (update_first (has_address a) f rs) ≡ find (has_address b) rs
  find-update_first_ne a b f [] keep ne = refl
  find-update_first_ne a b f (r ∷ rs) keep ne = ground (
    arith,
    keep r,
    str_eq_iff r.address a,
    str_eq_iff r.address b,
    str_eq_iff (f r).address b,
    str_eq_iff a b,
    find-update_first_ne a b f rs keep ne,
  )

  find-update_first_self :
      (a : String) (f : Recipient Num → Recipient Num) (rs : List (Recipient Num))
      (r : Recipient Num)
      → ((q : Recipient Num) → (f q).address ≡ q.address)
      → find (has_address a) rs ≡ some r
      → find (has_address a) (update_first (has_address a) f rs) ≡ some (f r)
  find-update_first_self a f [] r keep found = cc
  find-update_first_self a f (q ∷ rs) r keep found = ground (
    arith,
    keep q,
    str_eq_iff q.address a,
    str_eq_iff (f q).address a,
    find-update_first_self a f rs r keep,
  )

module _ (num : Number) (db : Database num.Num) where
  open num use {Num, add}

  -- `failDistribution` on a stored distribution of a stored split raises the retry count of the split
  -- by one. The split is then FAILED exactly if the count has reached the limit, and
  -- PARTIALLY_COMPLETED exactly if it is below.
  pub fail_distribution-counts :
      (id message : String) (w : World db) (d : SplitDistribution Num) (s : PaymentSplit Num)
      → db.distributions.find_one id w.distributions ≡ some d
      → db.splits.find_one d.split_id w.splits ≡ some s
      → let w' = (fail_distribution num db id message w).1 in
        (s' : PaymentSplit Num) × (db.splits.find_one d.split_id w'.splits ≡ some s')
        × (s'.retry_count ≡ s.retry_count + 1)
        × ((s'.status ≡ SplitStatus.failed) ↔ (s.max_retries ≤ s'.retry_count))
        × ((s'.status ≡ SplitStatus.partially_completed) ↔ (s'.retry_count < s.max_retries))
  unfolding fail_distribution count_failure
  fail_distribution-counts id message w d s found_d found_s = (
    count_failure d.recipient_address s,
    ground (
      arith,
      find_one-save_self db d.split_id s (count_failure d.recipient_address s) w.splits found_s,
    ),
    refl,
    (λ h. ground (arith, h), λ h. ground (arith, h)),
    (λ h. ground (arith, h), λ h. ground (arith, h)),
  )

  -- `confirmDistribution` on a stored distribution of a stored split makes the split COMPLETED if all
  -- its recipients are COMPLETED after the call, and otherwise the split is COMPLETED only if it was
  -- before.
  pub confirm_distribution-completes :
      (id hash : String) (now later : ℕ) (w : World db) (d : SplitDistribution Num)
      (s : PaymentSplit Num)
      → db.distributions.find_one id w.distributions ≡ some d
      → db.splits.find_one d.split_id w.splits ≡ some s
      → let w' = (confirm_distribution num db id hash now later w).1 in
        (s' : PaymentSplit Num) × (db.splits.find_one d.split_id w'.splits ≡ some s')
        × (every (has_status SplitStatus.completed) s'.recipients ≡ true
            → s'.status ≡ SplitStatus.completed)
        × (s'.status ≡ SplitStatus.completed
            → (every (has_status SplitStatus.completed) s'.recipients ≡ true)
              ⊎ (s.status ≡ SplitStatus.completed))
  unfolding confirm_distribution completion_status
  confirm_distribution-completes id hash now later w d s found_d found_s =
      let s' =
        completion_status later (mark_recipient d.recipient_address SplitStatus.completed s) in
      (
        s',
        ground (arith, find_one-save_self db d.split_id s s' w.splits found_s),
        λ h. ground (arith, h),
        λ h. ground (arith, h),
      )

  -- What a distribution changes: the first recipient with the address of the request, and no other.
  abbrev pub Adds : DistributeRecipientDto Num → PaymentSplit Num → World db → Type 0
  Adds dto s w =
      (s' : PaymentSplit Num) × (r : Recipient Num) × (db.splits.find_one dto.split_id w.splits
        ≡ some s')
      × (s.status ≡ SplitStatus.executing)
      × (s'.status ≡ SplitStatus.executing)
      × (find (has_address dto.recipient_address) s.recipients ≡ some r)
      × (find (has_address dto.recipient_address) s'.recipients
          ≡ some (record r {
            distributed_amount = add r.distributed_amount dto.amount;
            distribution_status = SplitStatus.executing;
          }))
      × ((b : String)
          → str_eq dto.recipient_address b ≡ false
          → find (has_address b) s'.recipients ≡ find (has_address b) s.recipients)

  -- A call of `distributeToRecipient` on a stored split that returns found it EXECUTING and found
  -- the recipient. It leaves the split EXECUTING, adds the amount to what this recipient has been
  -- sent and marks it EXECUTING, and changes the recipients under no other address.
  pub distribute_to_recipient-Adds :
      (dto : DistributeRecipientDto Num) (by role : String) (now : ℕ) (w : World db)
      (s : PaymentSplit Num)
      → db.splits.find_one dto.split_id w.splits ≡ some s
      → is_ok (distribute_to_recipient num db dto by role now w).0 ≡ true
      → Adds dto s (distribute_to_recipient num db dto by role now w).1
  unfolding distribute_to_recipient
  distribute_to_recipient-Adds dto by role now w s found done =
      elim (Option-cases (find (has_address dto.recipient_address) s.recipients)) [
        | inl unknown ↦ absurd (ground (arith, done))
        | inr (r, known) ↦
            let s' = start_recipient num db dto s in
            let f : Recipient Num → Recipient Num = λ q. record q {
              distributed_amount = add q.distributed_amount dto.amount;
              distribution_status = SplitStatus.executing;
            } in
            (
              s',
              r,
              ground (arith, done, find_one-save_self db dto.split_id s s' w.splits found),
              ground (arith, done),
              ground (arith, done),
              known,
              find-update_first_self dto.recipient_address f s.recipients r (λ q. refl) known,
              λ b ne. find-update_first_ne dto.recipient_address b f s.recipients (λ q. refl) ne,
            )
      ]
