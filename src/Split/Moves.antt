-- ===== src/Split/Moves.antt =====
-- How the status of a stored split may change, request by request.
pub mod Requests
pub mod Histories
use paya.Prelude.{
  ℕ, ◌≤◌, String, Bool, true, false, Option, none, some, ◌≡◌, arith, length, str_eq_iff,
  length-update_first,
}
use paya.Split.Types.{SplitStatus, Recipient, PaymentSplit, Database}
use paya.Split.Distribute.{has_address, mark_recipient, completion_status, count_failure}

-- The changes that some request makes.
abbrev pub may_move : SplitStatus → SplitStatus → Bool
may_move SplitStatus.pending SplitStatus.pending = true
may_move _ SplitStatus.pending = false
may_move SplitStatus.completed SplitStatus.cancelled = false
may_move SplitStatus.executing SplitStatus.cancelled = false
may_move _ _ = true

module _ {Num : Type 0} where
  pub record Follows (s s' : PaymentSplit Num) : Type 0 where
    pub moved : may_move s.status s'.status ≡ true
    pub same_id : s'.split_id ≡ s.split_id
    pub same_merchant : s'.merchant_address ≡ s.merchant_address
    pub same_amount : s'.total_amount ≡ s.total_amount
    pub same_limit : s'.max_retries ≡ s.max_retries
    pub retries_grow : s.retry_count ≤ s'.retry_count
    pub same_recipients : length s'.recipients ≡ length s.recipients

  -- A row of the table before and after a request.
  abbrev pub Kept : Option (PaymentSplit Num) → Option (PaymentSplit Num) → Type 0
  Kept none found = found ≡ none
  Kept (some s) none = ⊥
  Kept (some s) (some s') = Follows s s'

  Follows-refl : (s : PaymentSplit Num) → Follows s s
  Follows-refl s = ground arith

  pub Kept-refl : (found : Option (PaymentSplit Num)) → Kept found found
  Kept-refl none = ground arith
  Kept-refl (some s) = Follows-refl s

  pub completion-Follows :
      (address : String) (now : ℕ) (s : PaymentSplit Num)
      → Follows s (completion_status now (mark_recipient address SplitStatus.completed s))
  unfolding completion_status
  completion-Follows address now s = ground (
    arith,
    length-update_first (has_address address)
        (λ (r : Recipient Num). record r { distribution_status = SplitStatus.completed })
        s.recipients,
  )

  pub failure-Follows :
      (address : String) (s : PaymentSplit Num) → Follows s (count_failure address s)
  unfolding count_failure
  failure-Follows address s = ground (
    arith,
    length-update_first (has_address address)
        (λ (r : Recipient Num). record r { distribution_status = SplitStatus.failed }) s.recipients,
  )

module _ {Num : Type 0} (db : Database Num) where
  pub save-Kept :
      (id j : String) (s s' : PaymentSplit Num) (t : db.splits.Table)
      → db.splits.find_one id t ≡ some s
      → Follows s s'
      → Kept (db.splits.find_one j t) (db.splits.find_one j (db.splits.save s' t))
  save-Kept id j s s' t found h = ground (
    arith,
    db.splits.find_one-save j s' t,
    db.splits.key-find_one id s t,
    str_eq_iff s.split_id id,
    str_eq_iff s.split_id j,
    Kept-refl (db.splits.find_one j t),
  )
