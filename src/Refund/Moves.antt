-- ===== src/Refund/Moves.antt =====
-- How a stored refund may change.
pub mod Handlers
pub mod Histories
use Prim.Native.String.{◌++◌ as str_append}
use paya.Prelude.{
  ℕ, String, Bool, true, false, not, Option, none, some, List, [], ◌∷◌, ◌≡◌, arith, str_eq,
  str_eq_iff, Option-cases, inl, inr, refl,
}
use paya.Runtime.Action.{Action, Result-cases}
use paya.Runtime.Number.{Number}
use paya.Refund.Types.{
  RefundStatus, same_status, Refund, CreateRefundDto, CreateDisputeDto, UpdateDisputeDto,
  UploadEvidenceDto, Database, World,
}
use paya.Refund.State.{get_merchant_policy}
use paya.Refund.Process.{process_refund, fail_refund, reverse_refund}
use paya.Refund.Create.{
  Fresh, new_refund, auto_process, auto_approved, record_refund, create_refund,
}
use paya.Refund.Disputes.{create_dispute, update_dispute, count_evidence, upload_evidence}
use paya.Refund.Calls.{Call, forget, run, run_all}

-- What some list of requests makes of a status.
abbrev pub may_become : RefundStatus → RefundStatus → Bool
may_become RefundStatus.pending s = not (same_status s RefundStatus.processing)
may_become RefundStatus.completed RefundStatus.completed = true
may_become RefundStatus.completed RefundStatus.reversed = true
may_become RefundStatus.processing RefundStatus.processing = true
may_become RefundStatus.reversed RefundStatus.reversed = true
may_become _ RefundStatus.failed = true
may_become _ _ = false

may_become_refl : (s : RefundStatus) → may_become s s ≡ true
may_become_refl s = ground arith

may_become_trans :
    (s t u : RefundStatus) → may_become s t ≡ true → may_become t u ≡ true → may_become s u ≡ true
may_become_trans s t u h k = ground (arith, h, k)

module _ {Num : Type 0} where
  pub record Follows (r r' : Refund Num) : Type 0 where
    pub moved : may_become r.status r'.status ≡ true
    pub same_id : r'.refund_id ≡ r.refund_id
    pub same_payment : r'.payment_id ≡ r.payment_id
    pub same_merchant : r'.merchant_id ≡ r.merchant_id
    pub same_customer : r'.customer_id ≡ r.customer_id
    pub same_amount : r'.refund_amount ≡ r.refund_amount
    pub same_fee : r'.fee_amount ≡ r.fee_amount
    pub same_net : r'.net_amount ≡ r.net_amount

  -- A row of the table before and after.
  abbrev pub Kept : Option (Refund Num) → Option (Refund Num) → Type 0
  Kept none none = Unit
  Kept none (some r) = may_become RefundStatus.pending r.status ≡ true
  Kept (some r) none = ⊥
  Kept (some r) (some r') = Follows r r'

  Follows-refl : (r : Refund Num) → Follows r r
  Follows-refl r = ground (arith, may_become_refl r.status)

  pub Kept-refl : (found : Option (Refund Num)) → Kept found found
  Kept-refl none = tt
  Kept-refl (some r) = Follows-refl r

  pub Kept-trans : (a b c : Option (Refund Num)) → Kept a b → Kept b c → Kept a c
  Kept-trans none none c h k = k
  Kept-trans none (some r) none h k = tt
  Kept-trans none (some r) (some s) h k =
      may_become_trans RefundStatus.pending r.status s.status h k.moved
  Kept-trans (some r) none c h k = absurd h
  Kept-trans (some r) (some s) none h k = absurd k
  Kept-trans (some r) (some s) (some t) h k =
      ground (arith, may_become_trans r.status s.status t.status h.moved k.moved)

module _ {Num : Type 0} (db : Database Num) where
  abbrev pub Keeps : String → World db → World db → Type 0
  Keeps j w w' = Kept (db.refunds.find_one j w.refunds) (db.refunds.find_one j w'.refunds)

  pub Keeps-refl : (j : String) (w : World db) → Keeps j w w
  Keeps-refl j w = Kept-refl (db.refunds.find_one j w.refunds)

  pub save-Kept :
      (id j : String) (r r' : Refund Num) (t : db.refunds.Table)
      → db.refunds.find_one id t ≡ some r
      → Follows r r'
      → Kept (db.refunds.find_one j t) (db.refunds.find_one j (db.refunds.save r' t))
  save-Kept id j r r' t found h = ground (
    arith,
    db.refunds.find_one-save j r' t,
    db.refunds.key-find_one id r t found,
    str_eq_iff r.refund_id id,
    str_eq_iff r.refund_id j,
    Kept-refl (db.refunds.find_one j t),
  )
