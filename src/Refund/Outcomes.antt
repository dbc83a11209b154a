-- ===== src/Refund/Outcomes.antt =====
-- What `createRefund`, `processRefund`, `failRefund` and `reverseRefund` do to the refund they name.
use Prim.Native.String.{◌++◌ as str_append}
use paya.Prelude.{
  ℕ, ◌*◌, String, true, false, none, some, ◌≡◌, ◌↔◌, ◌⊎◌, inl, inr, refl, arith, if◌then◌else◌,
}
use paya.Runtime.Action.{Result, ok, err, is_ok, Result-cases}
use paya.Runtime.Number.{Number}
use paya.Refund.Types.{RefundStatus, Refund, RefundPolicy, CreateRefundDto, Database, World}
use paya.Refund.State.{get_merchant_policy}
use paya.Refund.Process.{process_refund, fail_refund, reverse_refund}
use paya.Refund.Create.{Fresh, expired, new_refund, auto_approved, refund_amount, create_refund}

module _ {Num : Type 0} (db : Database Num) where
  -- On a stored refund, `processRefund` returns exactly if it is PENDING, `reverseRefund` exactly if
  -- it is COMPLETED, and `failRefund` in every status.
  pub gates-ok :
      (id reason by role uuid : String) (now : ℕ) (w : World db) (r : Refund Num)
      → db.refunds.find_one id w.refunds ≡ some r
      → ((is_ok (process_refund db id by role uuid now w).0 ≡ true)
          ↔ (r.status ≡ RefundStatus.pending))
        × ((is_ok (reverse_refund db id by role now w).0 ≡ true)
            ↔ (r.status ≡ RefundStatus.completed))
        × (is_ok (fail_refund db id reason by role w).0 ≡ true)
  unfolding process_refund reverse_refund fail_refund
  gates-ok id reason by role uuid now w r found = (
    (λ h. ground (arith, h), λ h. ground (arith, h)),
    (λ h. ground (arith, h), λ h. ground (arith, h)),
    ground arith,
  )

  -- `failRefund` marks any stored refund FAILED, also one that was COMPLETED or REVERSED, and leaves
  -- its transaction and its completion time in place.
  pub fail_refund-marks :
      (id reason by role : String) (w : World db) (r : Refund Num)
      → db.refunds.find_one id w.refunds ≡ some r
      → let w' = (fail_refund db id reason by role w).1 in
        (r' : Refund Num) × (db.refunds.find_one id w'.refunds ≡ some r')
        × (r'.status ≡ RefundStatus.failed)
        × (r'.failure_reason ≡ some reason)
        × (r'.transaction_hash ≡ r.transaction_hash)
        × (r'.processed_at ≡ r.processed_at)
        × (r'.net_amount ≡ r.net_amount)
  unfolding fail_refund
  fail_refund-marks id reason by role w r found =
      let r' : Refund Num = record r {
        status = RefundStatus.failed;
        failure_reason = some reason;
      } in
      (
        r',
        ground (
          arith,
          db.refunds.find_one-save id r' w.refunds,
          db.refunds.key-find_one id r w.refunds found,
        ),
        refl,
        refl,
        refl,
        refl,
        refl,
      )

  -- The refund after `processRefund`.
  abbrev pub completed_by : Fresh Num → Refund Num → Refund Num
  completed_by fresh r = record r {
    status = RefundStatus.completed;
    processed_at = some fresh.processed_at;
    transaction_hash = some (str_append "TX_" fresh.transaction_uuid);
  }

module _ (num : Number) (time : String → num.Num) (db : Database num.Num) where
  open num use {Num, nan, sub}

  -- How a call that has the policy `p` in the state `w` ends.
  abbrev pub Created :
      CreateRefundDto Num
      → String
      → Fresh Num
      → RefundPolicy Num
      → World db
      → Result (Refund Num) × World db
      → Type 0
  Created dto merchant fresh p w (ok r, w') =
      (expired num time fresh.now p.refund_window_days dto.payment_date ≡ false)
      × (r ≡ new_refund num dto (str_append "REF_" fresh.refund_uuid) merchant p)
      × (db.refunds.find_one r.refund_id w.refunds ≡ none)
      × (db.refunds.find_one r.refund_id w'.refunds
          ≡ some (if auto_approved num dto p then completed_by db fresh r else r))
  Created dto merchant fresh p w (err _, w') =
      (w' ≡ w)
      × ((expired num time fresh.now p.refund_window_days dto.payment_date ≡ true)
          ⊎ (db.refunds.insert (new_refund num dto (str_append "REF_" fresh.refund_uuid) merchant p)
                w.refunds
              ≡ none))

  expired-invalid :
      (now window : Num) (date : String)
      → time date ≡ nan
      → expired num time now window (some date) ≡ expired num time now window none
  unfolding expired
  expired-invalid now window date invalid = ground (
    arith,
    invalid,
    num.sub-nan_right now,
    num.div-nan_left (num.of_ℕ (1000 * 60 * 60 * 24)),
    num.lt-nan_right window,
  )

  -- A payment date that `Date` does not read is treated as no date: the window is not checked.
  pub create_refund-no_date :
      (dto : CreateRefundDto Num) (merchant by role : String) (fresh : Fresh Num) (w : World db)
      (date : String)
      → dto.payment_date ≡ some date
      → time date ≡ nan
      → create_refund num time db dto merchant by role fresh w
        ≡ create_refund num time db (record dto { payment_date = none }) merchant by role fresh w
  unfolding create_refund new_refund auto_approved refund_amount
  create_refund-no_date dto merchant by role fresh w date given invalid =
      let start = get_merchant_policy num db merchant fresh.policy_uuid w in
      elim (Result-cases start.0) [
        | inl (e, stopped) ↦ ground (arith, stopped)
        | inr (p, found) ↦
            ground
              (arith, found, given, expired-invalid fresh.now p.refund_window_days date invalid)
      ]
