-- ===== src/Refund/State.antt =====
-- The reads and writes of `RefundService`, on the service's tables, and `getMerchantPolicy`.
use Prim.Native.String.{◌++◌ as str_append}
use paya.Prelude.{Bool, String, Option, none, some, List, [], ◌∷◌, str_eq, ◌&&◌, true, false}
use paya.Runtime.Action.{
  Action, ok, err, not_found, query_failed, pure, gets, or_throw, modify, ◌>>=◌,
}
use paya.Runtime.Number.{Number}
use paya.Refund.Types.{Refund, Dispute, RefundPolicy, Evidence, RefundAudit, Database, World}

module _ {Num : Type 0} (db : Database Num) where
  -- `findOne` and the `NotFoundException` that follows it.
  abbrev pub get_refund : String → Action (World db) (Refund Num)
  get_refund id = do
    found ← gets (λ w. db.refunds.find_one id w.refunds)
    or_throw found (not_found "Refund not found")

  abbrev pub save_refund : Refund Num → Action (World db) (Unit {0})
  save_refund r = modify (λ w. record w { refunds = db.refunds.save r w.refunds })

  abbrev pub insert_refund : Refund Num → Action (World db) (Unit {0})
  insert_refund r w = elim (db.refunds.insert r w.refunds) [
    | none ↦ (err query_failed, w)
    | some t ↦ (ok tt, record w { refunds = t })
  ]

  abbrev pub find_dispute : String → Action (World db) (Option (Dispute Num))
  find_dispute id = gets (λ w. db.disputes.find_one id w.disputes)

  abbrev pub get_dispute : String → Action (World db) (Dispute Num)
  get_dispute id = do found ← find_dispute id; or_throw found (not_found "Dispute not found")

  abbrev pub save_dispute : Dispute Num → Action (World db) (Unit {0})
  save_dispute d = modify (λ w. record w { disputes = db.disputes.save d w.disputes })

  abbrev pub insert_dispute : Dispute Num → Action (World db) (Unit {0})
  insert_dispute d w = elim (db.disputes.insert d w.disputes) [
    | none ↦ (err query_failed, w)
    | some t ↦ (ok tt, record w { disputes = t })
  ]

  abbrev pub insert_evidence : Evidence → Action (World db) (Unit {0})
  insert_evidence e w = elim (db.evidence.insert e w.evidence) [
    | none ↦ (err query_failed, w)
    | some t ↦ (ok tt, record w { evidence = t })
  ]

  -- `createAudit`
  abbrev pub audit : RefundAudit Num → Action (World db) (Unit {0})
  audit a = modify (λ w. record w { audits = a ∷ w.audits })

module _ (num : Number) (db : Database num.Num) where
  open num use {Num, of_ℕ}

  -- `where: { merchantId, isActive: true }`
  abbrev pub active_for : String → RefundPolicy Num → Bool
  active_for merchant_id p = str_eq p.merchant_id merchant_id && p.is_active

  -- `findOne`, the first row that a `find` with this condition gives.
  abbrev pub first : List (RefundPolicy Num) → Option (RefundPolicy Num)
  first [] = none
  first (p ∷ ps) = some p

  abbrev pub default_policy : String → String → RefundPolicy Num
  default_policy merchant_id uuid = record {
    policy_id = str_append "POL_" uuid;
    merchant_id = merchant_id;
    refund_window_days = of_ℕ 30;
    processing_fee_percentage = of_ℕ 5;
    minimum_fee = of_ℕ 0;
    auto_approve_threshold = of_ℕ 100;
    dispute_response_days = 14;
    chargeback_response_days = 90;
    require_approval = false;
    auto_process = true;
    is_active = true;
  }

  abbrev pub insert_policy : RefundPolicy Num → Action (World db) (RefundPolicy Num)
  insert_policy p w = elim (db.policies.insert p w.policies) [
    | none ↦ (err query_failed, w)
    | some t ↦ (ok p, record w { policies = t })
  ]

  -- `if (!policy) { … }`, and the policy that is returned.
  abbrev pub or_default :
      Option (RefundPolicy Num) → String → String → Action (World db) (RefundPolicy Num)
  or_default none merchant_id uuid = insert_policy (default_policy merchant_id uuid)
  or_default (some p) merchant_id uuid = pure p

  unfoldable pub get_merchant_policy : String → String → Action (World db) (RefundPolicy Num)
  get_merchant_policy merchant_id uuid = do
    found ← gets (λ w. first (db.policies.find_by (active_for merchant_id) w.policies))
    or_default found merchant_id uuid
