-- ===== src/Refund/Calls.antt =====
-- The requests to `RefundService` that change its tables, as one type.
use paya.Prelude.{ℕ, String, List, [], ◌∷◌}
use paya.Runtime.Action.{Action, pure, ◌>>=◌}
use paya.Runtime.Number.{Number}
use paya.Refund.Types.{
  CreateRefundDto, CreateDisputeDto, UpdateDisputeDto, UploadEvidenceDto, Database, World,
}
use paya.Refund.Process.{process_refund, fail_refund, reverse_refund}
use paya.Refund.Create.{Fresh, create_refund}
use paya.Refund.Disputes.{create_dispute, update_dispute, upload_evidence}

pub data Call (Num : Type 0) : Type 0 where
  create : CreateRefundDto Num → String → String → String → Fresh Num → Call Num
  process : String → String → String → String → ℕ → Call Num
  fail : String → String → String → String → Call Num
  reverse : String → String → String → ℕ → Call Num
  open_dispute : CreateDisputeDto Num → String → String → String → String → String → ℕ → Call Num
  update : String → UpdateDisputeDto → String → String → ℕ → Call Num
  upload : UploadEvidenceDto → String → String → String → Call Num

-- `time` and `add_days` are the functions of `Date` that the handlers call.
module _ (num : Number) (time : String → num.Num) (add_days : ℕ → ℕ → ℕ)
    (db : Database num.Num) where
  open num use {Num}

  abbrev pub forget : {A : Type 0} → Action (World db) A → Action (World db) (Unit {0})
  forget m = m >>= λ _. pure tt

  unfoldable pub run : Call Num → Action (World db) (Unit {0})
  run (Call.create dto merchant by role fresh) =
      forget (create_refund num time db dto merchant by role fresh)
  run (Call.process id by role uuid now) = forget (process_refund db id by role uuid now)
  run (Call.fail id reason by role) = forget (fail_refund db id reason by role)
  run (Call.reverse id by role now) = forget (reverse_refund db id by role now)
  run (Call.open_dispute dto merchant by role uuid policy_uuid now) =
      forget (create_dispute num add_days db dto merchant by role uuid policy_uuid now)
  run (Call.update id dto by role now) = forget (update_dispute db id dto by role now)
  run (Call.upload dto by role uuid) = forget (upload_evidence db dto by role uuid)

  unfoldable pub run_all : List (Call Num) → World db → World db
  run_all [] w = w
  run_all (c ∷ cs) w = run_all cs (run c w).1
