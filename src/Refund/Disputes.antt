-- ===== src/Refund/Disputes.antt =====
-- `createDispute`, `updateDispute` and `uploadEvidence` of backend/src/refund/refund.service.ts.
use Prim.Native.String.{◌++◌ as str_append}
use paya.Prelude.{
  ℕ, ◌+◌, String, Bool, true, false, not, Option, none, some, [], ◌∷◌, str_eq, any, keep,
  if◌then◌else◌, get_or,
}
use paya.Runtime.Action.{Action, pure, ◌>>=◌, ◌>>◌}
use paya.Runtime.Number.{Number, or_zero}
use paya.Refund.Types.{
  DisputeStatus, dispute_created, dispute_updated, evidence_uploaded, Metadata, Dispute, Evidence,
  CreateDisputeDto, UpdateDisputeDto, UploadEvidenceDto, AuditField, Database, World,
}
use paya.Runtime.Text.{or_text}
use paya.Refund.State.{
  find_dispute, get_dispute, save_dispute, insert_dispute, insert_evidence, audit,
  get_merchant_policy,
}

-- The four statuses that set `resolvedAt`.
abbrev pub settles : DisputeStatus → Bool
settles DisputeStatus.resolved = true
settles DisputeStatus.won = true
settles DisputeStatus.lost = true
settles DisputeStatus.closed = true
settles _ = false

-- `{ ...old, ...new }`: a key of both keeps its place and takes the new value.
abbrev pub value_in : String → Metadata → Option String
value_in k [] = none
value_in k ((l, v) ∷ m) = if str_eq l k then some v else value_in k m

abbrev pub has_key : String → Metadata → Bool
has_key k m = any (λ p. str_eq p.0 k) m

unfoldable pub spread : Metadata → Metadata → Metadata
spread [] new = new
spread ((k, v) ∷ old) new =
    (k, get_or (value_in k new) v) ∷ spread old (keep (λ p. not (str_eq p.0 k)) new)

-- `if (text) { … }`: neither missing nor empty.
unfoldable pub set_text : Option String → Option String → Option String
set_text none old = old
set_text (some s) old = if str_eq s "" then old else some s

unfoldable pub set_metadata : Option Metadata → Option Metadata → Option Metadata
set_metadata none old = old
set_metadata (some new) none = some new
set_metadata (some new) (some old) = some (spread old new)

module _ {Num : Type 0} where
  -- The assignments under `if (updateDisputeDto.status)`.
  unfoldable pub set_status : Option DisputeStatus → ℕ → Dispute Num → Dispute Num
  set_status none now d = d
  set_status (some s) now d = record d {
    status = s;
    resolved_at = if settles s then some now else d.resolved_at;
  }

  unfoldable pub apply_update : UpdateDisputeDto → ℕ → Dispute Num → Dispute Num
  apply_update dto now dispute =
      let d = set_status dto.status now dispute in
      record d {
        resolution_notes = set_text dto.resolution_notes d.resolution_notes;
        chargeback_id = set_text dto.chargeback_id d.chargeback_id;
        metadata = set_metadata dto.metadata d.metadata;
      }

module _ {Num : Type 0} (db : Database Num) where
  unfoldable pub update_dispute :
      String → UpdateDisputeDto → String → String → ℕ → Action (World db) (Dispute Num)
  update_dispute dispute_id dto performed_by performed_by_role now = do
    dispute ← get_dispute db dispute_id
    let updated = apply_update dto now dispute
    save_dispute db updated
    audit db (record {
      refund_id = none;
      dispute_id = some dispute.dispute_id;
      action = dispute_updated;
      performed_by = performed_by;
      performed_by_role = performed_by_role;
      previous_state = AuditField.dispute dispute ∷ [];
      new_state = AuditField.dispute updated ∷ [];
      notes = "Dispute status updated";
    })
    pure updated

  -- The update under `if (dispute)`.
  unfoldable pub count_evidence : Option (Dispute Num) → Action (World db) (Unit {0})
  count_evidence none = pure tt
  count_evidence (some d) = save_dispute db (record d { evidence_count = d.evidence_count + 1 })

  unfoldable pub upload_evidence :
      UploadEvidenceDto → String → String → String → Action (World db) Evidence
  upload_evidence dto uploaded_by uploaded_by_role uuid = do
    let evidence : Evidence = record {
      evidence_id = str_append "EVD_" uuid;
      dispute_id = dto.dispute_id;
      uploaded_by = uploaded_by;
      uploaded_by_role = uploaded_by_role;
      evidence_type = dto.evidence_type;
      file_name = dto.file_name;
      file_url = dto.file_url;
      file_size = dto.file_size;
      mime_type = dto.mime_type;
      description = dto.description;
      is_public = get_or dto.is_public false;
    }
    insert_evidence db evidence
    dispute ← find_dispute db dto.dispute_id
    count_evidence dispute
    audit db (record {
      refund_id = none;
      dispute_id = some dto.dispute_id;
      action = evidence_uploaded;
      performed_by = uploaded_by;
      performed_by_role = uploaded_by_role;
      previous_state = [];
      new_state =
          AuditField.evidence_id evidence.evidence_id
          ∷ AuditField.file_name evidence.file_name
          ∷ [];
      notes = str_append "Evidence uploaded: " evidence.file_name;
    })
    pure evidence

-- `add_days d n` is the date `d` after `d.setDate(d.getDate() + n)`.
module _ (num : Number) (add_days : ℕ → ℕ → ℕ) (db : Database num.Num) where
  open num use {Num}

  unfoldable pub create_dispute :
      CreateDisputeDto Num
      → String
      → String
      → String
      → String
      → String
      → ℕ
      → Action (World db) (Dispute Num)
  create_dispute dto merchant_id performed_by performed_by_role uuid policy_uuid now = do
    policy ← get_merchant_policy num db merchant_id policy_uuid
    let dispute : Dispute Num = record {
      dispute_id = str_append "DSP_" uuid;
      payment_id = dto.payment_id;
      refund_id = dto.refund_id;
      merchant_id = merchant_id;
      customer_id = or_text dto.customer_id "unknown";
      amount = or_zero num dto.amount;
      reason = dto.reason;
      reason_description = dto.reason_description;
      status = DisputeStatus.opened;
      evidence_count = 0;
      due_date = add_days now policy.dispute_response_days;
      resolved_at = none;
      resolution_notes = none;
      chargeback_id = none;
      metadata = dto.metadata;
    }
    insert_dispute db dispute
    audit db (record {
      refund_id = none;
      dispute_id = some dispute.dispute_id;
      action = dispute_created;
      performed_by = performed_by;
      performed_by_role = performed_by_role;
      previous_state = [];
      new_state = AuditField.dispute dispute ∷ [];
      notes = str_append "Dispute created for payment " dto.payment_id;
    })
    pure dispute
