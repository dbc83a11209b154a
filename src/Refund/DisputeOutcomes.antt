-- ===== src/Refund/DisputeOutcomes.antt =====
-- What `updateDispute` and `uploadEvidence` do to the dispute they name.
use Prim.Native.String.{◌++◌ as str_append}
use paya.Prelude.{
  ℕ, ◌+◌, String, Bool, false, not, Option, none, some, [], ◌∷◌, ◌≡◌, inl, inr, refl, arith, str_eq,
  str_eq_iff, Option-cases, if◌then◌else◌, keep, get_or,
}
use paya.Runtime.Action.{Result, ok, err}
use paya.Refund.Types.{
  DisputeStatus, Metadata, Dispute, Evidence, UpdateDisputeDto, UploadEvidenceDto, Database, World,
}
use paya.Refund.Disputes.{
  settles, value_in, spread, set_status, set_metadata, apply_update, update_dispute, count_evidence,
  upload_evidence,
}

abbrev pub or_else : Option String → Option String → Option String
or_else none b = b
or_else (some a) b = some a

value_in-keep :
    (j k : String) (m : Metadata)
    → value_in k (keep (λ p. not (str_eq p.0 j)) m) ≡ (if str_eq j k then none else value_in k m)
value_in-keep j k [] = ground arith
value_in-keep j k ((l, v) ∷ m) =
    ground (arith, str_eq_iff l j, str_eq_iff l k, str_eq_iff j k, value_in-keep j k m)

-- The value under a key of `{ ...old, ...new }` is that of `new`, or else that of `old`.
pub value_in-spread :
    (k : String) (old new : Metadata)
    → value_in k (spread old new) ≡ or_else (value_in k new) (value_in k old)
unfolding spread
value_in-spread k [] new = ground arith
value_in-spread k ((j, v) ∷ old) new = ground (
  arith,
  str_eq_iff j k,
  value_in-keep j k new,
  value_in-spread k old (keep (λ p. not (str_eq p.0 j)) new),
)

-- The value under a key of a column that may be null.
abbrev pub meta : String → Option Metadata → Option String
meta k none = none
meta k (some m) = value_in k m

abbrev pub settling : Option DisputeStatus → Bool
settling none = false
settling (some s) = settles s

meta-set_metadata :
    (k : String) (new old : Option Metadata)
    → meta k (set_metadata new old) ≡ or_else (meta k new) (meta k old)
unfolding set_metadata
meta-set_metadata k none old = refl
meta-set_metadata k (some new) none = ground arith
meta-set_metadata k (some new) (some old) = value_in-spread k old new

module _ {Num : Type 0} where
  -- The row before and after an update.
  pub record Updates (dto : UpdateDisputeDto) (now : ℕ) (d d' : Dispute Num) : Type 0 where
    pub status_set : d'.status ≡ (elim dto.status [ none ↦ d.status | some s ↦ s ])
    pub resolved_set : d'.resolved_at ≡ (if settling dto.status then some now else d.resolved_at)
    pub metadata_set :
        (k : String) → meta k d'.metadata ≡ or_else (meta k dto.metadata) (meta k d.metadata)
    pub same_id : d'.dispute_id ≡ d.dispute_id
    pub same_refund : d'.refund_id ≡ d.refund_id
    pub same_amount : d'.amount ≡ d.amount
    pub same_evidence : d'.evidence_count ≡ d.evidence_count
    pub same_due : d'.due_date ≡ d.due_date

  apply_update-Updates :
      (dto : UpdateDisputeDto) (now : ℕ) (d : Dispute Num)
      → Updates dto now d (apply_update dto now d)
  unfolding apply_update set_status
  apply_update-Updates dto now d = record {
    status_set = ground arith;
    resolved_set = ground arith;
    metadata_set = λ k. ground (arith, meta-set_metadata k dto.metadata d.metadata);
    same_id = ground arith;
    same_refund = ground arith;
    same_amount = ground arith;
    same_evidence = ground arith;
    same_due = ground arith;
  }

module _ {Num : Type 0} (db : Database Num) where
  -- `updateDispute` on a stored dispute returns the row that it stores. The status is the one of the
  -- request, if it has one, with no regard to the status before; `resolvedAt` is set if the request
  -- has one of the four final statuses, and is otherwise kept, also when a dispute is reopened; each
  -- key of the metadata has the value of the request, or else the one before.
  pub update_dispute-Updates :
      (id : String) (dto : UpdateDisputeDto) (by role : String) (now : ℕ) (w : World db)
      (d : Dispute Num)
      → db.disputes.find_one id w.disputes ≡ some d
      → let (r, w') = update_dispute db id dto by role now w in
        (d' : Dispute Num) × (r ≡ ok d')
        × (db.disputes.find_one id w'.disputes ≡ some d')
        × Updates dto now d d'
  unfolding update_dispute
  update_dispute-Updates id dto by role now w d found =
      let d' = apply_update dto now d in
      let u = apply_update-Updates dto now d in
      (
        d',
        ground arith,
        ground (
          arith,
          u.same_id,
          str_eq_iff d.dispute_id id,
          str_eq_iff d'.dispute_id id,
          db.disputes.find_one-save id d' w.disputes,
          db.disputes.key-find_one id d w.disputes found,
        ),
        u,
      )

  -- The dispute after an upload, which may be missing.
  abbrev pub counted : Option (Dispute Num) → Option (Dispute Num)
  counted none = none
  counted (some d) = some (record d { evidence_count = d.evidence_count + 1 })

  abbrev pub Uploaded : UploadEvidenceDto → World db → Result Evidence × World db → Type 0
  Uploaded dto w (ok e, w') =
      (db.evidence.find_one e.evidence_id w.evidence ≡ none)
      × (db.evidence.find_one e.evidence_id w'.evidence ≡ some e)
      × (e.dispute_id ≡ dto.dispute_id)
      × (db.disputes.find_one dto.dispute_id w'.disputes
          ≡ counted (db.disputes.find_one dto.dispute_id w.disputes))
  Uploaded dto w (err _, w') = w' ≡ w

  -- `uploadEvidence` that returns has stored a new row of evidence for the dispute and has raised
  -- the evidence count of the dispute by one; if there is no such dispute, the evidence is stored
  -- all the same. A call that throws has changed nothing.
  pub upload_evidence-Uploaded :
      (dto : UploadEvidenceDto) (by role uuid : String) (w : World db)
      → Uploaded dto w (upload_evidence db dto by role uuid w)
  unfolding upload_evidence count_evidence
  upload_evidence-Uploaded dto by role uuid w =
      let e : Evidence = record {
        evidence_id = str_append "EVD_" uuid;
        dispute_id = dto.dispute_id;
        uploaded_by = by;
        uploaded_by_role = role;
        evidence_type = dto.evidence_type;
        file_name = dto.file_name;
        file_url = dto.file_url;
        file_size = dto.file_size;
        mime_type = dto.mime_type;
        description = dto.description;
        is_public = get_or dto.is_public false;
      } in
      elim (Option-cases (db.evidence.insert e w.evidence)) [
        | inl refused ↦ ground (arith, refused)
        | inr (t, done) ↦ elim (Option-cases (db.disputes.find_one dto.dispute_id w.disputes)) [
          | inl lost ↦ ground (
            arith,
            done,
            db.evidence.insert-fresh e w.evidence t done,
            db.evidence.find_one-insert e.evidence_id e w.evidence t done,
            str_eq_iff e.evidence_id e.evidence_id,
          )
          | inr (d, found) ↦ ground (
            arith,
            done,
            found,
            db.evidence.insert-fresh e w.evidence t done,
            db.evidence.find_one-insert e.evidence_id e w.evidence t done,
            str_eq_iff e.evidence_id e.evidence_id,
            db.disputes.key-find_one dto.dispute_id d w.disputes found,
            db.disputes.find_one-save dto.dispute_id
                (record d { evidence_count = d.evidence_count + 1 }) w.disputes,
          )
        ]
      ]
