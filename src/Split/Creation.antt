-- ===== src/Split/Creation.antt =====
-- What `createSplit` leaves behind, when it returns and when it throws.
use Prim.Native.String.{◌++◌ as str_append}
use paya.Prelude.{
  Option, none, String, some, List, [], ◌∷◌, ◌≡◌, refl, arith, Option-cases, inl, inr, ◌⊎◌, subst,
  map, All, str_eq_iff,
}
use paya.Runtime.Action.{Result, ok, err, query_failed, Result-cases}
use paya.Runtime.Number.{Number}
use paya.Split.Types.{
  SplitStatus, MilestoneStatus, SplitMilestone, PaymentSplit, MilestoneDto, CreateSplitDto,
  split_created, AuditField, Database, World, milestone_key,
}
use paya.Split.Validation.{validate_recipients}
use paya.Split.Create.{
  new_recipient, new_split, create_milestones, new_milestone, milestones_of, create_split,
}
use paya.Split.Calls.{Extends}

module _ (num : Number) (db : Database num.Num) where
  open num use {Num, of_ℕ}

  -- The loop over the milestones writes no split and no audit row.
  create_milestones-frame :
      (id : String) (ms : List (MilestoneDto Num)) (w : World db)
      → ((create_milestones num db id ms w).1.splits ≡ w.splits)
        × ((create_milestones num db id ms w).1.audits ≡ w.audits)
  unfolding create_milestones
  create_milestones-frame id [] w = (refl, refl)
  create_milestones-frame id (m ∷ ms) w =
      elim (Option-cases (db.milestones.insert (new_milestone num db id m) w.milestones)) [
        | inl refused ↦ ground (arith, refused)
        | inr (t, stored) ↦
            ground (arith, stored, create_milestones-frame id ms (record w { milestones = t }))
      ]

  -- The rows of a split and of a milestone at the start.
  abbrev pub start_of : CreateSplitDto Num → String → PaymentSplit Num
  start_of dto id = record {
    split_id = id;
    payment_id = dto.payment_id;
    merchant_address = dto.merchant_address;
    total_amount = dto.total_amount;
    currency = dto.currency;
    split_type = dto.split_type;
    status = SplitStatus.pending;
    recipients =
        map
          (λ r. record {
            address = r.address;
            percentage = r.percentage;
            fixed_amount = r.fixed_amount;
            split_type = r.split_type;
            distributed_amount = of_ℕ 0;
            distribution_status = SplitStatus.pending;
          })
          dto.recipients;
    retry_count = 0;
    max_retries = 3;
    executed_at = none;
    completed_at = none;
    metadata = dto.metadata;
  }

  abbrev pub start_of_milestone : String → MilestoneDto Num → SplitMilestone Num
  start_of_milestone id m = record {
    milestone_id = m.milestone_id;
    split_id = id;
    description = m.description;
    trigger_condition = m.trigger_condition;
    required_amount = m.required_amount;
    status = MilestoneStatus.pending;
    triggered_at = none;
    completed_at = none;
    triggered_by = none;
    completed_by = none;
  }

  abbrev pub asked_milestones : Option (List (MilestoneDto Num)) → List (MilestoneDto Num)
  asked_milestones none = []
  asked_milestones (some ms) = ms

  abbrev pub IsStored : String → World db → MilestoneDto Num → Type 0
  IsStored id w m =
      db.milestones.find_one (milestone_key (start_of_milestone id m)) w.milestones
      ≡ some (start_of_milestone id m)

  new-IsStored :
      (id : String) (m : MilestoneDto Num) (w : World db) (t : db.milestones.Table)
      → db.milestones.insert (start_of_milestone id m) w.milestones ≡ some t
      → IsStored id (record w { milestones = t }) m
  new-IsStored id m w t stored =
      let k = milestone_key (start_of_milestone id m) in
      ground (
        arith,
        db.milestones.find_one-insert k (start_of_milestone id m) w.milestones t stored,
        str_eq_iff id id,
        str_eq_iff m.milestone_id m.milestone_id,
      )

  insert-IsStored :
      (id : String) (m x : MilestoneDto Num) (w : World db) (t : db.milestones.Table)
      → db.milestones.insert (start_of_milestone id m) w.milestones ≡ some t
      → IsStored id w x
      → IsStored id (record w { milestones = t }) x
  insert-IsStored id m x w t stored h =
      let k = milestone_key (start_of_milestone id x) in
      let row = start_of_milestone id m in
      ground (
        arith,
        h,
        db.milestones.find_one-insert k row w.milestones t stored,
        db.milestones.insert-fresh row w.milestones t stored,
        str_eq_iff id id,
        str_eq_iff m.milestone_id x.milestone_id,
      )

  -- The loop overwrites no milestone, since a taken id is refused.
  create_milestones-keeps :
      (id : String) (ms : List (MilestoneDto Num)) (w : World db) (x : MilestoneDto Num)
      → IsStored id w x
      → IsStored id (create_milestones num db id ms w).1 x
  unfolding create_milestones new_milestone
  create_milestones-keeps id [] w x h = h
  create_milestones-keeps id (m ∷ ms) w x h =
      let row = start_of_milestone id m in
      elim (Option-cases (db.milestones.insert row w.milestones)) [
        | inl refused ↦
            let e : w ≡ (create_milestones num db id (m ∷ ms) w).1 = ground (arith, refused) in
            subst (λ (v : World db). IsStored id v x) e h
        | inr (t, stored) ↦
            let w1 : World db = record w { milestones = t } in
            let e : (create_milestones num db id ms w1).1
                ≡ (create_milestones num db id (m ∷ ms) w).1 =
              ground (arith, stored) in
            subst (λ (v : World db). IsStored id v x) e
              (create_milestones-keeps id ms w1 x (insert-IsStored id m x w t stored h))
      ]

  create_milestones-IsStored :
      (id : String) (ms : List (MilestoneDto Num)) (w : World db)
      → (create_milestones num db id ms w).0 ≡ ok tt
      → All (IsStored id (create_milestones num db id ms w).1) ms
  unfolding create_milestones new_milestone
  create_milestones-IsStored id [] w h = tt
  create_milestones-IsStored id (m ∷ ms) w h =
      let row = start_of_milestone id m in
      elim (Option-cases (db.milestones.insert row w.milestones)) [
        | inl refused ↦ absurd (ground (arith, refused, h))
        | inr (t, stored) ↦
            let w1 : World db = record w { milestones = t } in
            let e : create_milestones num db id ms w1 ≡ create_milestones num db id (m ∷ ms) w =
              ground (arith, stored) in
            let done : (create_milestones num db id ms w1).0 ≡ ok tt = ground (arith, e, h) in
            let here : IsStored id w1 m = new-IsStored id m w t stored in
            subst (λ (v : Result (Unit {0}) × World db). All (IsStored id v.1) (m ∷ ms)) e
              (create_milestones-keeps id ms w1 m here, create_milestones-IsStored id ms w1 done)
      ]

  -- How a call with the second uuid `uuid` ends.
  abbrev pub Created :
      CreateSplitDto Num → String → World db → Result (PaymentSplit Num) × World db → Type 0
  Created dto id w (ok s, w') =
      (validate_recipients num dto.recipients dto.split_type ≡ ok tt)
      × (db.splits.find_one id w.splits ≡ none)
      × (s ≡ start_of dto id)
      × (db.splits.find_one id w'.splits ≡ some s)
      × All (IsStored id w') (asked_milestones dto.milestones)
      × Extends num db split_created w.audits w'.audits
  Created dto id w (err e, w') =
      ((w' ≡ w)
        × ((validate_recipients num dto.recipients dto.split_type ≡ err e)
            ⊎ (db.splits.insert (start_of dto id) w.splits ≡ none)))
      ⊎ ((validate_recipients num dto.recipients dto.split_type ≡ ok tt)
          × (db.splits.insert (start_of dto id) w.splits ≡ some w'.splits)
          × (db.splits.find_one id w'.splits ≡ some (start_of dto id))
          × (w'.audits ≡ w.audits))

  -- What follows the insert of the split.
  create-rest :
      (dto : CreateSplitDto Num) (by role uuid : String) (w : World db) (t : db.splits.Table)
      → validate_recipients num dto.recipients dto.split_type ≡ ok tt
      → db.splits.insert (start_of dto (str_append "SPLIT_" uuid)) w.splits ≡ some t
      → Created dto (str_append "SPLIT_" uuid) w (create_split num db dto by role uuid w)
  unfolding create_split new_split new_recipient milestones_of
  create-rest dto by role uuid w t valid stored =
      let id = str_append "SPLIT_" uuid in
      let answer = create_split num db dto by role uuid w in
      let ms = asked_milestones dto.milestones in
      let w1 : World db = record w { splits = t } in
      let w2 = (create_milestones num db id ms w1).1 in
      let (same_splits, same_audits) = create_milestones-frame id ms w1 in
      let free = db.splits.insert-fresh (start_of dto id) w.splits t stored in
      let found : db.splits.find_one id t ≡ some (start_of dto id) = ground (
        arith,
        db.splits.find_one-insert id (start_of dto id) w.splits t stored,
        str_eq_iff id id,
      ) in
      elim (Result-cases (create_milestones num db id ms w1).0) [
        | inl (x, refused) ↦
            let e : (err x, w2) ≡ answer = ground (arith, valid, stored, refused) in
            subst (Created dto id w) e (
              inr (
                valid,
                ground (arith, stored, same_splits),
                ground (arith, found, same_splits),
                same_audits,
              ))
        | inr (_, done) ↦
            let w3 : World db = record w2 {
              audits =
                  record {
                    split_id = id;
                    distribution_id = none;
                    milestone_id = none;
                    action = split_created;
                    performed_by = by;
                    performed_by_role = role;
                    old_state = [];
                    new_state = AuditField.split (start_of dto id) ∷ [];
                  }
                  ∷ w2.audits;
            } in
            let e : (ok (start_of dto id), w3) ≡ answer = ground (arith, valid, stored, done) in
            subst (Created dto id w) e (
              valid,
              free,
              refl,
              ground (arith, found, same_splits),
              create_milestones-IsStored id ms w1 done,
              (same_audits, refl),
            )
      ]

  -- `createSplit` that returns has passed the validation under an id that was free, and has stored the
  -- split: PENDING, with the fields and the recipients of the request, nothing distributed and no
  -- retry counted. Every milestone of the request is stored as PENDING, and one audit row was
  -- written. One that throws has either changed no table, because the validation failed or the split
  -- was refused, or it has stored the same split, which stays, and written no audit row.
  pub create_split-Created :
      (dto : CreateSplitDto Num) (by role uuid : String) (w : World db)
      → Created dto (str_append "SPLIT_" uuid) w (create_split num db dto by role uuid w)
  unfolding create_split new_split new_recipient
  create_split-Created dto by role uuid w =
      let id = str_append "SPLIT_" uuid in
      elim (Result-cases (validate_recipients num dto.recipients dto.split_type)) [
        | inl (e, invalid) ↦ ground (arith, invalid)
        | inr (_, valid) ↦ elim (Option-cases (db.splits.insert (start_of dto id) w.splits)) [
          | inl refused ↦
              let e : (err query_failed, w) ≡ create_split num db dto by role uuid w =
                ground (arith, valid, refused) in
              subst (Created dto id w) e (inl (refl, inr refused))
          | inr (t, stored) ↦ create-rest dto by role uuid w t valid stored
        ]
      ]
