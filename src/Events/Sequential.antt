-- ===== src/Events/Sequential.antt =====
-- One call of `appendEvent`, or of `appendEvents`, with no other call under way.
use mathlib.Core.List.{reverse, reverse-cons, map-append, append_assoc}
use paya.Prelude.{
  ◌*◌, ◌≤◌, some, Bool-cases, Option-cases, subst, ℕ, ◌+◌, ◌<◌, String, true, false, Option, List,
  [], ◌∷◌, ◌++◌, ◌≡◌, ◌≢◌, refl, sym, ◌∙◌, arith, ◌⊎◌, inl, inr, map, ap,
}
use paya.Runtime.Action.{Result, ok, err, conflict, query_failed, bind-ok}
use paya.Events.Types.{
  DomainEvent, EventRecord, EventRow, EventTable, Inserted-cases, unique_violation, Store,
  top_version, version_of, Counter, count, value, plus_one,
}
use paya.Events.Append.{mismatch, place, row_of, record_of, notify, notify_all, append_event}
use paya.Events.Versions.{clash-le, next_lem}

module _ {Payload : Type 0} (db : EventTable Payload) where
  abbrev pub calls : List ℕ → EventRecord Payload → List (ℕ × EventRecord Payload)
  calls hs e = map (λ h. (h, e)) (reverse hs)

  calls-cons :
      (h : ℕ) (hs : List ℕ) (e : EventRecord Payload) (d : List (ℕ × EventRecord Payload))
      → calls (h ∷ hs) e ++ d ≡ calls hs e ++ (h, e) ∷ d
  calls-cons h hs e d = simp (reverse-cons, map-append, append_assoc)

  notify_lem :
      (hs : List ℕ) (e : EventRecord Payload) (w : Store db)
      → notify db hs e w ≡ (ok tt, record w { delivered = calls hs e ++ w.delivered })
  unfolding notify
  notify_lem [] e w = refl
  notify_lem (h ∷ hs) e w =
      notify_lem hs e (record w { delivered = (h, e) ∷ w.delivered })
      ∙ ap {B = Result (Unit {0}) × Store db} (λ d. (ok tt, record w { delivered = d }))
          (sym (calls-cons h hs e w.delivered))

  pub notify_all_lem :
      (s : String) (e : EventRecord Payload) (w : Store db)
      → notify_all db s e w ≡ (
        ok tt,
        record w {
          delivered =
              calls (w.subscriptions "$all") e ++ (calls (w.subscriptions s) e ++ w.delivered);
        },
      )
  unfolding notify_all
  notify_all_lem s e w =
      let w1 : Store db = record w { delivered = calls (w.subscriptions s) e ++ w.delivered } in
      bind-ok (notify db (w.subscriptions s) e) (λ _ v. notify db (v.subscriptions "$all") e v) w w1
        tt (notify_lem (w.subscriptions s) e w)
      ∙ notify_lem (w.subscriptions "$all") e w1

  -- A version above the greatest one of its stream clashes with no row.
  no_violation :
      (r : EventRow Payload) (t : db.Table)
      → top_version r.stream_id (db.rows t) < r.stream_version
      → db.insert r t ≢ unique_violation
  no_violation r t above violation =
      absurd (omega (arith, clash-le r (db.rows t) (db.insert-violation_clash r t violation)))

  -- The version that a call reads.
  abbrev pub read_version : String → Store db → Counter
  read_version s w = version_of (db.latest_in_stream s w.table)

  -- How a call with an expected version ends.
  abbrev pub Appended :
      String
      → DomainEvent Payload
      → Option Counter
      → Store db
      → Result (EventRecord Payload) × Store db
      → Type 0
  Appended s e expected w (ok r, w') =
      (mismatch expected (read_version s w) ≡ false)
      × (r.event.stream_id ≡ s)
      × (value r.event.stream_version ≡ 10 * top_version s (db.rows w.table) + 1)
      × (r.position ≡ plus_one w.global_position)
      × (w'.global_position ≡ plus_one w.global_position)
      × (db.rows w'.table ≡ row_of r.event r.position ∷ db.rows w.table)
      × (w'.delivered
          ≡ calls (w.subscriptions "$all") r ++ (calls (w.subscriptions s) r ++ w.delivered))
  Appended s e expected w (err _, w') =
      ((w' ≡ w) × (mismatch expected (read_version s w) ≡ true))
      ⊎ ((w' ≡ record w { global_position = plus_one w.global_position })
          × (mismatch expected (read_version s w) ≡ false))

  -- `appendEvent` that returns found the expected version, if one was given. Its version is ten times
  -- the greatest one of its stream plus one, since `+ 1` appends a digit to a version that is read as
  -- a text, and 1 in a new stream; its position is the counter `+ 1`, in the same sense. Its row is
  -- the one row added, and it was handed to the subscribers of the stream and then to those of all
  -- streams, each in the order of subscription. A call that throws has added no row; it has either
  -- found another version, and changed nothing, or been refused by the database for another reason
  -- than a duplicate version, and left the counter raised.
  pub append_event-Appended :
      (s : String) (e : DomainEvent Payload) (expected : Option Counter) (id : String)
      (created_at : ℕ) (w : Store db)
      → Appended s e expected w (append_event db s e expected id created_at w)
  unfolding append_event
  append_event-Appended s e expected id created_at w =
      let current = read_version s w in
      let top = db.latest_in_stream-version s w.table in
      let next = next_lem (db.latest_in_stream s w.table) in
      let placed = place s (plus_one current) e in
      let p = plus_one w.global_position in
      let r = row_of placed p in
      let answer = append_event db s e expected id created_at w in
      elim (Bool-cases (mismatch expected current)) [
        | inl other ↦
            let done : (err (conflict "Stream version mismatch"), w) ≡ answer =
              ground (arith, other) in
            subst (Appended s e expected w) done (inl (refl, other))
        | inr same ↦ elim (Inserted-cases (db.insert r w.table)) [
          | inl (t, ins) ↦
              let w1 : Store db = record w { table = t; global_position = p } in
              let told = notify_all_lem s (record_of placed id created_at p) w1 in
              let w2 : Store db = record w1 {
                delivered =
                    calls (w.subscriptions "$all") (record_of placed id created_at p)
                    ++ (calls (w.subscriptions s) (record_of placed id created_at p)
                        ++ w.delivered);
              } in
              let done : (ok (record_of placed id created_at p), w2) ≡ answer =
                ground (arith, same, ins, told) in
              subst (Appended s e expected w) done (
                same,
                refl,
                omega (arith, top, next),
                refl,
                refl,
                db.rows-insert r w.table t ins,
                refl,
              )
          | inr (inl violation) ↦
              absurd (no_violation r w.table (omega (arith, top, next)) violation)
          | inr (inr other) ↦
              let w1 : Store db = record w { global_position = p } in
              let done : (err query_failed, w1) ≡ answer = ground (arith, same, other) in
              subst (Appended s e expected w) done (inr (refl, same))
        ]
      ]

  -- In a stream that has a row, a call that gives a number as the expected version throws a conflict
  -- and changes nothing, whatever the number is: the version that is read is a text, which `!==`
  -- tells from every number.
  pub append_event-conflict :
      (s : String) (e : DomainEvent Payload) (expected : ℕ) (id : String) (created_at : ℕ)
      (w : Store db)
      → 1 ≤ top_version s (db.rows w.table)
      → append_event db s e (some (count expected)) id created_at w
        ≡ (err (conflict "Stream version mismatch"), w)
  unfolding append_event
  append_event-conflict s e expected id created_at w stored_one =
      elim (Option-cases (db.latest_in_stream s w.table)) [
        | inl empty ↦
            absurd (ground (arith, empty, db.latest_in_stream-version s w.table, stored_one))
        | inr (r, latest) ↦ ground (arith, latest)
      ]
