-- ===== src/Events/Batches.antt =====
-- `appendEvents`: a batch is appended whole or not at all, and its expected version is not checked.
use paya.Prelude.{
  All, ℕ, String, Option, none, some, List, [], ◌∷◌, ◌≡◌, refl, ◌∙◌, arith, Bool, ◌⊎◌, inl, inr,
  Option-cases, subst, str_eq_iff, ◌++◌, false,
}
use paya.Runtime.Action.{Action, ok, err, pure, is_ok, query_failed, bind-ok, ◌>>=◌, ◌>>◌}
use paya.Events.Types.{
  DomainEvent, EventRecord, EventTable, Inserted-cases, stored, Store, top_version, version_of,
  Counter, value, plus_one,
}
use paya.Events.Append.{
  row_of, place, record_of, notify_all, place_all, save_all, add_record, transaction, notify_each,
  append_events, Batch,
}
use paya.Events.Versions.{RisingTable, plus_one-lt}
use paya.Events.Sequential.{calls, notify_all_lem}

module _ {Payload : Type 0} (db : EventTable Payload) where
  -- The batch that a row is put in front of had ended well.
  add_record-some :
      (r : EventRecord Payload) (b : Option (Batch db) × Counter) {rs : List (EventRecord Payload)}
      {u : db.Table}
      → (add_record db r b).0 ≡ some (rs, u)
      → (qs : List (EventRecord Payload)) × (b.0 ≡ some (qs, u))
  add_record-some r (none, p) h = cc
  add_record-some r (some (qs, u), p) h = (qs, ground (arith, h))

  -- A batch that ended well saved its first row, and then the rest.
  save_all-cons :
      (generated : Counter → String × ℕ) (e : DomainEvent Payload) (es : List (DomainEvent Payload))
      (t u : db.Table) (p : Counter) (rs : List (EventRecord Payload))
      → (save_all db generated (e ∷ es) t p).0 ≡ some (rs, u)
      → (v : db.Table) × (qs : List (EventRecord Payload)) × (db.insert (row_of e (plus_one p)) t
          ≡ stored v)
        × ((save_all db generated es v (plus_one p)).0 ≡ some (qs, u))
  unfolding save_all
  save_all-cons generated e es t u p rs h =
      let r = record_of e (generated (plus_one p)).0 (generated (plus_one p)).1 (plus_one p) in
      elim (Inserted-cases (db.insert (row_of e (plus_one p)) t)) [
        | inl (v, ins) ↦
            let (qs, rest) =
              add_record-some r (save_all db generated es v (plus_one p))
                (rw (ins, save_all) at h) in
            (v, qs, ins, rest)
        | inr (inl violation) ↦ absurd (ground (arith, h, violation))
        | inr (inr other) ↦ absurd (ground (arith, h, other))
      ]

  save_all-Rising :
      (generated : Counter → String × ℕ) (s : String) (es : List (DomainEvent Payload))
      (t u : db.Table) (current p : Counter) (rs : List (EventRecord Payload))
      → RisingTable db t
      → value current ≡ top_version s (db.rows t)
      → (save_all db generated (place_all db s current es) t p).0 ≡ some (rs, u)
      → RisingTable db u
  unfolding save_all place_all
  save_all-Rising generated s [] t u current p rs g top h =
      subst (RisingTable db) (ground (arith, h)) g
  save_all-Rising generated s (e ∷ es) t u current p rs g top h =
      let r = row_of (place s (plus_one current) e) (plus_one p) in
      let (v, qs, ins, rest) =
        save_all-cons generated (place s (plus_one current) e)
          (place_all db s (plus_one current) es) t u p rs h in
      save_all-Rising generated s es v u (plus_one current) (plus_one p) qs
        (rw (db.rows-insert r t v ins) (omega (arith, top, plus_one-lt current), g))
        (rw (db.rows-insert r t v ins) (ground (arith, top, plus_one-lt current, str_eq_iff s s)))
        rest

  notify_each_lem :
      (s : String) (rs : List (EventRecord Payload)) (w : Store db)
      → (d : List (ℕ × EventRecord Payload)) × (notify_each db s rs w
          ≡ (ok tt, record w { delivered = d }))
  unfolding notify_each
  notify_each_lem s [] w = (w.delivered, refl)
  notify_each_lem s (r ∷ rs) w =
      let w1 : Store db = record w {
        delivered =
            calls db (w.subscriptions "$all") r ++ (calls db (w.subscriptions s) r ++ w.delivered);
      } in
      let (d, ih) = notify_each_lem s rs w1 in
      (
        d,
        bind-ok (notify_all db s r) (λ _. notify_each db s rs) w w1 tt (notify_all_lem db s r w)
            ∙ ih,
      )

  transaction_ok :
      (generated : Counter → String × ℕ) (es : List (DomainEvent Payload)) (w : Store db)
      (rs : List (EventRecord Payload)) (u : db.Table)
      → (save_all db generated es w.table w.global_position).0 ≡ some (rs, u)
      → transaction db generated es w ≡ (
        ok rs,
        record w {
          table = u;
          global_position = (save_all db generated es w.table w.global_position).1;
        },
      )
  unfolding transaction
  transaction_ok generated es w rs u h = rw (h, transaction)

  transaction_err :
      (generated : Counter → String × ℕ) (es : List (DomainEvent Payload)) (w : Store db)
      → (save_all db generated es w.table w.global_position).0 ≡ none
      → ((transaction db generated es w).0 ≡ err query_failed)
        × ((transaction db generated es w).1.table ≡ w.table)
  unfolding transaction
  transaction_err generated es w h = (rw (h, transaction), rw (h, transaction))

  abbrev pub maybe_one : Option Counter → List Counter
  maybe_one none = []
  maybe_one (some c) = c ∷ []

  -- What follows the numbering of the events.
  finish_batch :
      (Counter → String × ℕ)
      → String
      → List (DomainEvent Payload)
      → Action (Store db) (List (EventRecord Payload))
  finish_batch generated s es = do
    records ← transaction db generated es
    notify_each db s records
    pure records

  -- How a batch ends: the table is as before, or the transaction has gone through.
  abbrev Ends :
      (Counter → String × ℕ) → List (DomainEvent Payload) → Store db → db.Table → Bool → Type 0
  Ends generated es w t done =
      ((done ≡ false) × (t ≡ w.table))
      ⊎ ((rs : List (EventRecord Payload)) × ((save_all db generated es w.table w.global_position).0
            ≡ some (rs, t)))

  finish_batch-Ends :
      (generated : Counter → String × ℕ) (s : String) (es : List (DomainEvent Payload))
      (w : Store db)
      → let (r, w') = finish_batch generated s es w in Ends generated es w w'.table (is_ok r)
  unfolding finish_batch
  finish_batch-Ends generated s es w =
      elim (Option-cases (save_all db generated es w.table w.global_position).0) [
        | inl stopped ↦ inl (ground (arith, transaction_err generated es w stopped))
        | inr ((rs, u), done) ↦
            let w1 : Store db = record w {
              table = u;
              global_position = (save_all db generated es w.table w.global_position).1;
            } in
            let (d, told) = notify_each_lem s rs w1 in
            let whole : finish_batch generated s es w ≡ (ok rs, record w1 { delivered = d }) =
              bind-ok (transaction db generated es)
                (λ records. notify_each db s records >> pure records) w w1 rs
                (transaction_ok generated es w rs u done)
              ∙ bind-ok (notify_each db s rs) (λ _. pure rs) w1 (record w1 { delivered = d }) tt
                  told in
            inr (rs, rw whole done)
      ]

  finish_batch-Rising :
      (generated : Counter → String × ℕ) (s : String) (es : List (DomainEvent Payload))
      (w : Store db) (c : Counter)
      → value c ≡ top_version s (db.rows w.table)
      → RisingTable db w.table
      → RisingTable db (finish_batch generated s (place_all db s c es) w).1.table
  finish_batch-Rising generated s es w c top g =
      let placed = place_all db s c es in
      elim (finish_batch-Ends generated s placed w) [
        | inl (_, same) ↦ rw same g
        | inr (rs, done) ↦
            save_all-Rising generated s es w.table (finish_batch generated s placed w).1.table c
              w.global_position rs g top done
      ]

  -- `appendEvents` without an expected version, or with one that reads as the greatest version of the
  -- stream, keeps the versions of every stream rising in the order of insertion, whether it returns
  -- or throws. It need not leave them without a gap.
  pub append_events-Rising :
      (s : String) (es : List (DomainEvent Payload)) (expected : Option Counter)
      (generated : Counter → String × ℕ) (w : Store db)
      → All (λ c. value c ≡ top_version s (db.rows w.table)) (maybe_one expected)
      → RisingTable db w.table
      → RisingTable db (append_events db s es expected generated w).1.table
  unfolding append_events finish_batch
  append_events-Rising s es none generated w current g =
      finish_batch-Rising generated s es w (version_of (db.latest_in_stream s w.table))
        (db.latest_in_stream-version s w.table) g
  append_events-Rising s es (some c) generated w current g =
      finish_batch-Rising generated s es w c current.0 g
