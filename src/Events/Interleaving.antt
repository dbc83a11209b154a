-- ===== src/Events/Interleaving.antt =====
-- Calls of `appendEvent` that overlap. A call suspends at its two `await`s: while the version is
-- read, and while the row is saved. What runs between them, the check and the assignments up to
-- the call of `save`, is one step, and so is what runs when the save ends. Another call may run at
-- each suspension. The subscribers are left out, since they change neither table nor counter.
use paya.Prelude.{
  ◌*◌, ℕ, ◌+◌, none, ◌≤◌, String, true, false, Option, List, [], ◌∷◌, ◌++◌, ◌≡◌, ◌⊎◌, inl, inr,
  refl, arith, All, All-middle, All-insert, All-mono,
}
use paya.Events.Types.{
  DomainEvent, EventRow, EventTable, Inserted, stored, unique_violation, refused, Store, version_of,
  Counter, value, plus_one, minus_one,
}
use paya.Events.Append.{mismatch, place, row_of, save_event}
use paya.Events.Versions.{ChainedTable, insert-next, known, top-known, next_lem}

-- A suspended call: with the version that it read, or with the row that it is saving.
pub data Flight (Payload : Type 0) : Type 0 where
  read : String → DomainEvent Payload → Option Counter → Counter → Flight Payload
  saving : EventRow Payload → Flight Payload

pub record System {Payload : Type 0} (db : EventTable Payload) : Type 0 where
  pub store : Store db
  pub flights : List (Flight Payload)

module _ {Payload : Type 0} (db : EventTable Payload) where
  abbrev pub reserve_position : Store db → Store db
  reserve_position w = record w { global_position = plus_one w.global_position }

  -- The row that the call passes to `save`.
  abbrev pub next_row : String → DomainEvent Payload → Counter → Store db → EventRow Payload
  next_row s e current w = row_of (place s (plus_one current) e) (plus_one w.global_position)

  pub data Step (a b : System db) : Type 0 where
    begin :
        (s : String) (e : DomainEvent Payload) (expected : Option Counter)
        → b ≡ record a {
          flights =
              read s e expected (version_of (db.latest_in_stream s a.store.table)) ∷ a.flights;
        }
        → Step a b
    reject :
        (s : String) (e : DomainEvent Payload) (expected : Option Counter) (current : Counter)
        (fs gs : List (Flight Payload))
        → a.flights ≡ fs ++ read s e expected current ∷ gs
        → mismatch expected current ≡ true
        → b ≡ record a { flights = fs ++ gs }
        → Step a b
    reserve :
        (s : String) (e : DomainEvent Payload) (expected : Option Counter) (current : Counter)
        (fs gs : List (Flight Payload))
        → a.flights ≡ fs ++ read s e expected current ∷ gs
        → mismatch expected current ≡ false
        → b ≡ record {
          store = reserve_position a.store;
          flights = fs ++ saving (next_row s e current a.store) ∷ gs;
        }
        → Step a b
    finish :
        (r : EventRow Payload) (fs gs : List (Flight Payload))
        → a.flights ≡ fs ++ saving r ∷ gs
        → b ≡ record { store = (save_event db r a.store).1; flights = fs ++ gs }
        → Step a b

  pub data Reach (a : System db) : System db → Type 0 where
    here : Reach a a
    next : {b c : System db} → Reach a b → Step b c → Reach a c

  -- What a suspended call knows: it read a version that was there, if not 0, and rows stay.
  abbrev pub IsCurrent : db.Table → Flight Payload → Type 0
  IsCurrent t (read s e expected current) =
      (known s (value current) (db.rows t) ≡ true)
      × (value (plus_one current) ≡ 10 * value current + 1)
  IsCurrent t (saving r) =
      (c : ℕ) × (known r.stream_id c (db.rows t) ≡ true) × (r.stream_version ≡ 10 * c + 1)

  abbrev pub Inv : System db → Type 0
  Inv a = ChainedTable db a.store.table × All (IsCurrent a.store.table) a.flights

  -- What the end of a save does to the table: it is as before, or has the row on top.
  save_event-cases :
      (r : EventRow Payload) (w : Store db)
      → ((save_event db r w).1.table ≡ w.table)
        ⊎ ((t : db.Table) × (db.insert r w.table ≡ stored t) × ((save_event db r w).1.table ≡ t))
  unfolding save_event
  save_event-cases r w = go (db.insert r w.table) refl
    where
      go :
          (i : Inserted db.Table)
          → db.insert r w.table ≡ i
          → ((save_event db r w).1.table ≡ w.table)
            ⊎ ((t : db.Table) × (db.insert r w.table ≡ stored t)
                × ((save_event db r w).1.table ≡ t))
      go (stored t) e = inr (t, e, rw (e, save_event))
      go unique_violation e = inl (rw (e, save_event))
      go refused e = inl (rw (e, save_event))

  IsCurrent-insert :
      (r : EventRow Payload) (t u : db.Table) (f : Flight Payload)
      → db.insert r t ≡ stored u
      → IsCurrent t f
      → IsCurrent u f
  IsCurrent-insert r t u (read s e x c) ins h = rw (db.rows-insert r t u ins) (ground (arith, h))
  IsCurrent-insert r t u (saving q) ins (c, there, above) =
      rw (db.rows-insert r t u ins) (c, ground (arith, there), above)

  Step-Inv : {a b : System db} → Step a b → Inv a → Inv b
  Step-Inv {a} {b} (begin s e x eq) (g, fl) =
      let latest = db.latest_in_stream s a.store.table in
      let there : known s (value (version_of latest)) (db.rows a.store.table) ≡ true =
        rw (db.latest_in_stream-version s a.store.table) (top-known s (db.rows a.store.table)) in
      rw eq (g, ((there, next_lem latest), fl))
  Step-Inv {a} {b} (reject s e x c fs gs at _ eq) (g, fl) =
      rw eq (g, (All-middle (IsCurrent a.store.table) fs (read s e x c) gs (rw at at fl)).1)
  Step-Inv {a} {b} (reserve s e x c fs gs at _ eq) (g, fl) =
      let (place_of, rest) =
        All-middle (IsCurrent a.store.table) fs (read s e x c) gs (rw at at fl) in
      rw eq (
        g,
        All-insert (IsCurrent a.store.table) fs (saving (next_row s e c a.store)) gs
            (value c, place_of.0, place_of.1) rest,
      )
  Step-Inv {a} {b} (finish r fs gs at eq) (g, fl) =
      let (place_of, rest) = All-middle (IsCurrent a.store.table) fs (saving r) gs (rw at at fl) in
      elim (save_event-cases r a.store) [
        | inl same ↦ rw (eq, same) (g, rest)
        | inr (t, ins, e) ↦
            rw (eq, e)
              (
                insert-next db r a.store.table t place_of.0 g place_of.1 place_of.2 ins,
                All-mono (IsCurrent a.store.table) (IsCurrent t) (fs ++ gs)
                    (λ f. IsCurrent-insert r a.store.table t f ins) rest,
              )
      ]

  Reach-Inv : {a b : System db} → Inv a → Reach a b → Inv b
  Reach-Inv h here = h
  Reach-Inv h (next r st) = Step-Inv st (Reach-Inv h r)

  -- However calls of `appendEvent` overlap, from a table whose streams have the versions 1, 11, 111, …
  -- in the order of insertion and with no call under way, every table reached has them so too: `+ 1`
  -- appends a digit to the version that is read as a text, and no version is lost or given twice.
  pub Reach-Chained :
      (a b : System db)
      → ChainedTable db a.store.table
      → a.flights ≡ []
      → Reach a b
      → ChainedTable db b.store.table
  Reach-Chained a b g idle steps = (Reach-Inv (g, rw idle tt) steps).0

  save_event-stored :
      (r : EventRow Payload) (w : Store db) (t : db.Table)
      → db.insert r w.table ≡ stored t
      → (save_event db r w).1 ≡ record w { table = t }
  unfolding save_event
  save_event-stored r w t ins = rw (ins, save_event)

  save_event-violation :
      (r : EventRow Payload) (w : Store db)
      → db.insert r w.table ≡ unique_violation
      → (save_event db r w).1 ≡ record w { global_position = minus_one w.global_position }
  unfolding save_event
  save_event-violation r w violation = rw (violation, save_event)

  -- A state in which the row `new` is stored and a call is saving another row at its position.
  abbrev pub Collision : System db → EventRow Payload → System db → Type 0
  Collision a new b =
      (r : EventRow Payload) × (db.rows b.store.table ≡ new ∷ db.rows a.store.table)
      × (b.flights ≡ saving r ∷ [])
      × (r.position ≡ new.position)

  -- Two calls are saving rows, the newer of which has the newest position. If the newer one is
  -- stored and the older one then ends in a unique violation, which takes a position back from the
  -- shared counter, a third call can reach its save with the position of the stored row.
  pub Reach-Collision :
      (a : System db) (old new : EventRow Payload) (t : db.Table) (s : String)
      (e : DomainEvent Payload)
      → a.flights ≡ saving old ∷ saving new ∷ []
      → 1 ≤ value a.store.global_position
      → new.position ≡ value a.store.global_position
      → db.insert new a.store.table ≡ stored t
      → db.insert old t ≡ unique_violation
      → (b : System db) × Reach a b × Collision a new b
  Reach-Collision a old new t s e busy pos newest ins violation =
      let w1 : Store db = record (a.store) { table = t } in
      let w2 : Store db = record w1 { global_position = minus_one w1.global_position } in
      let v = version_of (db.latest_in_stream s t) in
      let b1 : System db = record { store = w1; flights = saving old ∷ [] } in
      let b2 : System db = record { store = w2; flights = [] } in
      let b3 : System db = record { store = w2; flights = read s e none v ∷ [] } in
      let b4 : System db = record {
        store = reserve_position w2;
        flights = saving (next_row s e v w2) ∷ [];
      } in
      (
        b4,
        Reach.next {b = b3}
            (Reach.next {b = b2}
              (Reach.next {b = b1}
                (Reach.next here
                  (finish new (saving old ∷ []) [] busy (rw (save_event-stored new a.store t ins))))
                (finish old [] [] refl (rw (save_event-violation old w1 violation))))
              (begin s e none refl))
            (reserve s e none v [] [] refl refl refl),
        (next_row s e v w2, db.rows-insert new a.store.table t ins, refl, omega arith),
      )
