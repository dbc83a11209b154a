-- ===== src/Events/Append.antt =====
-- `appendEvent`, `appendEvents`, `getCurrentStreamVersion` and `initializeGlobalPosition` of
-- backend/src/event-sourcing/services/event-store.service.ts. The texts of the conflicts leave out
-- the stream and the versions that the source quotes.
use paya.Prelude.{ℕ, String, Bool, false, not, Option, none, some, List, [], ◌∷◌}
use paya.Runtime.Action.{
  Action, ok, err, conflict, query_failed, pure, gets, modify, throw_if, ◌>>=◌, ◌>>◌,
}
use paya.Events.Types.{
  DomainEvent, EventRecord, EventRow, EventTable, stored, unique_violation, refused, Store,
  version_of, position_of, Counter, value, plus_one, minus_one, is_same,
}

-- `expectedVersion !== undefined && currentVersion !== expectedVersion`
abbrev pub mismatch : Option Counter → Counter → Bool
mismatch none current = false
mismatch (some expected) current = not (is_same current expected)

module _ {Payload : Type 0} where
  -- `event.streamId = …; event.streamVersion = …`
  abbrev pub place : String → Counter → DomainEvent Payload → DomainEvent Payload
  place stream_id version e = record e { stream_id = stream_id; stream_version = version }

  -- `eventRepository.create({ … })`
  abbrev pub row_of : DomainEvent Payload → Counter → EventRow Payload
  row_of e position = record {
    stream_id = e.stream_id;
    stream_version = value e.stream_version;
    event_type = e.event_type;
    event_data = e.payload;
    metadata = e.metadata;
    position = value position;
  }

  -- `id` and `createdAt` are the values that the database generates.
  abbrev pub record_of : DomainEvent Payload → String → ℕ → Counter → EventRecord Payload
  record_of e id created_at position = record {
    id = id;
    event = record e { timestamp = created_at };
    position = position;
  }

module _ {Payload : Type 0} (db : EventTable Payload) where
  abbrev pub current_stream_version : String → Action (Store db) Counter
  current_stream_version stream_id = gets (λ w. version_of (db.latest_in_stream stream_id w.table))

  unfoldable pub initialize_global_position : Action (Store db) (Unit {0})
  initialize_global_position =
      modify (λ w. record w { global_position = position_of (db.latest w.table) })

  -- One call of each handler in turn. What a handler throws is caught and logged.
  unfoldable pub notify : List ℕ → EventRecord Payload → Action (Store db) (Unit {0})
  notify [] e = pure tt
  notify (h ∷ hs) e = modify (λ w. record w { delivered = (h, e) ∷ w.delivered }) >> notify hs e

  -- `notifySubscribers`, then `notifyGlobalSubscribers`.
  unfoldable pub notify_all : String → EventRecord Payload → Action (Store db) (Unit {0})
  notify_all stream_id e = do
    subscribers ← gets (λ w. w.subscriptions stream_id)
    notify subscribers e
    everyone ← gets (λ w. w.subscriptions "$all")
    notify everyone e

  -- The insert, and the `catch` that takes the position back on a unique violation.
  unfoldable pub save_event : EventRow Payload → Action (Store db) (Unit {0})
  save_event r w = elim (db.insert r w.table) [
    | stored t ↦ (ok tt, record w { table = t })
    | unique_violation ↦ (
      err (conflict "Concurrent modification detected for stream"),
      record w { global_position = minus_one w.global_position },
    )
    | refused ↦ (err query_failed, w)
  ]

  -- What follows the read of the version, `current`.
  unfoldable pub append_at :
      String
      → DomainEvent Payload
      → Option Counter
      → Counter
      → String
      → ℕ
      → Action (Store db) (EventRecord Payload)
  unfolding save_event
  append_at stream_id event expected current id created_at = do
    throw_if (mismatch expected current) (conflict "Stream version mismatch")
    let placed = place stream_id (plus_one current) event
    modify (λ w. record w { global_position = plus_one w.global_position })
    position ← gets (λ w. w.global_position)
    save_event (row_of placed position)
    notify_all stream_id (record_of placed id created_at position)
    pure (record_of placed id created_at position)

  unfoldable pub append_event :
      String
      → DomainEvent Payload
      → Option Counter
      → String
      → ℕ
      → Action (Store db) (EventRecord Payload)
  unfolding append_at
  append_event stream_id event expected id created_at = do
    current ← current_stream_version stream_id
    append_at stream_id event expected current id created_at

  -- The loop that gives the events of a batch their versions.
  unfoldable pub place_all :
      String → Counter → List (DomainEvent Payload) → List (DomainEvent Payload)
  place_all stream_id current [] = []
  place_all stream_id current (e ∷ es) =
      place stream_id (plus_one current) e ∷ place_all stream_id (plus_one current) es

  abbrev pub Batch : Type 0
  Batch = List (EventRecord Payload) × db.Table

  abbrev pub add_record : EventRecord Payload → Option Batch × Counter → Option Batch × Counter
  add_record r (none, p) = (none, p)
  add_record r (some (rs, t), p) = (some (r ∷ rs, t), p)

  -- The loop inside the transaction: the records and the new table, or `none` after an error, and
  -- the position reached. `generated` gives the id and `createdAt` of the row saved at a position.
  unfoldable pub save_all :
      (Counter → String × ℕ)
      → List (DomainEvent Payload)
      → db.Table
      → Counter
      → Option Batch × Counter
  save_all generated [] t position = (some ([], t), position)
  save_all generated (e ∷ es) t position =
      let r =
        record_of e (generated (plus_one position)).0 (generated (plus_one position)).1
          (plus_one position) in
      elim (db.insert (row_of e (plus_one position)) t) [
        | stored u ↦ add_record r (save_all generated es u (plus_one position))
        | unique_violation ↦ (none, plus_one position)
        | refused ↦ (none, plus_one position)
      ]

  -- A transaction that fails is rolled back, the counter is not.
  unfoldable pub transaction :
      (Counter → String × ℕ)
      → List (DomainEvent Payload)
      → Action (Store db) (List (EventRecord Payload))
  transaction generated es w =
      let (batch, position) = save_all generated es w.table w.global_position in
      elim batch [
        | none ↦ (err query_failed, record w { global_position = position })
        | some (rs, t) ↦ (ok rs, record w { table = t; global_position = position })
      ]

  unfoldable pub notify_each : String → List (EventRecord Payload) → Action (Store db) (Unit {0})
  notify_each stream_id [] = pure tt
  notify_each stream_id (r ∷ rs) = notify_all stream_id r >> notify_each stream_id rs

  -- `expectedVersion ?? await this.getCurrentStreamVersion(streamId)`
  abbrev pub base_version : String → Option Counter → Action (Store db) Counter
  base_version stream_id none = current_stream_version stream_id
  base_version stream_id (some expected) = pure expected

  unfoldable pub append_events :
      String
      → List (DomainEvent Payload)
      → Option Counter
      → (Counter → String × ℕ)
      → Action (Store db) (List (EventRecord Payload))
  append_events stream_id es expected generated = do
    current ← base_version stream_id expected
    records ← transaction generated (place_all stream_id current es)
    notify_each stream_id records
    pure records
