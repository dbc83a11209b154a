-- ===== src/Events/Read.antt =====
-- `readStream` and `readAllEvents` of backend/src/event-sourcing/services/event-store.service.ts.
use paya.Prelude.{ℕ, String, Option, none, some, List, map, keep, take, from}
use paya.Runtime.Sorting.{Sorting}
use paya.Runtime.Text.{or_text}
use paya.Events.Types.{digits, EventRecord, EventRow, EventTable, in_stream}

module _ {A : Type 0} where
  -- `andWhere('… >= :from')` if `from` is given.
  abbrev pub starting : (A → ℕ) → Option ℕ → List A → List A
  starting key none rows = rows
  starting key (some v) rows = keep (from key v) rows

  -- `limit(count)` if `count` is given.
  abbrev pub limited : Option ℕ → List A → List A
  limited none rows = rows
  limited (some n) rows = take n rows

-- The columns that the database generates, and the field `eventId` of the stored JSON.
pub record Generated (Payload : Type 0) : Type 0 where
  pub id : EventRow Payload → String
  pub created_at : EventRow Payload → ℕ
  pub event_id : Payload → Option String

module _ {Payload : Type 0} (db : EventTable Payload) (sorting : Sorting (EventRow Payload))
    (generated : Generated Payload) where
  -- `event.eventData.eventId || event.id`, and the other columns.
  abbrev pub read_record : EventRow Payload → EventRecord Payload
  read_record r = record {
    id = generated.id r;
    event = record {
      event_id = or_text (generated.event_id r.event_data) (generated.id r);
      event_type = r.event_type;
      stream_id = r.stream_id;
      stream_version = digits r.stream_version;
      timestamp = generated.created_at r;
      payload = r.event_data;
      metadata = r.metadata;
    };
    position = digits r.position;
  }

  abbrev pub stream_rows : String → db.Table → List (EventRow Payload)
  stream_rows stream_id t =
      sorting.order_by (λ r. r.stream_version) (keep (in_stream stream_id) (db.rows t))

  abbrev pub all_rows : db.Table → List (EventRow Payload)
  all_rows t = sorting.order_by (λ r. r.position) (db.rows t)

  unfoldable pub read_stream : String → Option ℕ → Option ℕ → db.Table → List (EventRecord Payload)
  read_stream stream_id from_version max_count t =
      map read_record (
        limited max_count (starting (λ r. r.stream_version) from_version (stream_rows stream_id t)))

  unfoldable pub read_all_events : Option ℕ → Option ℕ → db.Table → List (EventRecord Payload)
  read_all_events from_position max_count t =
      map read_record (limited max_count (starting (λ r. r.position) from_position (all_rows t)))
