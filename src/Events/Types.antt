-- ===== src/Events/Types.antt =====
-- The rows of backend/src/event-sourcing/entities, the interfaces of
-- backend/src/event-sourcing/interfaces/domain-event.interface.ts, and the state of the service.
-- `Payload` is the type of the JSON that events carry.
use paya.Prelude.{
  ◌+◌, ◌-◌, ◌*◌, ℕ, max, String, Bool, true, false, Option, none, some, List, [], ◌∷◌, ◌≡◌, ◌⊎◌,
  inl, inr, refl, ◌==◌, ◌&&◌, str_eq, any, if◌then◌else◌,
}

-- A JavaScript value that counts: a number, or the decimal text of one, as the database driver
-- returns a bigint column.
pub data Counter : Type 0 where
  count digits : ℕ → Counter

-- The number that a bigint column takes from it.
abbrev pub value : Counter → ℕ
value (count n) = n
value (digits n) = n

-- `c + 1`: to a text it appends the digit 1.
abbrev pub plus_one : Counter → Counter
plus_one (count n) = count (n + 1)
plus_one (digits n) = digits (10 * n + 1)

-- `c - 1`, which is a number.
abbrev pub minus_one : Counter → Counter
minus_one c = count (value c - 1)

-- `c === d`
abbrev pub is_same : Counter → Counter → Bool
is_same (count m) (count n) = m == n
is_same (digits m) (digits n) = m == n
is_same _ _ = false

pub record DomainEvent (Payload : Type 0) : Type 0 where
  pub event_id : String
  pub event_type : String
  pub stream_id : String
  pub stream_version : Counter
  pub timestamp : ℕ
  pub payload : Payload
  pub metadata : Option Payload

-- `EventRecord`, which extends `DomainEvent`.
pub record EventRecord (Payload : Type 0) : Type 0 where
  pub id : String
  pub event : DomainEvent Payload
  pub position : Counter

-- A row of `event_store`.
pub record EventRow (Payload : Type 0) : Type 0 where
  pub stream_id : String
  pub stream_version : ℕ
  pub event_type : String
  pub event_data : Payload
  pub metadata : Option Payload
  pub position : ℕ

-- How an insert ends: error code 23505 is `unique_violation`, any other error is `refused`.
pub data Inserted (Table : Type 0) : Type 0 where
  stored : Table → Inserted Table
  unique_violation refused : Inserted Table

pub Inserted-cases :
    {Table : Type 0} (i : Inserted Table)
    → ((t : Table) × (i ≡ stored t)) ⊎ (i ≡ unique_violation) ⊎ (i ≡ refused)
Inserted-cases (stored t) = inl (t, refl)
Inserted-cases unique_violation = inr (inl refl)
Inserted-cases refused = inr (inr refl)

module _ {Payload : Type 0} where
  abbrev pub in_stream : String → EventRow Payload → Bool
  in_stream s r = str_eq r.stream_id s

  -- The unique index on `(streamId, streamVersion)`.
  abbrev pub clashes : EventRow Payload → EventRow Payload → Bool
  clashes r x = str_eq x.stream_id r.stream_id && x.stream_version == r.stream_version

  -- The greatest version of a stream and the greatest position, 0 where there is no row.
  abbrev pub top_version : String → List (EventRow Payload) → ℕ
  top_version s [] = 0
  top_version s (r ∷ rs) =
      if in_stream s r then max r.stream_version (top_version s rs) else top_version s rs

  abbrev pub top_position : List (EventRow Payload) → ℕ
  top_position [] = 0
  top_position (r ∷ rs) = max r.position (top_position rs)

  -- `latestEvent?.streamVersion || 0`
  abbrev pub version_of : Option (EventRow Payload) → Counter
  version_of none = count 0
  version_of (some r) = digits r.stream_version

  -- `latestEvent?.position || 0`
  abbrev pub position_of : Option (EventRow Payload) → Counter
  position_of none = count 0
  position_of (some r) = digits r.position

-- The `event_store` table and the queries that the service builds. `rows` lists what is stored, the
-- newest first.
pub record EventTable (Payload : Type 0) : Type 1 where
  pub Table : Type 0
  pub rows : Table → List (EventRow Payload)
  -- `where streamId = s order by streamVersion desc limit 1`
  pub latest_in_stream : String → Table → Option (EventRow Payload)
  -- `order by position desc limit 1`
  pub latest : Table → Option (EventRow Payload)
  pub insert : EventRow Payload → Table → Inserted Table
  pub rows-insert :
      (r : EventRow Payload) (t u : Table) → insert r t ≡ stored u → rows u ≡ r ∷ rows t
  pub insert-stored_unique :
      (r : EventRow Payload) (t u : Table)
      → insert r t ≡ stored u
      → any (clashes r) (rows t) ≡ false
  pub insert-clash :
      (r : EventRow Payload) (t : Table)
      → any (clashes r) (rows t) ≡ true
      → insert r t ≡ unique_violation
  pub insert-violation_clash :
      (r : EventRow Payload) (t : Table)
      → insert r t ≡ unique_violation
      → any (clashes r) (rows t) ≡ true
  pub latest_in_stream-version :
      (s : String) (t : Table) → value (version_of (latest_in_stream s t)) ≡ top_version s (rows t)
  pub latest-position : (t : Table) → value (position_of (latest t)) ≡ top_position (rows t)

-- The fields of `EventStoreService` and its tables. A handler is named by a number, and `delivered`
-- lists the calls of handlers, the newest first.
pub record Store {Payload : Type 0} (db : EventTable Payload) : Type 0 where
  pub table : db.Table
  pub global_position : Counter
  pub subscriptions : String → List ℕ
  pub delivered : List (ℕ × EventRecord Payload)
