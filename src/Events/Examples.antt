-- ===== src/Events/Examples.antt =====
-- A table of events as a list, and a store with two events, for the examples.
use paya.Prelude.{
  ℕ, String, true, false, Option, none, some, List, [], ◌∷◌, ◌≡◌, refl, arith, any, ltb,
  if◌then◌else◌,
}
use paya.Events.Types.{
  DomainEvent, EventRow, EventTable, Inserted, stored, unique_violation, Store, in_stream, clashes,
  count, value, top_version, top_position, version_of, position_of,
}

abbrev pub Rows : Type 0
Rows = List (EventRow ℕ)

abbrev pub newest_in_stream : String → Rows → Option (EventRow ℕ)
newest_in_stream s [] = none
newest_in_stream s (r ∷ rs) =
    let rest = newest_in_stream s rs in
    if in_stream s r
    then (if ltb r.stream_version (value (version_of rest)) then rest else some r)
    else rest

abbrev pub newest : Rows → Option (EventRow ℕ)
newest [] = none
newest (r ∷ rs) =
    let rest = newest rs in if ltb r.position (value (position_of rest)) then rest else some r

abbrev pub insert_row : EventRow ℕ → Rows → Inserted Rows
insert_row r t = if any (clashes r) t then unique_violation else stored (r ∷ t)

pub newest_in_stream-top :
    (s : String) (t : Rows) → value (version_of (newest_in_stream s t)) ≡ top_version s t
newest_in_stream-top s [] = refl
newest_in_stream-top s (r ∷ rs) = ground (arith, newest_in_stream-top s rs)

pub newest-top : (t : Rows) → value (position_of (newest t)) ≡ top_position t
newest-top [] = refl
newest-top (r ∷ rs) = ground (arith, newest-top rs)

pub insert_row-rows : (r : EventRow ℕ) (t u : Rows) → insert_row r t ≡ stored u → u ≡ r ∷ t
insert_row-rows r t u h = ground (arith, h)

pub insert_row_unique :
    (r : EventRow ℕ) (t u : Rows) → insert_row r t ≡ stored u → any (clashes r) t ≡ false
insert_row_unique r t u h = ground (arith, h)

pub insert_row-clash :
    (r : EventRow ℕ) (t : Rows) → any (clashes r) t ≡ true → insert_row r t ≡ unique_violation
insert_row-clash r t h = ground (arith, h)

pub insert_row-violation :
    (r : EventRow ℕ) (t : Rows) → insert_row r t ≡ unique_violation → any (clashes r) t ≡ true
insert_row-violation r t h = ground (arith, h)

abbrev pub db : EventTable ℕ
db = record {
  Table = Rows;
  rows = λ t. t;
  latest_in_stream = newest_in_stream;
  latest = newest;
  insert = insert_row;
  rows-insert = insert_row-rows;
  insert-stored_unique = insert_row_unique;
  insert-clash = insert_row-clash;
  insert-violation_clash = insert_row-violation;
  latest_in_stream-version = newest_in_stream-top;
  latest-position = newest-top;
}

abbrev pub paid : DomainEvent ℕ
paid = record {
  event_id = "e1";
  event_type = "PaymentPaid";
  stream_id = "";
  stream_version = count 0;
  timestamp = 0;
  payload = 25;
  metadata = none;
}

abbrev pub row : String → ℕ → ℕ → EventRow ℕ
row s version position = record {
  stream_id = s;
  stream_version = version;
  event_type = "PaymentPaid";
  event_data = 25;
  metadata = none;
  position = position;
}

abbrev pub store : Store db
store = record {
  table = row "b" 1 2 ∷ row "a" 1 1 ∷ [];
  global_position = count 2;
  subscriptions = λ s. 7 ∷ [];
  delivered = [];
}
