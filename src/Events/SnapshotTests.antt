-- ===== src/Events/SnapshotTests.antt =====
-- The theorem on replays from a snapshot at a concrete table, and runs of the service.
use native.Mathlib.Nat.{ℕ_set}
use paya.Prelude.{
  ℕ, ◌+◌, String, Bool, not, none, some, Option, List, [], ◌∷◌, ◌≡◌, refl, arith, keep, str_eq,
  str_eq_iff, if◌then◌else◌,
}
use paya.Runtime.Action.{ok}
use paya.Runtime.InsertionSort.{insertion_sort}
use paya.Runtime.ListTable.{list_repository}
use paya.Runtime.Repository.{Repository}
use paya.Runtime.Text.{String-set}
use paya.Events.Examples.{Rows, db, row}
use paya.Events.Read.{Generated}
use paya.Events.Snapshots.{
  Snapshot, SnapshotTable, create_snapshot, get_latest_snapshot, delete_snapshot,
}
use paya.Events.Replay.{ReplayOptions, Progress, Handler, replay_stream}
use paya.Events.Types.{DomainEvent}
use paya.Events.Replay.FromSnapshot.{replay_from_snapshot, replay_from_snapshot-replay_stream}

snapshot_set : IsSet (Snapshot ℕ)
snapshot_set = hlevel (String-set, ℕ_set)

abbrev snapshot_rows : Repository String (Snapshot ℕ) str_eq (λ s. s.stream_id)
snapshot_rows = list_repository str_eq str_eq_iff (λ s. s.stream_id) snapshot_set

abbrev other_stream : String → Snapshot ℕ → Bool
other_stream s r = not (str_eq r.stream_id s)

find_one-delete_rows :
    (k s : String) (t : List (Snapshot ℕ))
    → snapshot_rows.find_one k (keep (other_stream s) t)
      ≡ (if str_eq s k then none else snapshot_rows.find_one k t)
find_one-delete_rows k s [] = ground arith
find_one-delete_rows k s (r ∷ t) = ground (
  arith,
  find_one-delete_rows k s t,
  str_eq_iff r.stream_id s,
  str_eq_iff r.stream_id k,
  str_eq_iff s k,
)

abbrev snapshots : SnapshotTable ℕ
snapshots = record {
  rows = snapshot_rows;
  delete = λ s t. keep (other_stream s) t;
  find_one-delete = find_one-delete_rows;
}

abbrev generated : Generated ℕ
generated = record { id = λ r. "id"; created_at = λ r. 0; event_id = λ p. none }

-- A handler that adds up the payloads.
abbrev adds : Handler ℕ ℕ
adds e n = (none, n + e.event.payload)

abbrev adds_data : DomainEvent ℕ → ℕ → Option String × ℕ
adds_data e n = (none, n + e.payload)

abbrev table : Rows
table = row "a" 111 5 ∷ row "a" 11 3 ∷ row "b" 1 2 ∷ row "a" 1 1 ∷ []

abbrev snapshot : Snapshot ℕ
snapshot = record { stream_id = "a"; stream_version = 11; snapshot_data = 50; created_at = 7 }

abbrev options : ReplayOptions
options = record {
  from_position = none;
  to_position = none;
  from_version = none;
  to_version = none;
  batch_size = some 1;
}

replay_from_snapshot-replay_stream_example :
    (p : Progress ℕ ℕ) × (q : Progress ℕ ℕ) × ((replay_from_snapshot db snapshots insertion_sort
          generated adds adds_data 9 "u" "a" options table
          (snapshot ∷ [])
          0
        ≡ some (ok p))
      × ((replay_stream db insertion_sort generated adds 9 "a" options table 0 ≡ some q)
          × (p.state ≡ q.state)))
unfolding get_latest_snapshot
replay_from_snapshot-replay_stream_example =
    replay_from_snapshot-replay_stream db snapshots insertion_sort generated adds adds_data 9 "u"
      "a" options table (snapshot ∷ []) snapshot 0 (refl, (refl, (refl, (refl, tt)))) (omega arith)
      refl refl refl (omega arith) refl

-- A snapshot that is created is the latest one, until it is deleted.
created_found :
    get_latest_snapshot snapshots "a" (create_snapshot snapshots "a" 11 50 7 []).1 ≡ some snapshot
unfolding get_latest_snapshot create_snapshot
created_found = refl

deleted_lost :
    get_latest_snapshot snapshots "a" (delete_snapshot snapshots "a" (snapshot ∷ [])) ≡ none
unfolding get_latest_snapshot delete_snapshot
deleted_lost = refl
