-- ===== src/Events/Snapshots.antt =====
-- `createSnapshot`, `getLatestSnapshot` and `deleteSnapshot` of
-- backend/src/event-sourcing/services/event-store.service.ts. The key of a snapshot is its stream.
use paya.Prelude.{ℕ, String, Option, none, ◌≡◌, str_eq, if◌then◌else◌}
use paya.Runtime.Repository.{Repository}

pub record Snapshot (Payload : Type 0) : Type 0 where
  pub stream_id : String
  pub stream_version : ℕ
  pub snapshot_data : Payload
  pub created_at : ℕ

-- The repository, with `delete({ streamId })`. `save` of a row whose key is taken overwrites it.
pub record SnapshotTable (Payload : Type 0) : Type 1 where
  pub rows : Repository String (Snapshot Payload) str_eq (λ s. s.stream_id)
  pub delete : String → rows.Table → rows.Table
  pub find_one-delete :
      (k s : String) (t : rows.Table)
      → rows.find_one k (delete s t) ≡ (if str_eq s k then none else rows.find_one k t)

module _ {Payload : Type 0} (db : SnapshotTable Payload) where
  -- `created_at` is what the database sets. Returns what the method returns, and the next table.
  unfoldable pub create_snapshot :
      String → ℕ → Payload → ℕ → db.rows.Table → Snapshot Payload × db.rows.Table
  create_snapshot stream_id version state created_at t =
      let snapshot : Snapshot Payload = record {
        stream_id = stream_id;
        stream_version = version;
        snapshot_data = state;
        created_at = created_at;
      } in
      (snapshot, db.rows.save snapshot t)

  unfoldable pub get_latest_snapshot : String → db.rows.Table → Option (Snapshot Payload)
  get_latest_snapshot stream_id t = db.rows.find_one stream_id t

  unfoldable pub delete_snapshot : String → db.rows.Table → db.rows.Table
  delete_snapshot stream_id t = db.delete stream_id t
