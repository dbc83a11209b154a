-- ===== src/Events/Replay/Streams.antt =====
-- Replays of whole tables: in the order of versions, and in the order of positions.
use paya.Prelude.{
  ◌+◌, ◌*◌, Spaced, Spaced-map, Spaced-of_Strict, count-above, ℕ, zero, suc, ◌≤◌, ◌<◌, String, true,
  Option, none, some, List, [], ◌∷◌, ◌≡◌, refl, ap, ◌∙◌, arith, length, keep, map, if◌then◌else◌,
  leb, take, from, count, Strict, Strict-of_counts, at_key, str_eq_iff, length-map, length-keep-le,
  map-take, map-keep, length-count,
}
use paya.Runtime.Sorting.{Sorting}
use paya.Events.Types.{value, EventRecord, EventRow, EventTable, in_stream, top_version}
use paya.Events.Versions.{Chained, ChainedTable}
use paya.Events.Read.{Generated, starting, read_record, stream_rows, read_stream}
use paya.Events.Replay.{ReplayOptions, Handler, batch_size_or, start, replay_stream}
use paya.Events.Replay.Loop.{handle_all, within, replay_loop-handle_all}

module _ {A B : Type 0} (f : A → B) where
  map-starting :
      (key : B → ℕ) (at : Option ℕ) (xs : List A)
      → map f (starting (λ x. key (f x)) at xs) ≡ starting key at (map f xs)
  map-starting key none xs = refl
  map-starting key (some v) xs = map-keep f (from key v) xs

module _ {Payload : Type 0} where
  abbrev version : EventRow Payload → ℕ
  version r = r.stream_version

  count-le-top :
      (s : String) (v : ℕ) (rs : List (EventRow Payload))
      → 1 ≤ count (at_key version v) (keep (in_stream s) rs)
      → v ≤ top_version s rs
  count-le-top s v [] h = absurd (omega (arith, h))
  count-le-top s v (r ∷ rs) h = ground (arith, h, count-le-top s v rs)

  -- In a stream that `appendEvent` wrote no version occurs twice, 0 does not occur, and two versions
  -- are a digit apart.
  count-version-le :
      (s : String) (v : ℕ) (rs : List (EventRow Payload))
      → Chained rs
      → count (at_key version v) (keep (in_stream s) rs) ≤ (if leb v 0 then 0 else 1)
  count-version-le s v [] g = ground arith
  count-version-le s v (r ∷ rs) g =
      ground (arith, g, str_eq_iff r.stream_id s, count-version-le s v rs g.1, count-le-top s v rs)

  versions_apart :
      (s : String) (v w : ℕ) (rs : List (EventRow Payload))
      → Chained rs
      → 1 ≤ count (at_key version v) (keep (in_stream s) rs)
      → 1 ≤ count (at_key version w) (keep (in_stream s) rs)
      → v < w
      → 10 * v + 1 ≤ w
  versions_apart s v w [] g hv hw h = absurd (omega (arith, hv))
  versions_apart s v w (r ∷ rs) g hv hw h = ground (
    arith,
    g,
    hv,
    hw,
    h,
    str_eq_iff r.stream_id s,
    count-le-top s v rs,
    count-le-top s w rs,
    versions_apart s v w rs g.1,
  )

module _ {Payload : Type 0} (db : EventTable Payload) (sorting : Sorting (EventRow Payload))
    (generated : Generated Payload) where
  abbrev pub record_version : EventRecord Payload → ℕ
  record_version e = value e.event.stream_version

  -- The events of a stream, as they are read.
  abbrev pub stream_events : String → db.Table → List (EventRecord Payload)
  stream_events s t = map (read_record db sorting generated) (stream_rows db sorting generated s t)

  stream_rows-Spaced :
      (s : String) (t : db.Table)
      → ChainedTable db t
      → Spaced (λ r. r.stream_version) 0 (stream_rows db sorting generated s t)
  stream_rows-Spaced s t g =
      let rows = keep (in_stream s) (db.rows t) in
      let read = sorting.order_by version rows in
      let same : (v : ℕ) → count (at_key version v) read ≡ count (at_key version v) rows =
        λ v. sorting.count-order_by (at_key version v) version rows in
      let strict : Strict version 0 read =
        Strict-of_counts version 0 0 read (sorting.order_by-Ascending version rows)
          (λ v. omega (arith, same v, count-version-le s v (db.rows t) g)) in
      Spaced-of_Strict version 0 read strict
        (λ w h. omega (arith, count-above version 0 w read strict h))
        (λ v w hv hw lt.
          versions_apart s v w (db.rows t) g (rw (same v) at hv) (rw (same w) at hw) lt)

  pub stream_events-Spaced :
      (s : String) (t : db.Table) → ChainedTable db t → Spaced record_version 0 (stream_events s t)
  stream_events-Spaced s t g =
      Spaced-map (read_record db sorting generated) record_version 0
        (stream_rows db sorting generated s t) (stream_rows-Spaced s t g)

  read_stream-take :
      (s : String) (n : ℕ) (t : db.Table) (at : Option ℕ)
      → read_stream db sorting generated s at (some n) t
        ≡ take n (starting record_version at (stream_events s t))
  unfolding read_stream
  read_stream-take s n t at =
      let rows = stream_rows db sorting generated s t in
      map-take (read_record db sorting generated) n (starting version at rows)
      ∙ ap (take n) (map-starting (read_record db sorting generated) record_version at rows)

  length-stream_events-le :
      (s : String) (t : db.Table) → length (stream_events s t) ≤ length (db.rows t)
  length-stream_events-le s t =
      let rows = keep (in_stream s) (db.rows t) in
      omega (
        arith,
        length-map (read_record db sorting generated) (sorting.order_by version rows),
        length-count (sorting.order_by version rows),
        sorting.count-order_by (λ r. true) version rows,
        length-count rows,
        length-keep-le (in_stream s) (db.rows t),
      )

batch_size_pos : (n : Option ℕ) → (m : ℕ) × (batch_size_or n ≡ suc m)
batch_size_pos none = (99, refl)
batch_size_pos (some zero) = (99, refl)
batch_size_pos (some (suc n)) = (n, ground arith)

module _ {Payload S : Type 0} (db : EventTable Payload) (sorting : Sorting (EventRow Payload))
    (generated : Generated Payload) (handler : Handler Payload S) where
  -- `replayStream` on a table whose streams have the versions 1, 11, 111, …, as `appendEvent` writes them, ends, with more fuel than
  -- the table has rows, and has handled each event of the stream once, in the order of versions, from
  -- `fromVersion` and up to `toVersion`, where they are given.
  pub replay_stream-handle_all :
      (fuel : ℕ) (s : String) (options : ReplayOptions) (t : db.Table) (st : S)
      → ChainedTable db t
      → length (db.rows t) < fuel
      → let key = record_version db sorting generated in
        replay_stream db sorting generated handler fuel s options t st
        ≡ some (
            handle_all handler
              (keep
                (within key options.to_version)
                (starting key options.from_version (stream_events db sorting generated s t)))
              (start handler st))
  unfolding replay_stream
  replay_stream-handle_all fuel s options t st g enough =
      let (m, size) = batch_size_pos options.batch_size in
      let batch = batch_size_or options.batch_size in
      replay_loop-handle_all handler (record_version db sorting generated)
        (λ at. read_stream db sorting generated s at (some batch) t) batch m options.to_version
        (stream_events db sorting generated s t) fuel options.from_version (start handler st) size
        (read_stream-take db sorting generated s batch t)
        (stream_events-Spaced db sorting generated s t g)
        (omega (arith, length-stream_events-le db sorting generated s t, enough))
