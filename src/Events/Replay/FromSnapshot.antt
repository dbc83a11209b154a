-- ===== src/Events/Replay/FromSnapshot.antt =====
-- `replayFromSnapshot` of backend/src/event-sourcing/replay/event-replay.service.ts, and when it comes
-- to the same as a replay of the whole stream.
use paya.Prelude.{
  ◌≤◌, count, at_key, Strict-of_Spaced, keep-next, ℕ, suc, ◌<◌, String, false, Option, none, some,
  List, [], ◌∷◌, ◌++◌, ◌≡◌, refl, ap, sym, ◌∙◌, arith, length, keep, leb, from, Strict,
  keep-from_all, keep-below,
}
use paya.Runtime.Action.{Result, ok, err, failure}
use paya.Runtime.Sorting.{Sorting}
use paya.Events.Types.{digits, value, DomainEvent, EventRecord, EventRow, EventTable}
use paya.Events.Versions.{ChainedTable}
use paya.Events.Read.{Generated, starting}
use paya.Events.Snapshots.{Snapshot, SnapshotTable, get_latest_snapshot}
use paya.Events.Replay.{
  after, ReplayOptions, Progress, Handler, beyond, handle_one, start, replay_stream,
}
use paya.Events.Replay.Loop.{handle_all, within}
use paya.Events.Replay.Streams.{
  record_version, stream_events, stream_events-Spaced, replay_stream-handle_all,
}

module _ {Payload : Type 0} where
  -- The event that stands for a snapshot; `uuid` is `crypto.randomUUID()`.
  abbrev pub snapshot_event : String → String → Snapshot Payload → DomainEvent Payload
  snapshot_event uuid stream_id s = record {
    event_id = uuid;
    event_type = "Snapshot";
    stream_id = stream_id;
    stream_version = digits s.stream_version;
    timestamp = s.created_at;
    payload = s.snapshot_data;
    metadata = none;
  }

  abbrev pub after_snapshot : ReplayOptions → Snapshot Payload → ReplayOptions
  after_snapshot options s = record options { from_version = some (after s.stream_version) }

module _ {Payload S : Type 0} where
  abbrev pub to_result : Option (Progress Payload S) → Option (Result (Progress Payload S))
  to_result none = none
  to_result (some p) = some (ok p)

module _ {Payload S : Type 0} (db : EventTable Payload) (snapshots : SnapshotTable Payload)
    (sorting : Sorting (EventRow Payload)) (generated : Generated Payload)
    (handler : Handler Payload S) (handle : DomainEvent Payload → S → Option String × S) where
  -- `handle` is the same handler, on an event that has no position.
  unfoldable pub replay_from_snapshot :
      ℕ
      → String
      → String
      → ReplayOptions
      → db.Table
      → snapshots.rows.Table
      → S
      → Option (Result (Progress Payload S))
  replay_from_snapshot fuel uuid stream_id options t u s =
      elim (get_latest_snapshot snapshots stream_id u) [
        | none ↦ to_result (replay_stream db sorting generated handler fuel stream_id options t s)
        | some snapshot ↦
            let (thrown, s') = handle (snapshot_event uuid stream_id snapshot) s in
            elim thrown [
              | some m ↦ some (err (failure m))
              | none ↦ to_result (
                  replay_stream db sorting generated handler fuel stream_id
                    (after_snapshot options snapshot) t s')
            ]
      ]

module _ {Payload S : Type 0} (handler : Handler Payload S) where
  -- The state of a handler after it was given events, whatever it throws.
  abbrev pub states : List (EventRecord Payload) → S → S
  states [] s = s
  states (e ∷ es) s = states es (handler e s).1

  state-handle_one :
      (e : EventRecord Payload) (p : Progress Payload S)
      → (handle_one handler e p).state ≡ (handler e p.state).1
  state-handle_one e p = ground arith

  state-handle_all :
      (es : List (EventRecord Payload)) (p : Progress Payload S)
      → (handle_all handler es p).state ≡ states es p.state
  unfolding handle_all
  state-handle_all [] p = refl
  state-handle_all (e ∷ es) p =
      state-handle_all es (handle_one handler e p) ∙ ap (states es) (state-handle_one e p)

  states-append :
      (xs ys : List (EventRecord Payload)) (s : S) → states (xs ++ ys) s ≡ states ys (states xs s)
  states-append [] ys s = refl
  states-append (x ∷ xs) ys s = states-append xs ys (handler x s).1

module _ {Payload : Type 0} (key : EventRecord Payload → ℕ) where
  -- The events up to a version that is not beyond the end, and the others.
  within-split :
      (to : Option ℕ) (v b : ℕ) (xs : List (EventRecord Payload))
      → beyond to v ≡ false
      → Strict key b xs
      → keep (within key to) xs
        ≡ keep (λ e. leb (key e) v) xs ++ keep (within key to) (keep (from key (suc v)) xs)
  within-split to v b [] near s = refl
  within-split none v b (x ∷ xs) near s = ground (
    arith,
    s,
    within-split none v (key x) xs near s.1,
    keep-below key v (key x) xs,
    keep-from_all key (suc v) (key x) xs,
  )
  within-split (some t) v b (x ∷ xs) near s = ground (
    arith,
    near,
    s,
    within-split (some t) v (key x) xs near s.1,
    keep-below key v (key x) xs,
    keep-from_all key (suc v) (key x) xs,
  )

module _ {Payload S : Type 0} (db : EventTable Payload) (snapshots : SnapshotTable Payload)
    (sorting : Sorting (EventRow Payload)) (generated : Generated Payload)
    (handler : Handler Payload S) (handle : DomainEvent Payload → S → Option String × S) where
  abbrev events_up_to : ℕ → String → db.Table → List (EventRecord Payload)
  events_up_to v stream_id t =
      keep (λ e. leb (value e.event.stream_version) v)
        (stream_events db sorting generated stream_id t)

  from-states :
      (to : Option ℕ) (v : ℕ) (stream_id : String) (t : db.Table) (s : S)
      → ChainedTable db t
      → beyond to v ≡ false
      → 1
        ≤ count
            (at_key (record_version db sorting generated) v)
            (stream_events db sorting generated stream_id t)
      → let key = record_version db sorting generated in
        let events = stream_events db sorting generated stream_id t in
        states handler
          (keep (within key to) (keep (from key (after v)) events))
          (states handler (events_up_to v stream_id t) s)
        ≡ states handler (keep (within key to) events) s
  from-states to v stream_id t s g near there =
      let key = record_version db sorting generated in
      let events = stream_events db sorting generated stream_id t in
      let spaced = stream_events-Spaced db sorting generated stream_id t g in
      ap
        (λ later.
          states handler (keep (within key to) later)
            (states handler (events_up_to v stream_id t) s))
        (keep-next key v 0 events spaced there)
      ∙ sym (
          ap (λ es. states handler es s)
            (within-split key to v 0 events near (Strict-of_Spaced key 0 events spaced))
          ∙ states-append handler (events_up_to v stream_id t)
              (keep (within key to) (keep (from key (suc v)) events)) s)

  -- `replayFromSnapshot` leaves the handler in the state in which `replayStream` leaves it, and both
  -- return, if the stream has the versions 1, 11, 111, … and among
  -- them that of the snapshot, the fuel is more than the number of rows, the
  -- handler makes of the stored snapshot, without a throw, the state that it makes of the events of
  -- the stream up to the version of the snapshot, this version is not beyond `toVersion`, and there
  -- is no `fromVersion`.
  pub replay_from_snapshot-replay_stream :
      (fuel : ℕ) (uuid stream_id : String) (options : ReplayOptions) (t : db.Table)
      (u : snapshots.rows.Table) (snapshot : Snapshot Payload) (s : S)
      → ChainedTable db t
      → length (db.rows t) < fuel
      → get_latest_snapshot snapshots stream_id u ≡ some snapshot
      → options.from_version ≡ none
      → beyond options.to_version snapshot.stream_version ≡ false
      → 1
        ≤ count
            (at_key (record_version db sorting generated) snapshot.stream_version)
            (stream_events db sorting generated stream_id t)
      → handle (snapshot_event uuid stream_id snapshot) s
        ≡ (none, states handler (events_up_to snapshot.stream_version stream_id t) s)
      → (p : Progress Payload S) × (q : Progress Payload S) × ((replay_from_snapshot db snapshots
              sorting generated handler handle fuel uuid stream_id options t u s
            ≡ some (ok p))
          × ((replay_stream db sorting generated handler fuel stream_id options t s ≡ some q)
              × (p.state ≡ q.state)))
  unfolding replay_from_snapshot
  replay_from_snapshot-replay_stream fuel uuid stream_id options t u snapshot s g enough found whole
        near there applied =
      let key = record_version db sorting generated in
      let events = stream_events db sorting generated stream_id t in
      let v = snapshot.stream_version in
      let s' = states handler (events_up_to v stream_id t) s in
      let later = keep (within key options.to_version) (starting key (some (after v)) events) in
      let all = keep (within key options.to_version) (starting key options.from_version events) in
      let short =
        replay_stream-handle_all db sorting generated handler fuel stream_id
          (after_snapshot options snapshot) t s' g enough in
      let long =
        replay_stream-handle_all db sorting generated handler fuel stream_id options t s g enough in
      (
        handle_all handler later (start handler s'),
        handle_all handler all (start handler s),
        (
          ground (arith, found, applied, short),
          (
            long,
            state-handle_all handler later (start handler s')
                ∙ (from-states options.to_version v stream_id t s g near there
                    ∙ (ap
                          (λ at.
                            states handler
                              (keep (within key options.to_version) (starting key at events)) s)
                          (sym whole)
                        ∙ sym (state-handle_all handler all (start handler s)))),
          ),
        ),
      )
