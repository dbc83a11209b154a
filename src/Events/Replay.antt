-- ===== src/Events/Replay.antt =====
-- `replayStream`, `replayAll` and `getStreamStateAtVersion` of
-- backend/src/event-sourcing/replay/event-replay.service.ts. A handler may throw; it is given its own
-- state and does not append events. Pauses between batches and durations are left out.
pub mod Loop
pub mod Streams
pub mod FromSnapshot
use paya.Prelude.{
  ℕ, zero, suc, ◌+◌, String, Bool, true, false, not, ◌&&◌, Option, none, some, List, [], ◌∷◌, ◌++◌,
  ltb, ◌==◌, get_or, if◌then◌else◌, str_eq, foldl,
}
use paya.Runtime.Sorting.{Sorting}
use paya.Events.Types.{digits, value, plus_one, EventRecord, EventRow, EventTable}
use paya.Events.Read.{Generated, read_stream, read_all_events}

pub record ReplayOptions : Type 0 where
  pub from_position : Option ℕ
  pub to_position : Option ℕ
  pub from_version : Option ℕ
  pub to_version : Option ℕ
  pub batch_size : Option ℕ

-- The counters and errors of a replay, and the state of the handler.
pub record Progress (Payload S : Type 0) : Type 0 where
  pub processed : ℕ
  pub failed : ℕ
  pub errors : List (EventRecord Payload × String)
  pub state : S

-- How `handler.handle(event)` ends: with the message of what it throws, or not.
abbrev pub Handler : Type 0 → Type 0 → Type 0
Handler Payload S = EventRecord Payload → S → Option String × S

-- `options.batchSize || 100`
abbrev pub batch_size_or : Option ℕ → ℕ
batch_size_or none = 100
batch_size_or (some n) = if n == 0 then 100 else n

-- `lastEvent.streamVersion + 1`, of an event that was read: a digit 1 is appended to the text of the
-- bigint column, and the query reads it as a number again.
abbrev pub after : ℕ → ℕ
after v = value (plus_one (digits v))

-- `options.toVersion && version > options.toVersion`
abbrev pub beyond : Option ℕ → ℕ → Bool
beyond none v = false
beyond (some t) v = not (t == 0) && ltb t v

module _ {Payload S : Type 0} (handler : Handler Payload S) where
  -- The body of the `for`, under its `try`.
  abbrev pub handle_one : EventRecord Payload → Progress Payload S → Progress Payload S
  handle_one e p =
      let (thrown, s) = handler e p.state in
      elim thrown [
        | none ↦ record p { processed = p.processed + 1; state = s }
        | some m ↦ record p { failed = p.failed + 1; errors = p.errors ++ (e, m) ∷ []; state = s }
      ]

  module _ (key : EventRecord Payload → ℕ) where
    -- The `for` over a batch, and whether it ran to the end.
    unfoldable pub run_batch :
        Option ℕ → List (EventRecord Payload) → Progress Payload S → Progress Payload S × Bool
    run_batch to [] p = (p, true)
    run_batch to (e ∷ es) p =
        let rest = run_batch to es (handle_one e p) in
        if beyond to (key e) then (p, false) else rest

    -- `events[events.length - 1]`
    abbrev pub last : EventRecord Payload → List (EventRecord Payload) → EventRecord Payload
    last e [] = e
    last e (f ∷ fs) = last f fs

    -- The `while`, on fuel: `none` means that the fuel ran out.
    unfoldable pub replay_loop :
        (Option ℕ → List (EventRecord Payload))
        → Option ℕ
        → ℕ
        → Option ℕ
        → Progress Payload S
        → Option (Progress Payload S)
    replay_loop read to zero at p = none
    replay_loop read to (suc fuel) at p = elim (read at) [
      | [] ↦ some p
      | e ∷ es ↦
          let (q, more) = run_batch to (e ∷ es) p in
          elim more [
            | true ↦ replay_loop read to fuel (some (after (key (last e es)))) q
            | false ↦ some q
          ]
    ]

  abbrev pub start : S → Progress Payload S
  start s = record { processed = 0; failed = 0; errors = []; state = s }

module _ {Payload S : Type 0} (db : EventTable Payload) (sorting : Sorting (EventRow Payload))
    (generated : Generated Payload) (handler : Handler Payload S) where
  unfoldable pub replay_stream :
      ℕ → String → ReplayOptions → db.Table → S → Option (Progress Payload S)
  replay_stream fuel stream_id options t s =
      replay_loop handler (λ e. value e.event.stream_version)
        (λ at.
          read_stream db sorting generated stream_id at (some (batch_size_or options.batch_size)) t)
        options.to_version fuel options.from_version (start handler s)

  unfoldable pub replay_all : ℕ → ReplayOptions → db.Table → S → Option (Progress Payload S)
  replay_all fuel options t s =
      replay_loop handler (λ e. value e.position)
        (λ at. read_all_events db sorting generated at (some (batch_size_or options.batch_size)) t)
        options.to_position fuel (some (get_or options.from_position 0)) (start handler s)

-- `applyEventToState`: `assign` is the spread `{ ...state, ...event.data }`, `with_status` sets the
-- field `status`.
module _ {Payload State : Type 0} (with_status : String → State → State)
    (assign : State → Payload → State) where
  unfoldable pub apply_event_to_state : State → EventRecord Payload → State
  apply_event_to_state state e =
      if str_eq e.event.event_type "PaymentCreated"
      then assign state e.event.payload
      else if str_eq e.event.event_type "PaymentConfirmed"
      then assign (with_status "CONFIRMED" state) e.event.payload
      else if str_eq e.event.event_type "PaymentSettled"
      then assign (with_status "SETTLED" state) e.event.payload
      else assign state e.event.payload

  -- The loop over the events, from the state `{}`.
  unfoldable pub get_stream_state_at_version :
      (db : EventTable Payload)
      → Sorting (EventRow Payload)
      → Generated Payload
      → State
      → String
      → ℕ
      → db.Table
      → State
  get_stream_state_at_version db sorting generated empty stream_id target t =
      foldl apply_event_to_state empty
        (read_stream db sorting generated stream_id (some 1) (some target) t)
