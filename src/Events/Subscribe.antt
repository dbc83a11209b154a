-- ===== src/Events/Subscribe.antt =====
-- `subscribeToStream`, `subscribeToAll` and the `unsubscribe` of what they return, of
-- backend/src/event-sourcing/services/event-store.service.ts. A subscription is named by a number,
-- and a new one by a number that is not in use. `throws` says with which message its handler throws
-- at an event, if it does.
use paya.Prelude.{
  ℕ, String, false, Option, none, some, List, [], ◌∷◌, ◌++◌, ◌==◌, ◌≡◌, refl, arith, ap, any,
  str_eq, str_eq_iff, if◌then◌else◌,
}
use paya.Runtime.Action.{Action, pure, gets, throw, failure, modify, ◌>>=◌, ◌>>◌}
use paya.Runtime.Sorting.{Sorting}
use paya.Events.Types.{EventRecord, EventRow, EventTable, Store}
use paya.Events.Read.{Generated, read_stream, read_all_events}

-- `subs.splice(subs.indexOf(subscription), 1)`, if it is there.
abbrev pub remove_first : ℕ → List ℕ → List ℕ
remove_first n [] = []
remove_first n (m ∷ ms) = if m == n then ms else m ∷ remove_first n ms

remove_first-append :
    (n : ℕ) (ms : List ℕ) → any (λ m. m == n) ms ≡ false → remove_first n (ms ++ n ∷ []) ≡ ms
remove_first-append n [] h = ground arith
remove_first-append n (m ∷ ms) h = ground (arith, h, remove_first-append n ms)

module _ {Payload : Type 0} (db : EventTable Payload) where
  abbrev pub update_subscribers : String → (List ℕ → List ℕ) → Action (Store db) (Unit {0})
  update_subscribers stream_id f = modify (λ w. record w {
    subscriptions = λ s. if str_eq s stream_id then f (w.subscriptions s) else w.subscriptions s;
  })

  unfoldable pub unsubscribe : String → ℕ → Action (Store db) (Unit {0})
  unsubscribe stream_id n = update_subscribers stream_id (remove_first n)

  -- The `for` over the events that are there.
  unfoldable pub deliver_each :
      ℕ
      → (EventRecord Payload → Option String)
      → List (EventRecord Payload)
      → Action (Store db) (Unit {0})
  deliver_each n throws [] = pure tt
  deliver_each n throws (e ∷ es) =
      modify (λ w. record w { delivered = (n, e) ∷ w.delivered })
      >> elim (throws e) [ none ↦ deliver_each n throws es | some m ↦ throw (failure m) ]

  module _ (sorting : Sorting (EventRow Payload)) (generated : Generated Payload) where
    -- `readStream(streamId, fromPosition)`, if `fromPosition` is given.
    abbrev replay_existing :
        (Option ℕ → db.Table → List (EventRecord Payload))
        → ℕ
        → (EventRecord Payload → Option String)
        → Option ℕ
        → Action (Store db) (Unit {0})
    replay_existing read n throws none = pure tt
    replay_existing read n throws (some p) = do
      events ← gets (λ w. read (some p) w.table)
      deliver_each n throws events

    unfoldable pub subscribe_to_stream :
        String → ℕ → (EventRecord Payload → Option String) → Option ℕ → Action (Store db) (Unit {0})
    subscribe_to_stream stream_id n throws from_position = do
      update_subscribers stream_id (λ ns. ns ++ n ∷ [])
      replay_existing (λ at t. read_stream db sorting generated stream_id at none t) n throws
          from_position

    unfoldable pub subscribe_to_all :
        ℕ → (EventRecord Payload → Option String) → Option ℕ → Action (Store db) (Unit {0})
    subscribe_to_all n throws from_position = do
      update_subscribers "$all" (λ ns. ns ++ n ∷ [])
      replay_existing (λ at t. read_all_events db sorting generated at none t) n throws
          from_position

  deliver_each-subscriptions :
      (n : ℕ) (throws : EventRecord Payload → Option String) (es : List (EventRecord Payload))
      (w : Store db)
      → (deliver_each n throws es w).1.subscriptions ≡ w.subscriptions
  unfolding deliver_each
  deliver_each-subscriptions n throws [] w = refl
  deliver_each-subscriptions n throws (e ∷ es) w = ground (
    arith,
    deliver_each-subscriptions n throws es (record w { delivered = (n, e) ∷ w.delivered }),
  )

  abbrev with_subscriber : String → ℕ → Store db → String → List ℕ
  with_subscriber stream_id n w s =
      if str_eq s stream_id then w.subscriptions s ++ n ∷ [] else w.subscriptions s

  subscribe_to_stream-subscribers :
      (sorting : Sorting (EventRow Payload)) (generated : Generated Payload) (stream_id : String)
      (n : ℕ) (throws : EventRecord Payload → Option String) (from_position : Option ℕ)
      (w : Store db)
      → (subscribe_to_stream sorting generated stream_id n throws from_position w).1.subscriptions
        ≡ with_subscriber stream_id n w
  unfolding subscribe_to_stream
  subscribe_to_stream-subscribers sorting generated stream_id n throws none w = refl
  subscribe_to_stream-subscribers sorting generated stream_id n throws (some p) w =
      deliver_each-subscriptions n throws
        (read_stream db sorting generated stream_id (some p) none w.table)
        (record w { subscriptions = with_subscriber stream_id n w })

  -- Unsubscribing undoes a subscription: the subscribers of every stream are those that there were,
  -- if the new one was not among those of its stream.
  pub unsubscribe-subscribe_to_stream :
      (sorting : Sorting (EventRow Payload)) (generated : Generated Payload) (stream_id : String)
      (n : ℕ) (throws : EventRecord Payload → Option String) (from_position : Option ℕ)
      (w : Store db) (s : String)
      → any (λ m. m == n) (w.subscriptions stream_id) ≡ false
      → (unsubscribe stream_id n
            (subscribe_to_stream sorting generated stream_id n throws from_position
              w).1).1.subscriptions
          s
        ≡ w.subscriptions s
  unfolding unsubscribe
  unsubscribe-subscribe_to_stream sorting generated stream_id n throws from_position w s fresh =
      let added =
        ap (λ f. f s)
          (subscribe_to_stream-subscribers sorting generated stream_id n throws from_position w) in
      ground (
        arith,
        added,
        fresh,
        str_eq_iff s stream_id,
        remove_first-append n (w.subscriptions stream_id),
      )
