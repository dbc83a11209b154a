-- ===== src/Events/Tests.antt =====
-- The theorems on the event store at a concrete table, and runs of the service.
use paya.Prelude.{◌≡◌, none, some, [], ◌∷◌, refl, arith}
use paya.Runtime.Action.{err, conflict}
use paya.Events.Types.{count, digits}
use paya.Events.Append.{append_event, append_events, save_event}
use paya.Events.Versions.{ChainedTable, RisingTable}
use paya.Events.Interleaving.{
  Flight, saving, System, Reach, here, next, begin, reserve, finish, Collision, Reach-Chained,
  Reach-Collision,
}
use paya.Events.Sequential.{Appended, append_event-Appended, append_event-conflict}
use paya.Events.Examples.{db, paid, row, store}
use paya.Events.Batches.{append_events-Rising}

append_event-Appended_example :
    Appended db "a" paid
      (some (digits 1))
      store
      (append_event db "a" paid (some (digits 1)) "id" 9 store)
append_event-Appended_example = append_event-Appended db "a" paid (some (digits 1)) "id" 9 store

append_event-conflict_example :
    append_event db "a" paid (some (count 1)) "id" 9 store
    ≡ (err (conflict "Stream version mismatch"), store)
append_event-conflict_example = append_event-conflict db "a" paid 1 "id" 9 store (omega arith)

abbrev idle : System db
idle = record { store = store; flights = [] }

abbrev begun : System db
begun = record { store = store; flights = Flight.read "a" paid none (digits 1) ∷ [] }

abbrev reserved : System db
reserved = record {
  store = record store { global_position = count 3 };
  flights = saving (row "a" 11 3) ∷ [];
}

abbrev finished : System db
finished = record {
  store = record store { global_position = count 3; table = row "a" 11 3 ∷ store.table };
  flights = [];
}

Reach-Chained_example : ChainedTable db finished.store.table
unfolding save_event
Reach-Chained_example =
    Reach-Chained db idle finished (refl, (refl, tt)) refl
      (next
        (next (next here (begin "a" paid none refl))
          (reserve "a" paid none (digits 1) [] [] refl refl refl))
        (finish (row "a" 11 3) [] [] refl refl))

-- Two calls on the stream `a` read version 1; the first saves at position 3, the second at 4.
abbrev racing : System db
racing = record {
  store = record store { global_position = count 4 };
  flights = saving (row "a" 11 3) ∷ saving (row "a" 11 4) ∷ [];
}

Reach-Collision_example : (b : System db) × Reach db racing b × Collision db racing (row "a" 11 4) b
Reach-Collision_example =
    Reach-Collision db racing (row "a" 11 3) (row "a" 11 4) (row "a" 11 4 ∷ store.table) "b" paid
      refl (omega arith) refl refl refl

append_events-Rising_example :
    RisingTable db (append_events db "a" (paid ∷ paid ∷ []) none (λ p. ("id", 9)) store).1.table
append_events-Rising_example =
    append_events-Rising db "a" (paid ∷ paid ∷ []) none (λ p. ("id", 9)) store tt
      (omega arith, (omega arith, tt))
