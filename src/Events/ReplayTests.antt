-- ===== src/Events/ReplayTests.antt =====
-- The theorems on replays at a concrete table, and runs of them.
use paya.Prelude.{ℕ, none, some, List, [], ◌∷◌, ◌≡◌, refl, arith, keep, if◌then◌else◌, ◌==◌}
use paya.Runtime.InsertionSort.{insertion_sort}
use paya.Events.Types.{value}
use paya.Events.Examples.{Rows, db, row}
use paya.Events.Read.{Generated}
use paya.Events.Replay.{ReplayOptions, Handler, start, replay_stream}
use paya.Events.Replay.Loop.{handle_all, within}
use paya.Events.Replay.Streams.{record_version, stream_events, replay_stream-handle_all}

abbrev generated : Generated ℕ
generated = record { id = λ r. "id"; created_at = λ r. 0; event_id = λ p. none }

-- A handler that lists the positions it is given and throws on the first event of a stream.
abbrev handler : Handler ℕ (List ℕ)
handler e seen =
    (if value e.event.stream_version == 1 then some "first" else none, value e.position ∷ seen)

abbrev table : Rows
table = row "a" 111 5 ∷ row "a" 11 3 ∷ row "b" 1 2 ∷ row "a" 1 1 ∷ []

abbrev in_pairs : ReplayOptions
in_pairs = record {
  from_position = none;
  to_position = none;
  from_version = none;
  to_version = some 11;
  batch_size = some 1;
}

replay_stream-handle_all_example :
    replay_stream db insertion_sort generated handler 9 "a" in_pairs table []
    ≡ some (
        handle_all handler
          (keep
            (within (record_version db insertion_sort generated) (some 11))
            (stream_events db insertion_sort generated "a" table))
          (start handler []))
replay_stream-handle_all_example =
    replay_stream-handle_all db insertion_sort generated handler 9 "a" in_pairs table []
      (refl, (refl, (refl, (refl, tt)))) (omega arith)
