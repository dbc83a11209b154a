-- ===== src/Events/Versions.antt =====
-- The order of the versions of a stream. The version after one that was read is ten times it plus one,
-- since `+ 1` appends a digit to the text of it.
use paya.Prelude.{
  ℕ, ◌+◌, ◌*◌, ◌<◌, ◌≤◌, String, Bool, true, false, Option, none, some, List, [], ◌∷◌, ◌≡◌, refl,
  arith, any, str_eq, str_eq_iff, ◌==◌, ◌&&◌, ◌||◌,
}
use paya.Events.Types.{
  EventRow, EventTable, stored, clashes, top_version, version_of, Counter, count, digits, value,
  plus_one,
}

module _ {Payload : Type 0} where
  -- Read from the oldest row on, a stream has the versions 1, 11, 111, ….
  abbrev pub Chained : List (EventRow Payload) → Type 0
  Chained [] = Unit
  Chained (r ∷ rs) = (r.stream_version ≡ 10 * top_version r.stream_id rs + 1) × Chained rs

  -- Read from the oldest row on, every row has a version above those of its stream so far.
  abbrev pub Rising : List (EventRow Payload) → Type 0
  Rising [] = Unit
  Rising (r ∷ rs) = (top_version r.stream_id rs < r.stream_version) × Rising rs

  abbrev pub taken : String → ℕ → List (EventRow Payload) → Bool
  taken s v rs = any (λ x. str_eq x.stream_id s && x.stream_version == v) rs

  -- A version that a call can have read.
  abbrev pub known : String → ℕ → List (EventRow Payload) → Bool
  known s v rs = v == 0 || taken s v rs

  pub clash-le :
      (r : EventRow Payload) (rs : List (EventRow Payload))
      → any (clashes r) rs ≡ true
      → r.stream_version ≤ top_version r.stream_id rs
  clash-le r [] h = cc
  clash-le r (x ∷ rs) h = ground (arith, h, clash-le r rs, str_eq_iff x.stream_id r.stream_id)

  -- The version after a known one is taken, unless that one is the greatest.
  known-top :
      (s : String) (c : ℕ) (rs : List (EventRow Payload))
      → Chained rs
      → known s c rs ≡ true
      → taken s (10 * c + 1) rs ≡ false
      → c ≡ top_version s rs
  known-top s c [] g k free = ground (arith, k)
  known-top s c (x ∷ rs) g k free =
      ground (arith, g, k, free, known-top s c rs g.1, str_eq_iff x.stream_id s)

  pub top-known : (s : String) (rs : List (EventRow Payload)) → known s (top_version s rs) rs ≡ true
  top-known s [] = ground arith
  top-known s (x ∷ rs) = ground (arith, top-known s rs)

pub plus_one-lt : (c : Counter) → value c < value (plus_one c)
plus_one-lt (count n) = omega arith
plus_one-lt (digits n) = omega arith

-- Of a version that was just read the next one has a digit 1 more.
pub next_lem :
    {Payload : Type 0} (o : Option (EventRow Payload))
    → value (plus_one (version_of o)) ≡ 10 * value (version_of o) + 1
next_lem none = refl
next_lem (some r) = refl

module _ {Payload : Type 0} (db : EventTable Payload) where
  abbrev pub ChainedTable : db.Table → Type 0
  ChainedTable t = Chained (db.rows t)

  abbrev pub RisingTable : db.Table → Type 0
  RisingTable t = Rising (db.rows t)

  -- A row that was stored, with the version after a known one, came after the greatest version.
  pub insert-next :
      (r : EventRow Payload) (t u : db.Table) (c : ℕ)
      → ChainedTable t
      → known r.stream_id c (db.rows t) ≡ true
      → r.stream_version ≡ 10 * c + 1
      → db.insert r t ≡ stored u
      → ChainedTable u
  insert-next r t u c g k v ins =
      let free : taken r.stream_id r.stream_version (db.rows t) ≡ false =
        db.insert-stored_unique r t u ins in
      let last : c ≡ top_version r.stream_id (db.rows t) =
        known-top r.stream_id c (db.rows t) g k (rw v at free) in
      rw (db.rows-insert r t u ins) (ground (arith, v, last), g)
