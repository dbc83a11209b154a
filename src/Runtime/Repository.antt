-- ===== src/Runtime/Repository.antt =====
-- A TypeORM repository, which the services call and do not implement: a table of entities with a
-- unique column (or pair of columns), by which the services look rows up. Two rows with one key
-- are one row, so the generated primary key is not modelled apart. A statement either succeeds or,
-- when it inserts a row that a constraint refuses, throws; a lost connection is not modelled.
use mathlib.Core.List.{Mem}
use paya.Prelude.{Bool, true, Option, none, some, List, ◌≡◌, ◌↔◌, if◌then◌else◌}

pub record Repository (Key Row : Type 0) (same : Key → Key → Bool) (key : Row → Key) : Type 1 where
  pub Table : Type 0
  -- `findOne({ where: { key } })`
  pub find_one : Key → Table → Option Row
  -- `find({ where })`
  pub find_by : (Row → Bool) → Table → List Row
  -- `save` of a row that was loaded: an update.
  pub save : Row → Table → Table
  -- `save` of a row that was just created: an insert, which a unique constraint can refuse.
  pub insert : Row → Table → Option Table
  pub key-find_one : (k : Key) (r : Row) (t : Table) → find_one k t ≡ some r → same (key r) k ≡ true
  pub find_one-save :
      (k : Key) (r : Row) (t : Table)
      → find_one k (save r t) ≡ (if same (key r) k then some r else find_one k t)
  pub find_one-insert :
      (k : Key) (r : Row) (t u : Table)
      → insert r t ≡ some u
      → find_one k u ≡ (if same (key r) k then some r else find_one k t)
  pub insert-fresh : (r : Row) (t u : Table) → insert r t ≡ some u → find_one (key r) t ≡ none
  pub mem-find_by :
      (p : Row → Bool) (r : Row) (t : Table)
      → Mem r (find_by p t) ↔ ((find_one (key r) t ≡ some r) × (p r ≡ true))
