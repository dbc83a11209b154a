-- ===== src/Runtime/Sorting.antt =====
-- `ORDER BY key ASC` of the database, taken as a parameter: what it returns has its keys in order and
-- has, for every test, as many rows that pass as the rows that it was given. Rows with equal keys may
-- come in any order.
use paya.Prelude.{ℕ, Bool, List, ◌≡◌, Ascending, count}

pub record Sorting (Row : Type 0) : Type 0 where
  pub order_by : (Row → ℕ) → List Row → List Row
  pub order_by-Ascending : (key : Row → ℕ) (rows : List Row) → Ascending key 0 (order_by key rows)
  pub count-order_by :
      (p : Row → Bool) (key : Row → ℕ) (rows : List Row)
      → count p (order_by key rows) ≡ count p rows
