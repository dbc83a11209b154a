-- ===== src/Runtime/InsertionSort.antt =====
-- Insertion sort as an instance of `Sorting`, for the examples.
use paya.Prelude.{
  ℕ, Bool, List, [], ◌∷◌, ◌≡◌, refl, ◌∙◌, ◌≤◌, arith, leb, if◌then◌else◌, Ascending, count,
}
use paya.Runtime.Sorting.{Sorting}

module _ {Row : Type 0} (key : Row → ℕ) where
  abbrev pub insert_by : Row → List Row → List Row
  insert_by r [] = r ∷ []
  insert_by r (x ∷ xs) = if leb (key r) (key x) then r ∷ x ∷ xs else x ∷ insert_by r xs

  abbrev pub sort_by : List Row → List Row
  sort_by [] = []
  sort_by (x ∷ xs) = insert_by x (sort_by xs)

  insert_by-Ascending :
      (b : ℕ) (r : Row) (xs : List Row)
      → b ≤ key r
      → Ascending key b xs
      → Ascending key b (insert_by r xs)
  insert_by-Ascending b r [] h s = (h, tt)
  insert_by-Ascending b r (x ∷ xs) h s = ground (arith, h, s, insert_by-Ascending (key x) r xs)

  pub sort_by-Ascending : (xs : List Row) → Ascending key 0 (sort_by xs)
  sort_by-Ascending [] = tt
  sort_by-Ascending (x ∷ xs) =
      insert_by-Ascending 0 x (sort_by xs) (omega arith) (sort_by-Ascending xs)

  count-insert_by :
      (p : Row → Bool) (r : Row) (xs : List Row) → count p (insert_by r xs) ≡ count p (r ∷ xs)
  count-insert_by p r [] = refl
  count-insert_by p r (x ∷ xs) = ground (arith, count-insert_by p r xs)

  pub count-sort_by : (p : Row → Bool) (xs : List Row) → count p (sort_by xs) ≡ count p xs
  count-sort_by p [] = refl
  count-sort_by p (x ∷ xs) = count-insert_by p x (sort_by xs) ∙ ground (arith, count-sort_by p xs)

abbrev pub insertion_sort : {Row : Type 0} → Sorting Row
insertion_sort = record {
  order_by = sort_by;
  order_by-Ascending = sort_by-Ascending;
  count-order_by = λ p key xs. count-sort_by key p xs;
}
