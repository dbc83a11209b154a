-- ===== src/Runtime/ListTable.antt =====
-- A repository of the interface, as a list with the newest row of a key first: it shows that the
-- assumptions of `Repository` can be met together, and runs the examples.
use mathlib.Core.Logic.Or
use mathlib.Core.List.{Mem, mem-cons, mem-cons_self, mem-cons_of_mem, not-mem-nil}
use mathlib.Core.Bool.{Bool-set}
use mathlib.Core.Option
use mathlib.Core.HLevel.{×_prop}
use paya.Prelude.{
  Bool, true, not, Option, none, some, List, [], ◌∷◌, ◌≡◌, refl, ◌↔◌, subst, arith, if◌then◌else◌,
  keep, is_some, mem-keep_of, mem_of_mem-keep, Bool-cases, Option-cases, inl, inr,
}
use paya.Runtime.Repository.{Repository}

module _ {Key Row : Type 0} (same : Key → Key → Bool)
    (same_iff : (a b : Key) → (same a b ≡ true) ↔ (a ≡ b)) (key : Row → Key)
    (rows_set : IsSet Row) where
  abbrev other_than : Row → Row → Bool
  other_than r x = not (same (key x) (key r))

  abbrev pub lookup : Key → List Row → Option Row
  lookup k [] = none
  lookup k (r ∷ t) = if same (key r) k then some r else lookup k t

  abbrev pub add_row : Row → List Row → List Row
  add_row r t = r ∷ t

  -- An insert is refused if the key is taken.
  abbrev pub insert_row : Row → List Row → Option (List Row)
  insert_row r t = if is_some (lookup (key r) t) then none else some (r ∷ t)

  abbrev pub select : (Row → Bool) → List Row → List Row
  select p [] = []
  select p (r ∷ t) = let rest = keep (other_than r) (select p t) in if p r then r ∷ rest else rest

  pub key-lookup : (k : Key) (r : Row) (t : List Row) → lookup k t ≡ some r → same (key r) k ≡ true
  key-lookup k r [] h = cc
  key-lookup k r (x ∷ t) h = ground (arith, key-lookup k r t)

  pub lookup-insert_row :
      (k : Key) (r : Row) (t u : List Row)
      → insert_row r t ≡ some u
      → lookup k u ≡ (if same (key r) k then some r else lookup k t)
  lookup-insert_row k r t u h = ground (arith, h)

  pub insert_row-fresh :
      (r : Row) (t u : List Row) → insert_row r t ≡ some u → lookup (key r) t ≡ none
  insert_row-fresh r t u h = elim (Option-cases (lookup (key r) t)) [
    | inl free ↦ free
    | inr (x, taken) ↦ absurd (ground (arith, h, taken))
  ]

  abbrev pub Found : (Row → Bool) → Row → List Row → Type 0
  Found p r t = (lookup (key r) t ≡ some r) × (p r ≡ true)

  Found-prop : (p : Row → Bool) (r : Row) (t : List Row) → IsProp (Found p r t)
  Found-prop p r t = ×_prop (Option.is_set rows_set _ _) (Bool-set _ _)

  pub mem-select_of : (p : Row → Bool) (r : Row) (t : List Row) → Found p r t → Mem r (select p t)
  mem-select_of p r [] (h, pr) = cc
  mem-select_of p r (x ∷ t) (h, pr) = elim (Bool-cases (same (key x) (key r))) [
    | inl hit ↦
        let e : x ≡ r = ground (arith, h, hit) in
        let px : p x ≡ true = rw e pr in
        subst (λ y. Mem y (select p (x ∷ t))) e (rw px mem-cons_self)
    | inr miss ↦
        let m =
          mem-keep_of (other_than x) r (select p t)
            (mem-select_of p r t (ground (arith, h, miss), pr))
            (ground (arith, miss, same_iff (key r) (key x), same_iff (key x) (key r))) in
        elim (Bool-cases (p x)) [ inl px ↦ rw px (mem-cons_of_mem x m) | inr px ↦ rw px m ]
  ]

  Found-cons :
      (p : Row → Bool) (r x : Row) (t : List Row)
      → other_than x r ≡ true
      → Found p r t
      → Found p r (x ∷ t)
  Found-cons p r x t ne (h, pr) =
      (ground (arith, h, ne, same_iff (key r) (key x), same_iff (key x) (key r)), pr)

  pub mem_of_mem-select :
      (p : Row → Bool) (r : Row) (t : List Row) → Mem r (select p t) → Found p r t
  mem_of_mem-select p r [] m = absurd (not-mem-nil m)
  mem_of_mem-select p r (x ∷ t) m = elim (Bool-cases (p x)) [
    | inl px ↦
        Or.elim (Found-prop p r (x ∷ t)) (mem-cons.0 (rw px at m))
          (λ e. rw e (ground (arith, same_iff (key x) (key x)), px))
          (λ q.
            Found-cons p r x t (mem_of_mem-keep (other_than x) r (select p t) q).1
              (mem_of_mem-select p r t (mem_of_mem-keep (other_than x) r (select p t) q).0))
    | inr px ↦
        let q : Mem r (keep (other_than x) (select p t)) = rw px at m in
        Found-cons p r x t (mem_of_mem-keep (other_than x) r (select p t) q).1
          (mem_of_mem-select p r t (mem_of_mem-keep (other_than x) r (select p t) q).0)
  ]

  abbrev pub list_repository : Repository Key Row same key
  list_repository = record {
    Table = List Row;
    find_one = lookup;
    find_by = select;
    save = add_row;
    insert = insert_row;
    key-find_one = key-lookup;
    find_one-save = λ k r t. refl;
    find_one-insert = lookup-insert_row;
    insert-fresh = insert_row-fresh;
    mem-find_by = λ p r t. (mem_of_mem-select p r t, mem-select_of p r t);
  }
