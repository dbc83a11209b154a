-- ===== src/Split/Validation/Accepts.antt =====
-- What `validateRecipients` accepts.
use paya.Prelude.{
  ◌≤◌, ◌<◌, true, false, none, List, [], ◌∷◌, ◌≡◌, ◌↔◌, refl, arith, length, is_some, All,
  Option-cases, inl, inr, ap,
}
use paya.Runtime.Action.{ok, Result-cases}
use paya.Runtime.Number.{Number, to_number}
use paya.Split.Types.{RecipientDto, SplitType}
use paya.Split.Validation.{sum_percentages, sum_fixed, require_hundred, validate_recipients}

module _ (num : Number) where
  open num use {
    Num, nan, of_ℕ, add, lt, le, equal, add-nan_left, add-nan_right, equal-nan_left, le-nan_left,
  }

  -- The comparisons that the source makes before it adds a percentage.
  abbrev pub InRange : RecipientDto Num → Type 0
  InRange r =
      (lt (to_number num r.percentage) (of_ℕ 1) ≡ false)
      × (lt (of_ℕ 100) (to_number num r.percentage) ≡ false)

  -- The percentages added up from the left, in the order of the request.
  abbrev pub total : Num → List (RecipientDto Num) → Num
  total t [] = t
  total t (r ∷ rs) = total (add t (to_number num r.percentage)) rs

  sum_percentages-ok :
      (rs : List (RecipientDto Num)) (t : Num)
      → All InRange rs
      → sum_percentages num rs t ≡ ok (total t rs)
  unfolding sum_percentages
  sum_percentages-ok [] t h = refl
  sum_percentages-ok (r ∷ rs) t h =
      ground (arith, sum_percentages-ok rs (add t (to_number num r.percentage)))

  sum_percentages-InRange :
      (rs : List (RecipientDto Num)) (t u : Num) → sum_percentages num rs t ≡ ok u → All InRange rs
  unfolding sum_percentages
  sum_percentages-InRange [] t u h = tt
  sum_percentages-InRange (r ∷ rs) t u h =
      ground (arith, sum_percentages-InRange rs (add t (to_number num r.percentage)) u)

  total-nan : (rs : List (RecipientDto Num)) → total nan rs ≡ nan
  total-nan [] = refl
  total-nan (r ∷ rs) = rw (add-nan_left (to_number num r.percentage)) (total-nan rs)

  abbrev pub IsGiven : RecipientDto Num → Type 0
  IsGiven r = is_some r.percentage ≡ true

  IsGiven-of_total :
      (rs : List (RecipientDto Num)) (t : Num)
      → equal (total t rs) (of_ℕ 100) ≡ true
      → All IsGiven rs
  IsGiven-of_total [] t h = tt
  IsGiven-of_total (r ∷ rs) t h = elim (Option-cases r.percentage) [
    | inl undefined ↦ cc (
      h,
      undefined,
      ap (λ u. equal (total u rs) (of_ℕ 100)) (add-nan_right t),
      ap (λ u. equal u (of_ℕ 100)) (total-nan rs),
      equal-nan_left (of_ℕ 100),
    )
    | inr (p, given) ↦
        (ap is_some given, IsGiven-of_total rs (add t (to_number num r.percentage)) h)
  ]

  sums_to_hundred :
      (rs : List (RecipientDto Num))
      → (require_hundred num (sum_percentages num rs (of_ℕ 0)) ≡ ok tt)
        ↔ (All InRange rs × (equal (total (of_ℕ 0) rs) (of_ℕ 100) ≡ true))
  unfolding require_hundred
  sums_to_hundred rs = (
    λ h. elim (Result-cases (sum_percentages num rs (of_ℕ 0))) [
      | inl (e, stop) ↦ absurd (ground (arith, h, stop))
      | inr (u, sum) ↦
          let ranged = sum_percentages-InRange rs (of_ℕ 0) u sum in
          (ranged, ground (arith, h, sum, sum_percentages-ok rs (of_ℕ 0) ranged))
    ],
    λ (ranged, hundred). ground (arith, sum_percentages-ok rs (of_ℕ 0) ranged),
  )

  -- A percentage split is accepted exactly when it has 1 to 50 recipients, no percentage compares as
  -- below 1 or above 100, and the percentages add up, from the left, to 100.
  pub validate_recipients-percentage :
      (rs : List (RecipientDto Num))
      → (validate_recipients num rs SplitType.percentage ≡ ok tt) ↔ (
          (0 < length rs)
          × (length rs ≤ 50)
          × All InRange rs
          × (equal (total (of_ℕ 0) rs) (of_ℕ 100) ≡ true))
  unfolding validate_recipients
  validate_recipients-percentage rs = (
    λ h.
        let p = (sums_to_hundred rs).0 (ground (arith, h)) in
        (ground (arith, h), ground (arith, h), p.0, p.1),
    λ (some_recipient, limit, ranged, hundred).
        ground (arith, some_recipient, limit, (sums_to_hundred rs).1 (ranged, hundred)),
  )

  -- An accepted percentage split gives every recipient a percentage: a missing one turns the total
  -- into NaN.
  pub validate_recipients-IsGiven :
      (rs : List (RecipientDto Num))
      → validate_recipients num rs SplitType.percentage ≡ ok tt
      → All IsGiven rs
  validate_recipients-IsGiven rs h =
      IsGiven-of_total rs (of_ℕ 0) ((validate_recipients-percentage rs).0 h).3

  -- A missing `fixedAmount` is not refused: it compares as NaN, which is not below or equal to 0.
  abbrev pub NoAmount : RecipientDto Num → Type 0
  NoAmount r = r.fixed_amount ≡ none

  sum_fixed-NoAmount :
      (rs : List (RecipientDto Num)) (t : Num)
      → All NoAmount rs
      → (u : Num) × (sum_fixed num rs t ≡ ok u)
  unfolding sum_fixed
  sum_fixed-NoAmount [] t h = (t, refl)
  sum_fixed-NoAmount (r ∷ rs) t (missing, h) =
      let (u, e) = sum_fixed-NoAmount rs (add t (to_number num r.fixed_amount)) h in
      (u, rw (missing, le-nan_left (of_ℕ 0)) (rw missing at e))

  -- A fixed-amount split of 1 to 50 recipients is accepted when none of them has an amount.
  pub validate_recipients-NoAmount :
      (rs : List (RecipientDto Num))
      → 0 < length rs
      → length rs ≤ 50
      → All NoAmount rs
      → validate_recipients num rs SplitType.fixed_amount ≡ ok tt
  unfolding validate_recipients
  validate_recipients-NoAmount rs pos limit missing =
      let (u, e) = sum_fixed-NoAmount rs (of_ℕ 0) missing in ground (arith, pos, limit, e)
