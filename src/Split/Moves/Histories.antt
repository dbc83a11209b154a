-- ===== src/Split/Moves/Histories.antt =====
-- Whole histories of requests: what of a split persists, and how often it can be retried.
use paya.Prelude.{
  ℕ, ◌+◌, ◌-◌, ◌≤◌, String, Option, none, some, List, [], ◌∷◌, ◌≡◌, ◌≢◌, arith, length, str_eq,
  str_eq_iff, if◌then◌else◌, Option-cases, Bool-cases, inl, inr, map, false, subst,
}
use paya.Runtime.Action.{Result, ok}
use paya.Runtime.Number.{Number}
use paya.Split.Types.{SplitStatus, PaymentSplit, Database, World}
use paya.Split.Lifecycle.{retry_failed_distributions, reset_failed}
use paya.Split.Calls.{Call, run, run_all}
use paya.Split.Moves.{Follows, Kept}
use paya.Split.Moves.Requests.{run-Keeps}

module _ {Num : Type 0} where
  pub record Lasts (s s' : PaymentSplit Num) : Type 0 where
    pub same_merchant : s'.merchant_address ≡ s.merchant_address
    pub same_amount : s'.total_amount ≡ s.total_amount
    pub same_limit : s'.max_retries ≡ s.max_retries
    pub retries_grow : s.retry_count ≤ s'.retry_count
    pub same_recipients : length s'.recipients ≡ length s.recipients
    pub never_again_pending : s.status ≢ SplitStatus.pending → s'.status ≢ SplitStatus.pending

  -- A row before and after a history.
  abbrev pub Persists : Option (PaymentSplit Num) → Option (PaymentSplit Num) → Type 0
  Persists none found = found ≡ none
  Persists (some s) none = ⊥
  Persists (some s) (some s') = Lasts s s'

  Persists-refl : (found : Option (PaymentSplit Num)) → Persists found found
  Persists-refl none = ground arith
  Persists-refl (some s) = ground arith

  Lasts-of_Follows : (s s' s'' : PaymentSplit Num) → Follows s s' → Lasts s' s'' → Lasts s s''
  Lasts-of_Follows s s' s'' f l = record {
    same_merchant = ground arith;
    same_amount = ground arith;
    same_limit = ground arith;
    retries_grow = omega arith;
    same_recipients = ground arith;
    never_again_pending = λ h. l.never_again_pending (λ e. ground (arith, h, e, f.moved));
  }

  Persists-of_Kept : (a b c : Option (PaymentSplit Num)) → Kept a b → Persists b c → Persists a c
  Persists-of_Kept none b c k p = ground arith
  Persists-of_Kept (some s) none c k p = absurd k
  Persists-of_Kept (some s) (some s') none k p = absurd p
  Persists-of_Kept (some s) (some s') (some s'') k p = Lasts-of_Follows s s' s'' k p

  -- How often the split can still be retried.
  abbrev pub retries_left : Option (PaymentSplit Num) → ℕ
  retries_left none = 0
  retries_left (some s) = s.max_retries - s.retry_count

module _ (num : Number) (db : Database num.Num) where
  open num use {Num}

  -- After any list of calls, failed ones included, of the eight handlers of payment-split.service.ts
  -- that work on a split that is stored (neither `createSplit` nor the refund service), a stored split is still stored, with its
  -- merchant, its amount, its retry limit and its number of recipients; its retry count has not
  -- fallen, and once it has left PENDING it is not PENDING again. No split appears under a new id.
  pub run_all-Persists :
      (cs : List (Call Num)) (w : World db) (j : String)
      → Persists (db.splits.find_one j w.splits) (db.splits.find_one j (run_all num db cs w).splits)
  unfolding run_all
  run_all-Persists [] w j = Persists-refl (db.splits.find_one j w.splits)
  run_all-Persists (c ∷ cs) w j =
      Persists-of_Kept (db.splits.find_one j w.splits)
        (db.splits.find_one j (run num db c w).1.splits)
        (db.splits.find_one j (run_all num db (c ∷ cs) w).splits) (run-Keeps num db c w j)
        (run_all-Persists cs (run num db c w).1 j)

  -- 1 if the request is a retry of the split that goes through.
  abbrev retried : String → Call Num → Result (Unit {0}) → ℕ
  retried j (Call.retry id _ _) (ok _) = if str_eq id j then 1 else 0
  retried j c r = 0

  unfoldable pub retries : String → List (Call Num) → World db → ℕ
  retries j [] w = 0
  retries j (c ∷ cs) w = retried j c (run num db c w).0 + retries j cs (run num db c w).1

  Kept-left : (a b : Option (PaymentSplit Num)) → Kept a b → retries_left b ≤ retries_left a
  Kept-left none b k = ground arith
  Kept-left (some s) none k = absurd k
  Kept-left (some s) (some s') k = ground arith

  retry-left :
      (id retryer role : String) (w : World db)
      → retried id (Call.retry id retryer role) (run num db (Call.retry id retryer role) w).0
          + retries_left
              (db.splits.find_one id (run num db (Call.retry id retryer role) w).1.splits)
        ≤ retries_left (db.splits.find_one id w.splits)
  unfolding run retry_failed_distributions
  retry-left id retryer role w = elim (Option-cases (db.splits.find_one id w.splits)) [
    | inl lost ↦ ground arith
    | inr (s, found) ↦ ground (
      arith,
      str_eq_iff id id,
      str_eq_iff s.split_id id,
      db.splits.key-find_one id s w.splits found,
      db.splits.find_one-save id
          (record s {
            retry_count = s.retry_count + 1;
            status = SplitStatus.executing;
            recipients = map reset_failed s.recipients;
          })
          w.splits,
    )
  ]

  keeps-left :
      (c : Call Num) (w : World db) (j : String)
      → retries_left (db.splits.find_one j (run num db c w).1.splits)
        ≤ retries_left (db.splits.find_one j w.splits)
  keeps-left c w j =
      Kept-left (db.splits.find_one j w.splits) (db.splits.find_one j (run num db c w).1.splits)
        (run-Keeps num db c w j)

  retried_other :
      (j id retryer role : String) (r : Result (Unit {0}))
      → str_eq id j ≡ false
      → retried j (Call.retry id retryer role) r ≡ 0
  retried_other j id retryer role r h = ground arith

  run-left :
      (j : String) (c : Call Num) (w : World db)
      → retried j c (run num db c w).0
          + retries_left (db.splits.find_one j (run num db c w).1.splits)
        ≤ retries_left (db.splits.find_one j w.splits)
  run-left j (Call.retry id retryer role) w = elim (Bool-cases (str_eq id j)) [
    | inl same ↦
        subst
          (λ k.
            retried k (Call.retry id retryer role) (run num db (Call.retry id retryer role) w).0
              + retries_left
                  (db.splits.find_one k (run num db (Call.retry id retryer role) w).1.splits)
            ≤ retries_left (db.splits.find_one k w.splits))
          ((str_eq_iff id j).0 same) (retry-left id retryer role w)
    | inr other ↦ omega (
      arith,
      retried_other j id retryer role (run num db (Call.retry id retryer role) w).0 other,
      keeps-left (Call.retry id retryer role) w j,
    )
  ]
  run-left j (Call.execute id executor by role now) w =
      omega (arith, keeps-left (Call.execute id executor by role now) w j)
  run-left j (Call.cancel id canceller role) w =
      omega (arith, keeps-left (Call.cancel id canceller role) w j)
  run-left j (Call.distribute dto by role now) w =
      omega (arith, keeps-left (Call.distribute dto by role now) w j)
  run-left j (Call.confirm id hash now later) w =
      omega (arith, keeps-left (Call.confirm id hash now later) w j)
  run-left j (Call.fail id message) w = omega (arith, keeps-left (Call.fail id message) w j)
  run-left j (Call.trigger id m triggerer by role now) w =
      omega (arith, keeps-left (Call.trigger id m triggerer by role now) w j)
  run-left j (Call.complete id m by role now later) w =
      omega (arith, keeps-left (Call.complete id m by role now later) w j)

  -- In any list of calls of the eight handlers of payment-split.service.ts that work on a stored split
  -- (neither `createSplit` nor the refund service), the retries of one split that go through are at most as many as its
  -- retry limit exceeds its retry count at the start; none go through if the split is not stored.
  pub retries-le :
      (cs : List (Call Num)) (w : World db) (j : String)
      → retries j cs w ≤ retries_left (db.splits.find_one j w.splits)
  unfolding retries
  retries-le [] w j = omega arith
  retries-le (c ∷ cs) w j = omega (arith, run-left j c w, retries-le cs (run num db c w).1 j)
