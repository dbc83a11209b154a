-- ===== src/Conversion/Service/Retries.antt =====
-- How often a conversion is retried over a history of calls.
use paya.Prelude.{
  ℕ, ◌+◌, ◌-◌, ◌≤◌, String, Bool, true, false, not, ◌&&◌, ◌||◌, Option, none, some, List, [], ◌∷◌,
  ◌≡◌, ◌⊎◌, inl, inr, refl, ap, arith, ◌==◌, leb, subst, str_eq, str_eq_iff, if◌then◌else◌,
  Option-cases, Bool-cases,
}
use paya.Runtime.Action.{Result, is_ok}
use paya.Conversion.Types.{ConversionStatus, Conversion, ConversionResponseDto}
use paya.Conversion.Services.{Setting, World, Moments}
use paya.Conversion.Service.{execute_conversion, cancel_conversion, retry_conversion, is_failed}
use paya.Conversion.Service.Calls.{Executed, execute_conversion-Executed, Ended-of_Finished}

pub data Call : Type 0 where
  execute : String → Moments → Call
  retry : String → Moments → Call
  cancel : String → Call

module _ {Num : Type 0} where
  -- The call raised the retry count, or turned a failed conversion into another.
  abbrev pub is_changed : Option (Conversion Num) → Option (Conversion Num) → Bool
  is_changed (some c) (some c') =
      not (c.retry_count == c'.retry_count) || is_failed c.status && not (is_failed c'.status)
  is_changed _ _ = false

  -- How often the conversion can still be retried.
  abbrev pub left : Option (Conversion Num) → ℕ
  left none = 0
  left (some c) =
      if is_failed c.status
      then c.max_retries - c.retry_count
      else c.max_retries - c.retry_count - 1

module _ (env : Setting) where
  open env use {num}
  open num use {Num}

  unfoldable pub perform : Call → World env → World env
  perform (execute id m) w = (execute_conversion env id m w).1
  perform (retry id m) w = (retry_conversion env id m w).1
  perform (cancel id) w = (cancel_conversion env id w).1

  abbrev pub found : String → World env → Option (Conversion Num)
  found j w = env.conversions.find_one j w.conversions

  abbrev pub is_retry : Call → Bool
  is_retry (retry id m) = true
  is_retry _ = false

  -- The calls of `retryConversion` that changed the conversion `j`.
  unfoldable pub attempts : String → List Call → World env → ℕ
  unfolding perform
  attempts j [] w = 0
  attempts j (c ∷ cs) w =
      let w' = perform c w in
      (if is_retry c && is_changed (found j w) (found j w') then 1 else 0) + attempts j cs w'

  -- What a call makes of a conversion: nothing, or an execution, which returns or throws.
  abbrev Attempted : Conversion Num → Conversion Num → Type 0
  Attempted c c' =
      (returned : Bool) × (is_failed c'.status ≡ not returned)
      × (c'.retry_count ≡ (if returned then c.retry_count else c.retry_count + 1))
      × (c'.max_retries ≡ c.max_retries)

  abbrev Moved : Option (Conversion Num) → Option (Conversion Num) → Type 0
  Moved o o' =
      (o' ≡ o)
      ⊎ ((c : Conversion Num) × (c' : Conversion Num) × (o ≡ some c)
          × (o' ≡ some c')
          × Attempted c c')

  Attempted-of_status :
      (returned : Bool) (c c' : Conversion Num)
      → c'.status ≡ (if returned then ConversionStatus.completed else ConversionStatus.failed)
      → c'.retry_count ≡ (if returned then c.retry_count else c.retry_count + 1)
      → c'.max_retries ≡ c.max_retries
      → Attempted c c'
  Attempted-of_status true c c' status count most = (true, rw status refl, count, most)
  Attempted-of_status false c c' status count most = (false, rw status refl, count, most)

  Executed-Moved :
      (o : Option (Conversion Num)) (id : String) (m : Moments) (w : World env) (j : String)
      (p : Result (ConversionResponseDto Num) × World env)
      → found id w ≡ o
      → Executed env o m w p
      → Moved (found j w) (found j p.1)
  Executed-Moved none id m w j p found e =
      inl (ap (λ q. env.conversions.find_one j q.1.conversions) e)
  Executed-Moved (some c) id m w j p found (finished, others) = elim (Bool-cases (str_eq c.id j)) [
    | inl hit ↦
        let (c', stored, status, count, most) =
          Ended-of_Finished env c.id c.retry_count c.max_retries m p finished in
        inr (
          c,
          c',
          ground (
            arith,
            found,
            hit,
            env.conversions.key-find_one id c w.conversions found,
            str_eq_iff c.id j,
            str_eq_iff c.id id,
          ),
          ground (arith, stored, hit, str_eq_iff c.id j),
          Attempted-of_status (is_ok p.0) c c' status count most,
        )
    | inr miss ↦ inl (others j miss)
  ]

  execute-Moved :
      (id : String) (m : Moments) (w : World env) (j : String)
      → Moved (found j w) (found j (execute_conversion env id m w).1)
  execute-Moved id m w j =
      Executed-Moved (found id w) id m w j (execute_conversion env id m w) refl
        (execute_conversion-Executed env id m w)

  left-Moved : (o o' : Option (Conversion Num)) → Moved o o' → left o' ≤ left o
  left-Moved o o' m = ground (arith, m)

  -- A conversion that may be retried loses a retry.
  left-changed :
      (c : Conversion Num) (o' : Option (Conversion Num))
      → is_failed c.status ≡ true
      → leb c.max_retries c.retry_count ≡ false
      → Moved (some c) o'
      → (if is_changed (some c) o' then 1 else 0) + left o' ≤ left (some c)
  left-changed c o' failed more m = ground (arith, m, failed, more)

  not_changed : (o : Option (Conversion Num)) → is_changed o o ≡ false
  not_changed none = refl
  not_changed (some c) = ground arith

  abbrev Paid : String → World env → World env → Type 0
  Paid j w w' =
      (if is_changed (found j w) (found j w') then 1 else 0) + left (found j w') ≤ left (found j w)

  Paid-same : (j : String) (w w' : World env) → found j w' ≡ found j w → Paid j w w'
  Paid-same j w w' same = rw same (ground (arith, not_changed (found j w)))

  retried-Paid :
      (id : String) (m : Moments) (w : World env) (j : String) (c : Conversion Num)
      → found id w ≡ some c
      → is_failed c.status ≡ true
      → leb c.max_retries c.retry_count ≡ false
      → Paid j w (execute_conversion env id m w).1
  retried-Paid id m w j c stored failed more = elim (Bool-cases (str_eq id j)) [
    | inl hit ↦
        let here : found j w ≡ some c = ground (arith, stored, hit, str_eq_iff id j) in
        let moved : Moved (some c) (found j (execute_conversion env id m w).1) =
          subst (λ o. Moved o (found j (execute_conversion env id m w).1)) here
            (execute-Moved id m w j) in
        rw here (left-changed c (found j (execute_conversion env id m w).1) failed more moved)
    | inr miss ↦ Paid-same j w (execute_conversion env id m w).1 (
        let e : Executed env (some c) m w (execute_conversion env id m w) =
          subst (λ o. Executed env o m w (execute_conversion env id m w)) stored
            (execute_conversion-Executed env id m w) in
        e.1 j (
          ground (
            arith,
            miss,
            env.conversions.key-find_one id c w.conversions stored,
            str_eq_iff c.id id,
          )))
  ]

  retry-Paid :
      (id : String) (m : Moments) (w : World env) (j : String)
      → Paid j w (retry_conversion env id m w).1
  unfolding retry_conversion
  retry-Paid id m w j = elim (Option-cases (found id w)) [
    | inl absent ↦ Paid-same j w (retry_conversion env id m w).1 (ground (arith, absent))
    | inr (c, stored) ↦
        elim (Bool-cases (is_failed c.status && not (leb c.max_retries c.retry_count))) [
          | inl allowed ↦
              let e : (execute_conversion env id m w).1 ≡ (retry_conversion env id m w).1 =
                ground (arith, stored, allowed) in
              subst (Paid j w) e
                (retried-Paid id m w j c stored (ground (arith, allowed)) (ground (arith, allowed)))
          | inr refused ↦
              Paid-same j w (retry_conversion env id m w).1 (ground (arith, stored, refused))
        ]
  ]

  cancel-left :
      (id : String) (w : World env) (j : String)
      → left (found j (cancel_conversion env id w).1) ≤ left (found j w)
  unfolding cancel_conversion
  cancel-left id w j = elim (Option-cases (found id w)) [
    | inl absent ↦ ground (arith, absent)
    | inr (c, stored) ↦
        let cancelled : Conversion Num = record c { status = ConversionStatus.cancelled } in
        ground (
          arith,
          stored,
          env.conversions.key-find_one id c w.conversions stored,
          env.conversions.find_one-save j cancelled w.conversions,
          str_eq_iff c.id id,
          str_eq_iff c.id j,
        )
  ]

  -- Over a history of executions, retries and cancellations, however the services answer, a
  -- conversion is retried at most as often as its retry limit exceeds its retry count at the start,
  -- and at most one time less than that if it is not FAILED. A retry counts if it changed the
  -- conversion.
  pub attempts-le :
      (j : String) (cs : List Call) (w : World env) → attempts j cs w ≤ left (found j w)
  unfolding attempts perform
  attempts-le j [] w = omega arith
  attempts-le j (execute id m ∷ cs) w =
      let w' = (execute_conversion env id m w).1 in
      omega
        (arith, attempts-le j cs w', left-Moved (found j w) (found j w') (execute-Moved id m w j))
  attempts-le j (retry id m ∷ cs) w =
      omega (arith, attempts-le j cs (retry_conversion env id m w).1, retry-Paid id m w j)
  attempts-le j (cancel id ∷ cs) w =
      omega (arith, attempts-le j cs (cancel_conversion env id w).1, cancel-left id w j)
