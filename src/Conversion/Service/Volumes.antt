-- ===== src/Conversion/Service/Volumes.antt =====
-- The daily volumes of the merchants over a history of calls of the conversion service.
use paya.Prelude.{
  ℕ, String, Bool, true, false, Option, none, some, List, [], ◌∷◌, ◌≡◌, inl, inr, refl, sym, arith,
  subst, ◌&&◌, not, leb, All, Option-cases, Bool-cases,
}
use paya.Runtime.Action.{Action, Error, Result, ok, err, Result-cases}
use paya.Runtime.Number.{number, text}
use paya.Conversion.Types.{Conversion, CreateConversionDto}
use paya.Conversion.Risk.{RiskState, assess_risk}
use paya.Conversion.Risk.Limits.{perform, WithinLimits, assess, trade, perform-WithinLimits}
use paya.Conversion.Services.{Setting, World, Execution, Moments}
use paya.Conversion.Execution.{
  ◌>>=◌, pure, throw_if, when, call, assign, save_conversion, this_conversion, find_route, swap,
  bridge, record_trade, complete, settle, deliver, proceed, conclude, begin, finish, execute_found,
}
use paya.Conversion.Service.{
  execute_conversion, cancel_conversion, retry_conversion, create_conversion, store_conversion,
  is_failed,
}

module _ (env : Setting) where
  open env use {num}
  open num use {Num}

  -- No volume of the day is over the limit of its merchant.
  abbrev pub Within : RiskState Num → Type 0
  Within s = WithinLimits num env.to_date_string env.volatility_threshold s

  -- The day does not end between the assessment of the trade and the update of the volume.
  abbrev pub InOneDay : Moments → Type 0
  InOneDay m = env.to_date_string m.assessed ≡ env.to_date_string m.updated

  record Keeps {A : Type 0} (m : Action (Execution env) A) : Type 0 where
    keeps : (x : Execution env) → Within x.world.risk → Within (m x).1.world.risk

  Keeps-bind :
      {A B : Type 0} (m : Action (Execution env) A) (f : A → Action (Execution env) B)
      → Keeps m
      → ((a : A) → Keeps (f a))
      → Keeps (m >>= f)
  unfolding ◌>>=◌
  Keeps-bind m f km kf = record {
    keeps = λ x w. elim (Result-cases (m x).0) [
      | inl (e, failed) ↦
          let same : (m x).1 ≡ ((m >>= f) x).1 = ground (arith, failed) in
          subst (λ (y : Execution env). Within y.world.risk) same (km.keeps x w)
      | inr (a, done) ↦
          let same : (f a (m x).1).1 ≡ ((m >>= f) x).1 = ground (arith, done) in
          subst (λ (y : Execution env). Within y.world.risk) same
            ((kf a).keeps (m x).1 (km.keeps x w))
    ];
  }

  Keeps-call : {A : Type 0} (m : Action env.services.State A) → Keeps (call env m)
  unfolding call
  Keeps-call m = record { keeps = λ x w. w }

  Keeps-this : Keeps (this_conversion env)
  unfolding this_conversion
  Keeps-this = record { keeps = λ x w. w }

  Keeps-pure : {A : Type 0} (a : A) → Keeps (pure env a)
  unfolding pure
  Keeps-pure a = record { keeps = λ x w. w }

  Keeps-throw_if : (b : Bool) (e : Error) → Keeps (throw_if env b e)
  unfolding throw_if
  Keeps-throw_if b e = record { keeps = λ x w. w }

  Keeps-assign : (f : Conversion Num → Conversion Num) → Keeps (assign env f)
  unfolding assign
  Keeps-assign f = record { keeps = λ x w. w }

  Keeps-save : Keeps (save_conversion env)
  unfolding save_conversion
  Keeps-save = record { keeps = λ x w. w }

  Keeps-when : (b : Bool) (m : Action (Execution env) (Unit {0})) → Keeps m → Keeps (when env b m)
  unfolding when
  Keeps-when true m km = record { keeps = λ x w. km.keeps x w }
  Keeps-when false m km = record { keeps = λ x w. w }

  Keeps-record_trade : (m : Moments) → InOneDay m → Keeps (record_trade env m)
  unfolding record_trade perform
  Keeps-record_trade m day = record {
    keeps = λ x w.
        let c = x.conversion in
        perform-WithinLimits num env.to_date_string env.volatility_threshold
          (trade c.merchant_id c.source_token c.target_token
            (text (num.decimal_text c.source_amount)) m.assessed m.updated)
          x.world.risk day w;
  }

  Keeps-proceed : (id : String) (m : Moments) → InOneDay m → Keeps (proceed env id m)
  unfolding proceed find_route swap deliver bridge settle complete
  Keeps-proceed id m day =
      search
        (
          Keeps-bind, Keeps-call, Keeps-this, Keeps-pure, Keeps-throw_if, Keeps-assign, Keeps-save,
          Keeps-when, Keeps-record_trade, day,
        )
        depth 60

  conclude-risk :
      (m : Moments) (r : Result (Unit {0})) (x : Execution env)
      → (conclude env m r x).1.risk ≡ x.world.risk
  unfolding conclude
  conclude-risk m (ok u) x = refl
  conclude-risk m (err e) x = refl

  found-Within :
      (id : String) (m : Moments) (c : Option (Conversion Num)) (w : World env)
      → InOneDay m
      → Within w.risk
      → Within (execute_found env id m c w).1.risk
  unfolding execute_found finish begin
  found-Within id m none w day h = h
  found-Within id m (some c) w day h =
      let x = begin env c w in
      let (r, x') = proceed env id m x in
      subst Within (sym (conclude-risk m r x')) ((Keeps-proceed id m day).keeps x h)

  execute-Within :
      (id : String) (m : Moments) (w : World env)
      → InOneDay m
      → Within w.risk
      → Within (execute_conversion env id m w).1.risk
  unfolding execute_conversion
  execute-Within id m w day h =
      found-Within id m (env.conversions.find_one id w.conversions) w day h

  retry-Within :
      (id : String) (m : Moments) (w : World env)
      → InOneDay m
      → Within w.risk
      → Within (retry_conversion env id m w).1.risk
  unfolding retry_conversion
  retry-Within id m w day h = elim (Option-cases (env.conversions.find_one id w.conversions)) [
    | inl absent ↦
        let same : w ≡ (retry_conversion env id m w).1 = ground (arith, absent) in
        subst (λ (v : World env). Within v.risk) same h
    | inr (c, stored) ↦
        elim (Bool-cases (is_failed c.status && not (leb c.max_retries c.retry_count))) [
          | inl allowed ↦
              let same : (execute_conversion env id m w).1 ≡ (retry_conversion env id m w).1 =
                ground (arith, stored, allowed) in
              subst (λ (v : World env). Within v.risk) same (execute-Within id m w day h)
          | inr refused ↦
              let same : w ≡ (retry_conversion env id m w).1 = ground (arith, stored, refused) in
              subst (λ (v : World env). Within v.risk) same h
        ]
  ]

  -- A call of a handler that writes.
  pub data Request : Type 0 where
    create : CreateConversionDto Num → String → ℕ → Request
    execute : String → Moments → Request
    retry : String → Moments → Request
    cancel : String → Request

  unfoldable pub handle : Request → World env → World env
  handle (create dto uuid now) w = (create_conversion env dto uuid now w).1
  handle (execute id m) w = (execute_conversion env id m w).1
  handle (retry id m) w = (retry_conversion env id m w).1
  handle (cancel id) w = (cancel_conversion env id w).1

  unfoldable pub handle_all : List Request → World env → World env
  unfolding handle
  handle_all [] w = w
  handle_all (r ∷ rs) w = handle_all rs (handle r w)

  abbrev pub Timely : Request → Type 0
  Timely (execute id m) = InOneDay m
  Timely (retry id m) = InOneDay m
  Timely _ = Unit

  create-risk :
      (dto : CreateConversionDto Num) (uuid : String) (now : ℕ) (w : World env)
      → (create_conversion env dto uuid now w).1.risk
        ≡ (assess_risk num env.to_date_string env.volatility_threshold dto.merchant_id
            dto.source_token dto.target_token
            (number dto.source_amount)
            now
            w.risk).1
  unfolding create_conversion store_conversion
  create-risk dto uuid now w = ground arith

  cancel-risk : (id : String) (w : World env) → (cancel_conversion env id w).1.risk ≡ w.risk
  unfolding cancel_conversion
  cancel-risk id w = ground arith

  handle-Within :
      (r : Request) (w : World env) → Timely r → Within w.risk → Within (handle r w).risk
  unfolding handle perform
  handle-Within (create dto uuid now) w t h = subst Within (sym (create-risk dto uuid now w)) (
      perform-WithinLimits num env.to_date_string env.volatility_threshold
        (assess dto.merchant_id dto.source_token dto.target_token (number dto.source_amount) now)
        w.risk tt h)
  handle-Within (execute id m) w t h = execute-Within id m w t h
  handle-Within (retry id m) w t h = retry-Within id m w t h
  handle-Within (cancel id) w t h = subst Within (sym (cancel-risk id w)) h

  -- Over a history of creations, executions, retries and cancellations, in which no trade is
  -- assessed before and recorded after midnight, from a state where no recorded volume of the day
  -- compares as greater than the limit of its merchant, none ever does, however the services answer.
  -- The volumes are values of JavaScript: the amount of an executed conversion is the text of a
  -- column, which `+` joins to the volume, and a text that is no number exceeds no limit.
  pub handle_all-Within :
      (rs : List Request) (w : World env)
      → All Timely rs
      → Within w.risk
      → Within (handle_all rs w).risk
  unfolding handle_all
  handle_all-Within [] w t h = h
  handle_all-Within (r ∷ rs) w (t, ts) h =
      handle_all-Within rs (handle r w) ts (handle-Within r w t h)
