-- ===== src/Conversion/Service/Calls.antt =====
-- How the handlers of the conversion service end.
use paya.Prelude.{
  ℕ, ◌+◌, String, Bool, true, false, Option, none, some, ◌≡◌, refl, sym, ap, arith, ◌∙◌, str_eq,
  str_eq_iff, if◌then◌else◌,
}
use paya.Runtime.Action.{Result, ok, err, failure, is_ok}
use paya.Conversion.Types.{ConversionStatus, Conversion, ConversionResponseDto}
use paya.Conversion.Services.{Setting, World, Execution, Moments}
use paya.Conversion.Execution.{begin, finish, execute_found}
use paya.Conversion.Execution.Outcomes.{Finished, finish-Finished, finish-others}
use paya.Conversion.Service.{execute_conversion, cancel_conversion}

module _ (env : Setting) where
  open env use {num}
  open num use {Num}

  -- Of the conversion that was found before the execution.
  abbrev pub Executed :
      Option (Conversion Num)
      → Moments
      → World env
      → Result (ConversionResponseDto Num) × World env
      → Type 0
  Executed none m w p = p ≡ (err (failure "Conversion not found"), w)
  Executed (some c) m w p =
      Finished env c.id c.retry_count c.max_retries m p
      × ((j : String)
          → str_eq c.id j ≡ false
          → env.conversions.find_one j p.1.conversions ≡ env.conversions.find_one j w.conversions)

  execute_found-Executed :
      (id : String) (m : Moments) (c : Option (Conversion Num)) (w : World env)
      → Executed c m w (execute_found env id m c w)
  unfolding execute_found begin
  execute_found-Executed id m none w = refl
  execute_found-Executed id m (some c) w =
      let x = begin env c w in
      (
        finish-Finished env id m x,
        λ j h.
            finish-others env id m x j h
            ∙ rw (env.conversions.find_one-save j x.conversion w.conversions, h) refl,
      )

  -- However the services answer, `executeConversion` of a stored conversion in any state returns what
  -- it has stored, COMPLETED with the amount that its route stands for and its counters unchanged, or
  -- it throws and has stored the conversion FAILED, with the message of the error and the retry count
  -- raised by one. No other conversion changes. If the conversion is not stored, it throws and changes
  -- nothing.
  pub execute_conversion-Executed :
      (id : String) (m : Moments) (w : World env)
      → Executed (env.conversions.find_one id w.conversions) m w (execute_conversion env id m w)
  unfolding execute_conversion
  execute_conversion-Executed id m w =
      execute_found-Executed id m (env.conversions.find_one id w.conversions) w

  -- Status and counters of a conversion, by whether its execution returned.
  abbrev pub Ended : Bool → String → ℕ → ℕ → World env → Type 0
  Ended returned id retry_count max_retries w =
      (c : Conversion Num) × (env.conversions.find_one id w.conversions ≡ some c)
      × (c.status ≡ (if returned then ConversionStatus.completed else ConversionStatus.failed))
      × (c.retry_count ≡ (if returned then retry_count else retry_count + 1))
      × (c.max_retries ≡ max_retries)

  pub Ended-of_Finished :
      (id : String) (retry_count max_retries : ℕ) (m : Moments)
      (p : Result (ConversionResponseDto Num) × World env)
      → Finished env id retry_count max_retries m p
      → Ended (is_ok p.0) id retry_count max_retries p.1
  Ended-of_Finished id retry_count max_retries m (ok dto, w)
        (c, stored, _, status, _, count, most, _) =
      (c, stored, status, count, most)
  Ended-of_Finished id retry_count max_retries m (err e, w) (c, stored, status, count, most, _) =
      (c, stored, status, count, most)

  -- `cancelConversion` that is called while an execution of the conversion waits for its route is
  -- accepted, and the conversion ends COMPLETED or FAILED all the same.
  pub cancel_conversion-begin :
      (id : String) (m : Moments) (w : World env) (c : Conversion Num)
      → env.conversions.find_one id w.conversions ≡ some c
      → let x = begin env c w in
        let (answer, w1) = cancel_conversion env id x.world in
        let (outcome, w2) = finish env id m (record x { world = w1 }) in
        (is_ok answer ≡ true)
        × ((c1 : Conversion Num) × (env.conversions.find_one id w1.conversions ≡ some c1)
            × (c1.status ≡ ConversionStatus.cancelled))
        × ((c2 : Conversion Num) × (env.conversions.find_one id w2.conversions ≡ some c2)
            × (c2.status
                ≡ (if is_ok outcome then ConversionStatus.completed else ConversionStatus.failed)))
  unfolding cancel_conversion begin
  cancel_conversion-begin id m w c found =
      let same : c.id ≡ id =
        (str_eq_iff c.id id).0 (env.conversions.key-find_one id c w.conversions found) in
      let x = begin env c w in
      let cancelled : Conversion Num = record c { status = ConversionStatus.cancelled } in
      let x1 : Execution env = record x { world = (cancel_conversion env id x.world).1 } in
      let stored : env.conversions.find_one id x.world.conversions ≡ some x.conversion = ground (
        arith,
        same,
        str_eq_iff c.id id,
        env.conversions.find_one-save id x.conversion w.conversions,
      ) in
      let (c2, stored2, status2, _, _) =
        Ended-of_Finished c.id c.retry_count c.max_retries m (finish env id m x1)
          (finish-Finished env id m x1) in
      (
        ground (arith, stored),
        (
          cancelled,
          ground (
            arith,
            stored,
            same,
            str_eq_iff c.id id,
            env.conversions.find_one-save id cancelled x.world.conversions,
          ),
          refl,
        ),
        (
          c2,
          ap (λ k. env.conversions.find_one k (finish env id m x1).1.conversions) (sym same)
              ∙ stored2,
          status2,
        ),
      )
