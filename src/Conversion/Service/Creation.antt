-- ===== src/Conversion/Service/Creation.antt =====
-- What a created conversion is.
use Prim.Native.String.{◌++◌ as str_append}
use paya.Prelude.{
  ℕ, String, true, false, none, some, ◌≡◌, inl, inr, refl, sym, arith, str_eq_iff, Option-cases,
  Bool-cases, subst,
}
use paya.Runtime.Action.{Result, ok, err, failure, query_failed, Result-cases}
use paya.Runtime.Number.{number}
use paya.Conversion.Types.{
  ConversionStatus, Conversion, CreateConversionDto, ConversionResponseDto, SlippageCalculation,
}
use paya.Conversion.Risk.{assess_risk}
use paya.Conversion.Risk.Laws.{
  is_too_large, is_too_much, is_cooling, is_volatile, assess_risk-Approved,
}
use paya.Conversion.Services.{Setting, World}
use paya.Conversion.Execution.{map_to_response_dto}
use paya.Conversion.Service.{create_conversion, new_conversion, store_conversion}

module _ (env : Setting) where
  open env use {num}
  open num use {Num}

  -- The trade passes all checks of the risk management.
  abbrev pub IsAllowed : CreateConversionDto Num → ℕ → World env → Type 0
  IsAllowed dto now w =
      (is_too_large num env.to_date_string dto.merchant_id (number dto.source_amount) w.risk
        ≡ false)
      × (is_too_much num env.to_date_string dto.merchant_id (number dto.source_amount) now w.risk
          ≡ false)
      × (is_cooling dto.source_token dto.target_token now w.risk ≡ false)
      × (is_volatile num env.to_date_string env.volatility_threshold dto.source_token
            dto.target_token
          ≡ false)

  abbrev pub Created :
      CreateConversionDto Num
      → String
      → ℕ
      → World env
      → Result (ConversionResponseDto Num) × World env
      → Type 0
  Created dto uuid now w (ok answer, w') =
      IsAllowed dto now w
      × (env.conversions.find_one uuid w.conversions ≡ none)
      × ((c : Conversion Num) × (env.conversions.find_one uuid w'.conversions ≡ some c)
          × (answer ≡ map_to_response_dto c)
          × (c.status ≡ ConversionStatus.pending)
          × (c.retry_count ≡ 0)
          × (c.max_retries ≡ 3)
          × (c.source_amount ≡ dto.source_amount))
  Created dto uuid now w (err e, w') = w'.conversions ≡ w.conversions

  IsAllowed-of_approved :
      (dto : CreateConversionDto Num) (now : ℕ) (w : World env)
      → (assess_risk num env.to_date_string env.volatility_threshold dto.merchant_id
          dto.source_token dto.target_token
          (number dto.source_amount)
          now
          w.risk).0.approved
        ≡ true
      → IsAllowed dto now w
  IsAllowed-of_approved dto now w h =
      let e =
        (assess_risk-Approved num env.to_date_string env.volatility_threshold dto.merchant_id
          dto.source_token dto.target_token (number dto.source_amount) now w.risk).0 in
      ground (arith, h, e)

  store-Created :
      (dto : CreateConversionDto Num) (uuid : String) (price : Num) (slip : SlippageCalculation Num)
      (now : ℕ) (w w1 : World env)
      → IsAllowed dto now w
      → w1.conversions ≡ w.conversions
      → Created dto uuid now w (store_conversion env (new_conversion env dto uuid price slip) w1)
  unfolding store_conversion
  store-Created dto uuid price slip now w w1 allowed same =
      let c = new_conversion env dto uuid price slip in
      elim (Option-cases (env.conversions.insert c w1.conversions)) [
        | inl refused ↦
            let e : (err query_failed, w1) ≡ store_conversion env c w1 = ground (arith, refused) in
            subst (Created dto uuid now w) e same
        | inr (t, done) ↦
            let w2 : World env = record w1 { conversions = t } in
            let e : (ok (map_to_response_dto c), w2) ≡ store_conversion env c w1 =
              ground (arith, done) in
            subst (Created dto uuid now w) e (
              allowed,
              rw (sym same) (env.conversions.insert-fresh c w1.conversions t done),
              (
                c,
                ground (
                  arith,
                  env.conversions.find_one-insert uuid c w1.conversions t done,
                  str_eq_iff uuid uuid,
                ),
                refl,
                refl,
                refl,
                refl,
                refl,
              ),
            )
      ]

  -- `createConversion` that returns had the trade within the limits of the merchant, with no breaker
  -- or volatility against it, and has stored a new conversion, which it returns: PENDING, for the
  -- amount asked, with no retry used of three. If it throws, no conversion has changed.
  pub create_conversion-Created :
      (dto : CreateConversionDto Num) (uuid : String) (now : ℕ) (w : World env)
      → Created dto uuid now w (create_conversion env dto uuid now w)
  unfolding create_conversion
  create_conversion-Created dto uuid now w =
      let (a, s) =
        assess_risk num env.to_date_string env.volatility_threshold dto.merchant_id dto.source_token
          dto.target_token (number dto.source_amount) now w.risk in
      let w1 : World env = record w { risk = s } in
      let quoted =
        env.services.get_best_price dto.source_token dto.source_chain dto.target_token
          dto.target_chain dto.source_amount w.services in
      let w2 : World env = record w1 { services = quoted.1 } in
      let created = create_conversion env dto uuid now w in
      elim (Bool-cases a.approved) [
        | inr refused ↦
            let reasons = env.join_reasons a.reasons in
            let e : (err (failure (str_append "Risk assessment failed: " reasons)), w1) ≡ created =
              ground (arith, refused) in
            subst (Created dto uuid now w) e refl
        | inl approved ↦ elim (Result-cases quoted.0) [
          | inl (x, failed) ↦
              let e : (err x, w2) ≡ created = ground (arith, approved, failed) in
              subst (Created dto uuid now w) e refl
          | inr (price, priced) ↦
              let slipped =
                env.services.calculate_slippage dto.source_token dto.source_chain dto.target_token
                  dto.target_chain dto.source_amount price dto.slippage_tolerance quoted.1 in
              let w3 : World env = record w2 { services = slipped.1 } in
              elim (Result-cases slipped.0) [
                | inl (x, failed) ↦
                    let e : (err x, w3) ≡ created = ground (arith, approved, priced, failed) in
                    subst (Created dto uuid now w) e refl
                | inr (slip, done) ↦
                    let e : store_conversion env (new_conversion env dto uuid price slip) w3
                        ≡ created =
                      ground (arith, approved, priced, done) in
                    subst (Created dto uuid now w) e (
                      store-Created dto uuid price slip now w w3
                        (IsAllowed-of_approved dto now w approved) refl)
              ]
        ]
      ]
