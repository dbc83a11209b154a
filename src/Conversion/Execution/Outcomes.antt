-- ===== src/Conversion/Execution/Outcomes.antt =====
-- How an execution ends.
use paya.Prelude.{
  ℕ, ◌+◌, String, false, not, some, ◌≡◌, refl, sym, ap, arith, subst, ◌∙◌, str_eq, str_eq_iff, inl,
  inr,
}
use paya.Runtime.Action.{Action, Result, ok, err, Result-cases, message_of}
use paya.Conversion.Types.{
  ConversionStatus, Conversion, ConversionResponseDto, TradeRoute, is_stellar,
}
use paya.Conversion.Services.{Setting, World, Execution, Moments}
use paya.Conversion.Execution.{
  ◌>>=◌, ◌>>◌, map_to_response_dto, when, assign, save_conversion, this_conversion, complete,
  deliver, find_route, swap, bridge, record_trade, settle, proceed, actual_amount, slippage,
  conclude, finish,
}
use paya.Conversion.Execution.Lawful.{
  Follows, counters, routing, IsLawful-proceed, find_route-routes, swap-IsLawful, bridge-IsLawful,
  settle-IsLawful,
}

module _ (env : Setting) where
  open env use {num}
  open num use {Num}

  returned :
      {A B : Type 0} (m : Action (Execution env) A) (f : A → Action (Execution env) B)
      (x : Execution env) (b : B)
      → ((m >>= f) x).0 ≡ ok b
      → (a : A) × ((m x).0 ≡ ok a) × ((m >>= f) x ≡ f a (m x).1)
  unfolding ◌>>=◌
  returned m f x b h = elim (Result-cases (m x).0) [
    | inl (e, failed) ↦ absurd (ground (arith, h, failed))
    | inr (a, done) ↦ (a, done, ground (arith, done))
  ]

  -- The object when the `try` is through, which is what the table holds.
  abbrev Settled : Moments → Num → Execution env → Type 0
  Settled m amount y =
      (env.conversions.find_one y.conversion.id y.world.conversions ≡ some y.conversion)
      × (y.conversion.status ≡ ConversionStatus.completed)
      × (y.conversion.completed_at ≡ some m.completed)
      × (y.conversion.target_amount ≡ amount)

  complete-Settled :
      (amount : Num) (hash : String) (m : Moments) (x : Execution env)
      → Settled m amount (complete env amount hash m x).1
  unfolding complete ◌>>=◌ assign save_conversion record_trade
  complete-Settled amount hash m x =
      let done : Conversion Num = record (x.conversion) {
        status = ConversionStatus.completed;
        target_amount = amount;
        settlement_tx_hash = some hash;
        completed_at = some m.completed;
      } in
      (
        ground (
          arith,
          env.conversions.find_one-save x.conversion.id done x.world.conversions,
          str_eq_iff x.conversion.id x.conversion.id,
        ),
        refl,
        refl,
        refl,
      )

  -- If the step returns, it ends in a state of which `P` holds.
  record Ends {A : Type 0} (P : Execution env → Type 0) (m : Action (Execution env) A)
      : Type 0 where
    ends : (x : Execution env) (a : A) → (m x).0 ≡ ok a → P (m x).1

  Ends-bind :
      {A B : Type 0} (P : Execution env → Type 0) (m : Action (Execution env) A)
      (f : A → Action (Execution env) B)
      → ((a : A) → Ends P (f a))
      → Ends P (m >>= f)
  Ends-bind P m f ends = record {
    ends = λ x b h.
        let (a, _, e) = returned m f x b h in
        subst P (ap (λ p. p.1) (sym e)) ((ends a).ends (m x).1 b (ap (λ p. p.0) (sym e) ∙ h));
  }

  Ends-complete :
      (amount : Num) (hash : String) (m : Moments)
      → Ends (Settled m amount) (complete env amount hash m)
  Ends-complete amount hash m = record { ends = λ x u h. complete-Settled amount hash m x }

  Ends-settle :
      (id : String) (amount : Num) (m : Moments) → Ends (Settled m amount) (settle env id amount m)
  unfolding settle
  Ends-settle id amount m = search (Ends-bind, Ends-complete) depth 10

  -- The object is stored and completed, with the amount of its route.
  abbrev pub Completed : Moments → Execution env → Type 0
  Completed m y =
      (env.conversions.find_one y.conversion.id y.world.conversions ≡ some y.conversion)
      × (y.conversion.status ≡ ConversionStatus.completed)
      × (y.conversion.completed_at ≡ some m.completed)
      × ((route : TradeRoute Num) × (y.conversion.route_data ≡ some route)
          × (y.conversion.target_amount ≡ actual_amount env y.conversion route))

  deliver-Completed :
      (id : String) (route : TradeRoute Num) (m : Moments) (x : Execution env) (u : Unit {0})
      → x.conversion.route_data ≡ some route
      → (deliver env id route m x).0 ≡ ok u
      → Completed m (deliver env id route m x).1
  unfolding deliver this_conversion assign ◌>>=◌
  deliver-Completed id route m x u known h =
      let amount = actual_amount env x.conversion route in
      let bridged = not (is_stellar x.conversion.target_chain) in
      let x1 : Execution env = record x {
        conversion = record (x.conversion) {
          actual_slippage = slippage env amount x.conversion.expected_amount;
        };
      } in
      let (_, _, e) =
        returned (when env bridged (bridge env amount)) (λ _. settle env id amount m) x1 u h in
      let x2 = (when env bridged (bridge env amount) x1).1 in
      let y = (settle env id amount m x2).1 in
      let (stored, completed, dated, paid) =
        (Ends-settle id amount m).ends x2 u (ap (λ p. p.0) (sym e) ∙ h) in
      let same : routing y.conversion ≡ routing x.conversion =
        ((settle-IsLawful env id amount m).follows x2).kept
        ∙ ((bridge-IsLawful env bridged amount).follows x1).kept in
      subst (Completed m) (ap (λ p. p.1) (sym e)) (
        stored,
        completed,
        dated,
        (
          route,
          ap (λ k. k.1) same ∙ known,
          paid
              ∙ ap (λ (a : Num). num.div (num.mul a route.expected_amount) a)
                  (sym (ap (λ k. k.0) same)),
        ),
      )

  pub proceed-Completed :
      (id : String) (m : Moments) (x : Execution env) (u : Unit {0})
      → (proceed env id m x).0 ≡ ok u
      → Completed m (proceed env id m x).1
  unfolding proceed
  proceed-Completed id m x u h =
      let (route, found, e) =
        returned (find_route env) (λ route. swap env route >> deliver env id route m) x u h in
      let x1 = (find_route env x).1 in
      let h1 = ap (λ p. p.0) (sym e) ∙ h in
      let (_, _, e1) = returned (swap env route) (λ _. deliver env id route m) x1 u h1 in
      let x2 = (swap env route x1).1 in
      let known : x2.conversion.route_data ≡ some route =
        ap (λ k. k.1) ((swap-IsLawful env route).follows x1).kept
        ∙ find_route-routes env x route found in
      subst (Completed m) (ap (λ p. p.1) (sym (e ∙ e1)))
        (deliver-Completed id route m x2 u known (ap (λ p. p.0) (sym e1) ∙ h1))

  -- What a finished execution of the conversion leaves, by its id and its counters before.
  abbrev pub Finished :
      String → ℕ → ℕ → Moments → Result (ConversionResponseDto Num) × World env → Type 0
  Finished id retry_count max_retries m (ok dto, w) =
      (c' : Conversion Num) × (env.conversions.find_one id w.conversions ≡ some c')
      × (dto ≡ map_to_response_dto c')
      × (c'.status ≡ ConversionStatus.completed)
      × (c'.completed_at ≡ some m.completed)
      × (c'.retry_count ≡ retry_count)
      × (c'.max_retries ≡ max_retries)
      × ((route : TradeRoute Num) × (c'.route_data ≡ some route)
          × (c'.target_amount ≡ actual_amount env c' route))
  Finished id retry_count max_retries m (err e, w) =
      (c' : Conversion Num) × (env.conversions.find_one id w.conversions ≡ some c')
      × (c'.status ≡ ConversionStatus.failed)
      × (c'.retry_count ≡ retry_count + 1)
      × (c'.max_retries ≡ max_retries)
      × (c'.error_details
          ≡ some (record { message = message_of env.driver_message e; timestamp = m.failed }))

  conclude-Finished :
      (m : Moments) (x y : Execution env) (r : Result (Unit {0}))
      → Follows env counters x y
      → ((u : Unit {0}) → r ≡ ok u → Completed m y)
      → Finished x.conversion.id x.conversion.retry_count x.conversion.max_retries m
          (conclude env m r y)
  unfolding conclude
  conclude-Finished m x y (ok u) f done =
      let (stored, completed, dated, routed) = done u refl in
      (
        y.conversion,
        ap (λ k. env.conversions.find_one k y.world.conversions) (sym f.same_id) ∙ stored,
        refl,
        completed,
        dated,
        ap (λ k. k.1) f.kept,
        ap (λ k. k.2) f.kept,
        routed,
      )
  conclude-Finished m x y (err e) f done =
      let failed : Conversion Num = record (y.conversion) {
        status = ConversionStatus.failed;
        error_details =
            some (record { message = message_of env.driver_message e; timestamp = m.failed });
        retry_count = y.conversion.retry_count + 1;
      } in
      (
        failed,
        ground (
          arith,
          f.same_id,
          env.conversions.find_one-save x.conversion.id failed y.world.conversions,
          str_eq_iff y.conversion.id x.conversion.id,
        ),
        refl,
        ap (λ k. k.1 + 1) f.kept,
        ap (λ k. k.2) f.kept,
        refl,
      )

  -- The other conversions.
  conclude-others :
      (m : Moments) (y : Execution env) (r : Result (Unit {0})) (j : String)
      → str_eq y.conversion.id j ≡ false
      → env.conversions.find_one j (conclude env m r y).1.conversions
        ≡ env.conversions.find_one j y.world.conversions
  unfolding conclude
  conclude-others m y (ok u) j h = refl
  conclude-others m y (err e) j h =
      let failed : Conversion Num = record (y.conversion) {
        status = ConversionStatus.failed;
        error_details =
            some (record { message = message_of env.driver_message e; timestamp = m.failed });
        retry_count = y.conversion.retry_count + 1;
      } in
      rw (env.conversions.find_one-save j failed y.world.conversions, h) refl

  -- The rest of an execution, from whatever the tables hold then.
  pub finish-Finished :
      (id : String) (m : Moments) (x : Execution env)
      → Finished x.conversion.id x.conversion.retry_count x.conversion.max_retries m
          (finish env id m x)
  unfolding finish
  finish-Finished id m x =
      conclude-Finished m x (proceed env id m x).1 (proceed env id m x).0
        ((IsLawful-proceed env id m).follows x) (proceed-Completed id m x)

  pub finish-others :
      (id : String) (m : Moments) (x : Execution env) (j : String)
      → str_eq x.conversion.id j ≡ false
      → env.conversions.find_one j (finish env id m x).1.conversions
        ≡ env.conversions.find_one j x.world.conversions
  unfolding finish
  finish-others id m x j h =
      let f = (IsLawful-proceed env id m).follows x in
      conclude-others m (proceed env id m x).1 (proceed env id m x).0 j (rw f.same_id h)
      ∙ f.others j h
