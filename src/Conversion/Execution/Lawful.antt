-- ===== src/Conversion/Execution/Lawful.antt =====
-- What no step of an execution touches: the other conversions, and the id and the counters of its own.
use paya.Prelude.{
  ℕ, String, Bool, Option, some, true, false, ◌≡◌, refl, arith, subst, ◌∙◌, str_eq, inl, inr,
}
use paya.Runtime.Action.{Action, Error, ok, Result-cases}
use paya.Conversion.Types.{Conversion, TradeRoute}
use paya.Conversion.Services.{Setting, Execution, Moments}
use paya.Conversion.Execution.{
  ◌>>=◌, pure, throw_if, when, call, assign, save_conversion, this_conversion, find_route, swap,
  bridge, record_trade, complete, deliver, settle, proceed,
}

module _ (env : Setting) {K : Type 0} (kept_of : Conversion env.num.Num → K) where
  open env use {num}
  open num use {Num}

  pub record Follows (x y : Execution env) : Type 0 where
    pub same_id : y.conversion.id ≡ x.conversion.id
    pub kept : kept_of y.conversion ≡ kept_of x.conversion
    pub others :
        (j : String)
        → str_eq x.conversion.id j ≡ false
        → env.conversions.find_one j y.world.conversions
          ≡ env.conversions.find_one j x.world.conversions

  pub record IsLawful {A : Type 0} (m : Action (Execution env) A) : Type 0 where
    pub follows : (x : Execution env) → Follows x (m x).1

  Follows-refl : (x : Execution env) → Follows x x
  Follows-refl x = record { same_id = refl; kept = refl; others = λ j h. refl }

  pub Follows-trans : {x y z : Execution env} → Follows x y → Follows y z → Follows x z
  Follows-trans f g = record {
    same_id = g.same_id ∙ f.same_id;
    kept = g.kept ∙ f.kept;
    others = λ j h. g.others j (rw f.same_id h) ∙ f.others j h;
  }

  IsLawful-bind :
      {A B : Type 0} (m : Action (Execution env) A) (f : A → Action (Execution env) B)
      → IsLawful m
      → ((a : A) → IsLawful (f a))
      → IsLawful (m >>= f)
  unfolding ◌>>=◌
  IsLawful-bind m f lm lf = record {
    follows = λ x. elim (Result-cases (m x).0) [
      | inl (e, failed) ↦ subst (Follows x) (ground (arith, failed)) (lm.follows x)
      | inr (a, done) ↦
          subst (Follows x) (ground (arith, done))
            (Follows-trans (lm.follows x) ((lf a).follows (m x).1))
    ];
  }

  IsLawful-call : {A : Type 0} (m : Action env.services.State A) → IsLawful (call env m)
  unfolding call
  IsLawful-call m = record {
    follows = λ x. record { same_id = refl; kept = refl; others = λ j h. refl };
  }

  IsLawful-this : IsLawful (this_conversion env)
  unfolding this_conversion
  IsLawful-this = record { follows = λ x. Follows-refl x }

  IsLawful-pure : {A : Type 0} (a : A) → IsLawful (pure env a)
  unfolding pure
  IsLawful-pure a = record { follows = λ x. Follows-refl x }

  IsLawful-throw_if : (b : Bool) (e : Error) → IsLawful (throw_if env b e)
  unfolding throw_if
  IsLawful-throw_if b e = record { follows = λ x. Follows-refl x }

  IsLawful-assign :
      (f : Conversion Num → Conversion Num)
      → ((c : Conversion Num) → (f c).id ≡ c.id)
      → ((c : Conversion Num) → kept_of (f c) ≡ kept_of c)
      → IsLawful (assign env f)
  unfolding assign
  IsLawful-assign f ids same = record {
    follows =
        λ x. record { same_id = ids x.conversion; kept = same x.conversion; others = λ j h. refl };
  }

  IsLawful-save : IsLawful (save_conversion env)
  unfolding save_conversion
  IsLawful-save = record {
    follows = λ x. record {
      same_id = refl;
      kept = refl;
      others = λ j h. rw (env.conversions.find_one-save j x.conversion x.world.conversions, h) refl;
    };
  }

  IsLawful-record_trade : (m : Moments) → IsLawful (record_trade env m)
  unfolding record_trade
  IsLawful-record_trade m = record {
    follows = λ x. record { same_id = refl; kept = refl; others = λ j h. refl };
  }

  IsLawful-when :
      (b : Bool) (m : Action (Execution env) (Unit {0})) → IsLawful m → IsLawful (when env b m)
  unfolding when
  IsLawful-when true m lm = record { follows = λ x. lm.follows x }
  IsLawful-when false m lm = record { follows = λ x. Follows-refl x }

  ruleset lawful = (
    IsLawful-bind, IsLawful-call, IsLawful-this, IsLawful-pure, IsLawful-throw_if, IsLawful-assign,
    IsLawful-save, IsLawful-when, IsLawful-record_trade,
  )

-- The counters, which no step changes, and the route, which none changes after it is found.
abbrev pub counters : {Num : Type 0} → Conversion Num → Num × ℕ × ℕ
counters c = (c.source_amount, c.retry_count, c.max_retries)

abbrev pub routing : {Num : Type 0} → Conversion Num → Num × Option (TradeRoute Num)
routing c = (c.source_amount, c.route_data)

module _ (env : Setting) where
  open env use {num}
  open num use {Num}

  IsLawful-find_route : IsLawful env counters (find_route env)
  unfolding find_route
  IsLawful-find_route = search lawful depth 30

  IsLawful-swap : (route : TradeRoute Num) → IsLawful env counters (swap env route)
  unfolding swap
  IsLawful-swap route = search lawful depth 30

  IsLawful-bridge : (amount : Num) → IsLawful env counters (bridge env amount)
  unfolding bridge
  IsLawful-bridge amount = search lawful depth 30

  IsLawful-settle :
      (id : String) (amount : Num) (m : Moments) → IsLawful env counters (settle env id amount m)
  unfolding settle complete
  IsLawful-settle id amount m = search lawful depth 30

  IsLawful-deliver :
      (id : String) (route : TradeRoute Num) (m : Moments)
      → IsLawful env counters (deliver env id route m)
  unfolding deliver
  IsLawful-deliver id route m = search (lawful, IsLawful-bridge, IsLawful-settle) depth 30

  pub IsLawful-proceed : (id : String) (m : Moments) → IsLawful env counters (proceed env id m)
  unfolding proceed
  IsLawful-proceed id m =
      search (lawful, IsLawful-find_route, IsLawful-swap, IsLawful-deliver) depth 30

  pub find_route-routes :
      (x : Execution env) (route : TradeRoute Num)
      → (find_route env x).0 ≡ ok route
      → (find_route env x).1.conversion.route_data ≡ some route
  unfolding find_route ◌>>=◌ this_conversion call assign save_conversion pure
  find_route-routes x route h = ground (arith, h)

  pub swap-IsLawful : (route : TradeRoute Num) → IsLawful env routing (swap env route)
  unfolding swap
  swap-IsLawful route = search lawful depth 30

  pub bridge-IsLawful :
      (b : Bool) (amount : Num) → IsLawful env routing (when env b (bridge env amount))
  unfolding bridge
  bridge-IsLawful b amount = search lawful depth 30

  pub settle-IsLawful :
      (id : String) (amount : Num) (m : Moments) → IsLawful env routing (settle env id amount m)
  unfolding settle complete
  settle-IsLawful id amount m = search lawful depth 30
