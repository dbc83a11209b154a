-- ===== src/Webhook/Bursts.antt =====
-- How many deliveries to one webhook the rate limit lets through.
use paya.Prelude.{
  ℕ, ◌+◌, ◌*◌, ◌-◌, ◌≤◌, ◌<◌, String, Bool, true, Option, zero, suc, ◌++◌, ◌⊎◌, refl, none, some,
  List, [], ◌∷◌, ◌≡◌, arith, str_eq, str_eq_iff, ltb, if◌then◌else◌, Option-cases, Bool-cases, inl,
  inr, All,
}
use paya.Webhook.RateLimit.{RateData, RateLimitMap, rate_data, check_rate_limit}

-- A call of `checkRateLimit`: the webhook, its limit and the time.
pub record Check : Type 0 where
  pub id : String
  pub limit : ℕ
  pub now : ℕ

abbrev pub check : Check → RateLimitMap → Bool × RateLimitMap
check c m = check_rate_limit c.id c.limit c.now m

-- The calls for one webhook that are let through, of a list of calls for any webhooks.
abbrev pub passes : String → Check → Bool → ℕ
passes j c allowed = if allowed then (if str_eq c.id j then 1 else 0) else 0

unfoldable pub allowed : String → List Check → RateLimitMap → ℕ
allowed j [] m = 0
allowed j (c ∷ cs) m = passes j c (check c m).0 + allowed j cs (check c m).1

-- A call in the minute from `t` on which, if it is for the webhook `j`, has its limit.
abbrev pub Within : String → ℕ → ℕ → Check → Type 0
Within j limit t c = (t ≤ c.now) × (c.now ≤ t + 60000) × (str_eq c.id j ≡ true → c.limit ≡ limit)

-- How many more calls can be let through up to `t + 60000`.
abbrev room : ℕ → ℕ → Option RateData → ℕ
room limit t none = limit
room limit t (some d) = (limit - d.count) + (if ltb d.reset_time (t + 60000) then limit else 0)

check-room :
    (j : String) (limit t : ℕ) (c : Check) (m : RateLimitMap)
    → 0 < limit
    → Within j limit t c
    → passes j c (check c m).0 + room limit t ((check c m).1 j) ≤ room limit t (m j)
unfolding check_rate_limit rate_data
check-room j limit t c m pos (from, to, same) = elim (Bool-cases (str_eq c.id j)) [
  | inl mine ↦
      let id : c.id ≡ j = (str_eq_iff c.id j).0 mine in
      elim (Option-cases (m j)) [
        | inl fresh ↦ ground (arith, mine, id, fresh, same mine)
        | inr (d, found) ↦ ground (arith, mine, id, found, same mine)
      ]
  | inr other ↦ ground (arith, other)
]

allowed-room :
    (j : String) (limit t : ℕ) (cs : List Check) (m : RateLimitMap)
    → 0 < limit
    → All (Within j limit t) cs
    → allowed j cs m ≤ room limit t (m j)
unfolding allowed
allowed-room j limit t [] m pos h = omega arith
allowed-room j limit t (c ∷ cs) m pos (h, hs) =
    omega (arith, check-room j limit t c m pos h, allowed-room j limit t cs (check c m).1 pos hs)

room-le : (limit t : ℕ) (d : Option RateData) → room limit t d ≤ 2 * limit
room-le limit t none = ground arith
room-le limit t (some d) = ground arith

-- Of the calls in any one minute, whatever came before and whatever is called for other webhooks in
-- between, at most twice the limit of a webhook are let through, if its limit is not 0.
pub allowed-le :
    (j : String) (limit t : ℕ) (cs : List Check) (m : RateLimitMap)
    → 0 < limit
    → All (Within j limit t) cs
    → allowed j cs m ≤ 2 * limit
allowed-le j limit t cs m pos h =
    omega (arith, allowed-room j limit t cs m pos h, room-le limit t (m j))

unfoldable pub run_checks : List Check → RateLimitMap → RateLimitMap
run_checks [] m = m
run_checks (c ∷ cs) m = run_checks cs (check c m).1

-- `n` calls in a row.
unfoldable pub repeat : ℕ → Check → List Check
repeat zero c = []
repeat (suc n) c = c ∷ repeat n c

allowed-append :
    (j : String) (cs ds : List Check) (m : RateLimitMap)
    → allowed j (cs ++ ds) m ≡ allowed j cs m + allowed j ds (run_checks cs m)
unfolding allowed run_checks
allowed-append j [] ds m = omega arith
allowed-append j (c ∷ cs) ds m = omega (arith, allowed-append j cs ds (check c m).1)

-- A call in a window with room is let through and counted.
check-counts :
    (c : Check) (m : RateLimitMap) (count reset : ℕ)
    → m c.id ≡ some (record { count = count; reset_time = reset })
    → c.now ≤ reset
    → count < c.limit
    → ((check c m).0 ≡ true)
      × ((check c m).1 c.id ≡ some (record { count = count + 1; reset_time = reset }))
unfolding check_rate_limit rate_data
check-counts c m count reset found before free =
    (ground (arith, found), ground (arith, found, str_eq_iff c.id c.id))

-- So are `n` of them.
repeat-counts :
    (n : ℕ) (c : Check) (m : RateLimitMap) (count reset : ℕ)
    → m c.id ≡ some (record { count = count; reset_time = reset })
    → c.now ≤ reset
    → count + n ≤ c.limit
    → (allowed c.id (repeat n c) m ≡ n)
      × (run_checks (repeat n c) m c.id ≡ some (record { count = count + n; reset_time = reset }))
unfolding allowed run_checks repeat
repeat-counts zero c m count reset found before free = (refl, ground (arith, found))
repeat-counts (suc n) c m count reset found before free =
    let one = check-counts c m count reset found before (omega (arith, free)) in
    let rest =
      repeat-counts n c (check c m).1 (count + 1) reset one.1 before (omega (arith, free)) in
    (ground (arith, one.0, rest.0, str_eq_iff c.id c.id), ground (arith, rest.1))

-- A call that opens a window is let through and counted.
check-opens :
    (c : Check) (m : RateLimitMap)
    → (m c.id ≡ none) ⊎ ((d : RateData) × (m c.id ≡ some d) × (d.reset_time < c.now))
    → 0 < c.limit
    → ((check c m).0 ≡ true)
      × ((check c m).1 c.id ≡ some (record { count = 1; reset_time = c.now + 60000 }))
unfolding check_rate_limit rate_data
check-opens c m (inl fresh) pos =
    (ground (arith, fresh), ground (arith, fresh, str_eq_iff c.id c.id))
check-opens c m (inr (d, found, over)) pos =
    (ground (arith, found, over), ground (arith, found, over, str_eq_iff c.id c.id))

abbrev pub at : String → ℕ → ℕ → Check
at id limit now = record { id = id; limit = limit; now = now }

-- The bound is all but reached: after one call that opens a window, one less than the limit of calls
-- at its last millisecond and as many as the limit in the next one are all let through.
pub allowed-burst :
    (j : String) (n start : ℕ) (m : RateLimitMap)
    → m j ≡ none
    → let limit = suc n in
      allowed j
        (at j limit start ∷ repeat n (at j limit (start + 60000))
          ++ repeat limit (at j limit (start + 60001)))
        m
      ≡ 2 * limit
unfolding allowed run_checks repeat
allowed-burst j n start m fresh =
    let first = at j (suc n) start in
    let late = at j (suc n) (start + 60000) in
    let next = at j (suc n) (start + 60001) in
    let m1 = (check first m).1 in
    let m2 = run_checks (repeat n late) m1 in
    let opened = check-opens first m (inl fresh) (omega arith) in
    let filled = repeat-counts n late m1 1 (start + 60000) opened.1 (omega arith) (omega arith) in
    let reopened =
      check-opens next m2
        (inr (record { count = 1 + n; reset_time = start + 60000 }, filled.1, omega arith))
        (omega arith) in
    let refilled =
      repeat-counts n next (check next m2).1 1 (start + 60001 + 60000) reopened.1 (omega arith)
        (omega arith) in
    ground (
      arith,
      str_eq_iff j j,
      opened.0,
      filled.0,
      reopened.0,
      refilled.0,
      allowed-append j (repeat n late) (repeat (suc n) next) m1,
    )
