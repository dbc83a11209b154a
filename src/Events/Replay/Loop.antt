-- ===== src/Events/Replay/Loop.antt =====
-- The loop of a replay over batches handles the same events as one pass over all of them.
use mathlib.Core.Path.{fun_ext}
use paya.Prelude.{
  ◌*◌, Spaced, Spaced-keep, Strict-of_Spaced, keep-after, ℕ, zero, suc, ◌+◌, ◌≤◌, ◌<◌, Bool, true,
  not, Option, none, some, List, [], ◌∷◌, ◌++◌, ◌≡◌, refl, ap, sym, ◌∙◌, arith, length, keep,
  if◌then◌else◌, take, drop, from, Strict, Strict-keep, keep-from_from, take-append-drop,
  length-drop-le, Bool-cases, inl, inr, subst, List-cases, length-keep-le,
}
use paya.Events.Types.{EventRecord}
use paya.Events.Read.{starting}
use paya.Events.Replay.{Progress, Handler, beyond, handle_one, run_batch, last, replay_loop}

module _ {Payload S : Type 0} (handler : Handler Payload S) where
  -- One pass over the events.
  unfoldable pub handle_all : List (EventRecord Payload) → Progress Payload S → Progress Payload S
  handle_all [] p = p
  handle_all (e ∷ es) p = handle_all es (handle_one handler e p)

-- Not beyond the end of a replay.
abbrev pub within :
    {Payload : Type 0} → (EventRecord Payload → ℕ) → Option ℕ → EventRecord Payload → Bool
within key to e = not (beyond to (key e))

module _ {Payload S : Type 0} (handler : Handler Payload S) (key : EventRecord Payload → ℕ) where
  run_batch-append :
      (to : Option ℕ) (xs ys : List (EventRecord Payload)) (p : Progress Payload S)
      → run_batch handler key to (xs ++ ys) p ≡ (
          if (run_batch handler key to xs p).1
          then run_batch handler key to ys (run_batch handler key to xs p).0
          else (run_batch handler key to xs p))
  unfolding run_batch
  run_batch-append to [] ys p = refl
  run_batch-append to (e ∷ es) ys p = elim (Bool-cases (beyond to (key e))) [
    | inl over ↦ rw over refl
    | inr near ↦ rw near (run_batch-append to es ys (handle_one handler e p))
  ]

  none_within :
      (to : Option ℕ) (b : ℕ) (xs : List (EventRecord Payload))
      → beyond to b ≡ true
      → Strict key b xs
      → keep (within key to) xs ≡ []
  none_within to b [] h s = refl
  none_within (some t) b (x ∷ xs) h s = ground (arith, h, s, none_within (some t) (key x) xs)
  none_within none b (x ∷ xs) h s = cc

  -- A pass that stops at the first event beyond the end handles the events that are not beyond it.
  run_batch_lem :
      (to : Option ℕ) (b : ℕ) (xs : List (EventRecord Payload)) (p : Progress Payload S)
      → Strict key b xs
      → (run_batch handler key to xs p).0 ≡ handle_all handler (keep (within key to) xs) p
  unfolding run_batch handle_all
  run_batch_lem to b [] p s = refl
  run_batch_lem to b (x ∷ xs) p s = elim (Bool-cases (beyond to (key x))) [
    | inl over ↦ rw (over, none_within to (key x) xs over s.1) refl
    | inr near ↦ rw near (run_batch_lem to (key x) xs (handle_one handler x p) s.1)
  ]

  last-le :
      (m b : ℕ) (x : EventRecord Payload) (xs : List (EventRecord Payload))
      → Strict key b (x ∷ xs)
      → key x ≤ key (last handler key x (take m xs))
  last-le zero b x xs s = omega arith
  last-le (suc m) b x [] s = omega arith
  last-le (suc m) b x (y ∷ ys) s = omega (arith, s, last-le m (key x) y ys s.1)

  -- What the next read takes after the last event of a batch is what follows the batch.
  keep-last :
      (m b : ℕ) (x : EventRecord Payload) (xs : List (EventRecord Payload))
      → Spaced key b (x ∷ xs)
      → keep (from key (10 * key (last handler key x (take m xs)) + 1)) (x ∷ xs) ≡ drop m xs
  keep-last zero b x xs s = ground (arith, keep-after key (key x) xs s.1)
  keep-last (suc m) b x [] s = ground arith
  keep-last (suc m) b x (y ∷ ys) s = ground (
    arith,
    s,
    last-le m (key x) y ys (Strict-of_Spaced key (key x) (y ∷ ys) s.1),
    keep-last m (key x) y ys s.1,
  )

  first-from :
      (v : ℕ) (x : EventRecord Payload) (xs ys : List (EventRecord Payload))
      → keep (from key v) ys ≡ x ∷ xs
      → v ≤ key x
  first-from v x xs [] e = cc
  first-from v x xs (y ∷ ys) e = ground (arith, e, first-from v x xs ys)

  -- The events after a batch.
  next-starting :
      (m : ℕ) (at : Option ℕ) (x : EventRecord Payload) (xs all : List (EventRecord Payload))
      → Spaced key 0 all
      → starting key at all ≡ x ∷ xs
      → starting key (some (10 * key (last handler key x (take m xs)) + 1)) all ≡ drop m xs
  next-starting m none x xs all s e =
      ap (keep (from key (10 * key (last handler key x (take m xs)) + 1))) e
      ∙ keep-last m 0 x xs (subst (Spaced key 0) e s)
  next-starting m (some v) x xs all s e =
      let above : Spaced key 0 (x ∷ xs) =
        subst (Spaced key 0) e (Spaced-keep key (from key v) 0 all s) in
      let strict = Strict-of_Spaced key 0 (x ∷ xs) above in
      let k = 10 * key (last handler key x (take m xs)) + 1 in
      sym (
        keep-from_from key v k all
          (omega (arith, first-from v x xs all e, last-le m 0 x xs strict)))
      ∙ (ap (keep (from key k)) e ∙ keep-last m 0 x xs above)

  run_batch_nil : (to : Option ℕ) (p : Progress Payload S) → (run_batch handler key to [] p).0 ≡ p
  unfolding run_batch
  run_batch_nil to p = refl

  -- The loop over batches of `suc m` events, with fuel for one round more than there are events.
  pub replay_loop_lem :
      (m : ℕ) (to : Option ℕ) (all : List (EventRecord Payload)) (fuel : ℕ) (at : Option ℕ)
      (p : Progress Payload S)
      → Spaced key 0 all
      → length (starting key at all) < fuel
      → replay_loop handler key (λ v. take (suc m) (starting key v all)) to fuel at p
        ≡ some (run_batch handler key to (starting key at all) p).0
  unfolding replay_loop
  replay_loop_lem m to all zero at p s h = absurd (omega (arith, h))
  replay_loop_lem m to all (suc fuel) at p s h = elim (List-cases (starting key at all)) [
    | inl e ↦ rw (e, replay_loop) (ap some (sym (run_batch_nil to p)))
    | inr (y, ys, e) ↦
        let batch = run_batch handler key to (y ∷ take m ys) p in
        let next = some (10 * key (last handler key y (take m ys)) + 1) in
        let rest : starting key next all ≡ drop m ys = next-starting m at y ys all s e in
        let whole : run_batch handler key to (y ∷ ys) p
            ≡ (if batch.1 then run_batch handler key to (drop m ys) batch.0 else batch) =
          ap (λ zs. run_batch handler key to (y ∷ zs) p) (sym (take-append-drop m ys))
          ∙ run_batch-append to (y ∷ take m ys) (drop m ys) p in
        let again =
          replay_loop_lem m to all fuel next batch.0 s
            (omega (arith, ap length rest, ap length e, length-drop-le m ys, h)) in
        elim (Bool-cases batch.1) [
          | inl more ↦ rw (e, replay_loop) (ground (arith, more, whole, again, rest))
          | inr done ↦ rw (e, replay_loop) (ground (arith, done, whole))
        ]
  ]

  length-starting-le :
      (at : Option ℕ) (xs : List (EventRecord Payload)) → length (starting key at xs) ≤ length xs
  length-starting-le none xs = omega arith
  length-starting-le (some v) xs = length-keep-le (from key v) xs

  Strict-starting :
      (at : Option ℕ) (xs : List (EventRecord Payload))
      → Strict key 0 xs
      → Strict key 0 (starting key at xs)
  Strict-starting none xs s = s
  Strict-starting (some v) xs s = Strict-keep key (from key v) 0 xs s

  -- A loop that reads batches of the events `all` handles those from `at` on that are not beyond the
  -- end, each once and in order.
  pub replay_loop-handle_all :
      (read : Option ℕ → List (EventRecord Payload)) (batch m : ℕ) (to : Option ℕ)
      (all : List (EventRecord Payload)) (fuel : ℕ) (at : Option ℕ) (p : Progress Payload S)
      → batch ≡ suc m
      → ((v : Option ℕ) → read v ≡ take batch (starting key v all))
      → Spaced key 0 all
      → length all < fuel
      → replay_loop handler key read to fuel at p
        ≡ some (handle_all handler (keep (within key to) (starting key at all)) p)
  replay_loop-handle_all read batch m to all fuel at p size reads s enough =
      ap (λ f. replay_loop handler key f to fuel at p)
        (fun_ext (λ v. reads v ∙ ap (λ n. take n (starting key v all)) size))
      ∙ (replay_loop_lem m to all fuel at p s (omega (arith, length-starting-le at all, enough))
          ∙ ap some (
              run_batch_lem to 0 (starting key at all) p
                (Strict-starting at all (Strict-of_Spaced key 0 all s))))
