-- ===== src/Subscription/Periods/Histories.antt =====
-- The invoices for periods over whole lists of requests.
use paya.Prelude.{◌≤◌, some, List, [], ◌∷◌, ◌≡◌, get_or}
use paya.Runtime.Calendar.{Calendar}
use paya.Runtime.Number.{Number}
use paya.Subscription.Types.{Subscription, Database, World}
use paya.Subscription.Calls.{Call, run, run_all}
use paya.Subscription.Periods.{find, Lawful, Lawful-of_Quiet}
use paya.Subscription.Periods.Soundness.{Sound, Sound-Lawful}
use paya.Subscription.Periods.Handlers.{success-Quiet, cancel-Quiet, pause-Quiet, failure-Quiet}
use paya.Subscription.Periods.Beginnings.{resume-Quiet, trial_end-Quiet, create-Quiet}
use paya.Subscription.Periods.Invoicing.{process-Lawful}
use paya.Subscription.Periods.PlanChanges.{update-Lawful}

module _ (num : Number) (calendar : Calendar) (db : Database num.Num) where
  open num use {Num}

  -- A request that begins a new period by a date of its own does so no earlier than the current
  -- period begins.
  abbrev pub Forward : Call → World db → Type 0
  Forward (Call.resume id merchant at now later) w =
      (s : Subscription Num) → find db id w ≡ some s → s.current_period_start ≤ get_or at now
  Forward (Call.trial_end id now later) w =
      (s : Subscription Num)
      → find db id w ≡ some s
      → s.current_period_start ≤ get_or s.trial_end now
  Forward _ w = Unit

  abbrev pub Forwards : List Call → World db → Type 0
  Forwards [] w = Unit
  Forwards (c ∷ cs) w = Forward c w × Forwards cs (run num calendar db c w)

  run-Lawful : (c : Call) (w : World db) → Forward c w → Lawful db w (run num calendar db c w)
  unfolding run
  run-Lawful (Call.create merchant dto uuid now later) w f =
      Lawful-of_Quiet db w _ (create-Quiet db calendar merchant dto uuid now later w)
  run-Lawful (Call.update id merchant dto change) w f =
      update-Lawful num db id merchant dto change w
  run-Lawful (Call.cancel id merchant at_period_end now) w f =
      Lawful-of_Quiet db w _ (cancel-Quiet db id merchant at_period_end now w)
  run-Lawful (Call.pause id merchant at now later) w f =
      Lawful-of_Quiet db w _ (pause-Quiet db id merchant at now later w)
  run-Lawful (Call.resume id merchant at now later) w f =
      Lawful-of_Quiet db w _ (resume-Quiet db calendar id merchant at now later w f)
  run-Lawful (Call.pay id uuid now) w f = process-Lawful db calendar id uuid now w
  run-Lawful (Call.trial_end id now later) w f =
      Lawful-of_Quiet db w _ (trial_end-Quiet db calendar id now later w f)
  run-Lawful (Call.failure id now) w f = Lawful-of_Quiet db w _ (failure-Quiet db id now w)
  run-Lawful (Call.success id now) w f = Lawful-of_Quiet db w _ (success-Quiet db id now w)

  -- Take a list of requests and jobs, failed ones included, in which no resumption and no end of a
  -- trial moves the start of a period back, and a state in which the period of each subscription is in
  -- order and ends with its next payment, each invoice for a period is for one that ended by the start
  -- of the current one, and two invoices for periods of one subscription do not overlap. All this
  -- holds after the list too, so that no time is billed twice.
  pub run_all-Sound :
      (cs : List Call) (w : World db)
      → Sound db w
      → Forwards cs w
      → Sound db (run_all num calendar db cs w)
  unfolding run_all
  run_all-Sound [] w sound forwards = sound
  run_all-Sound (c ∷ cs) w sound forwards =
      run_all-Sound cs (run num calendar db c w)
        (Sound-Lawful db w (run num calendar db c w) sound (run-Lawful c w forwards.0)) forwards.1
