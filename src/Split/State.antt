-- ===== src/Split/State.antt =====
-- The reads and writes of `PaymentSplitService`, on the service's tables.
use Prim.Native.String.{◌++◌ as str_append}
use paya.Prelude.{String, Option, none, some, ◌∷◌}
use paya.Runtime.Action.{
  Action, Error, ok, err, not_found, query_failed, gets, or_throw, modify, ◌>>=◌,
}
use paya.Split.Types.{PaymentSplit, SplitDistribution, SplitMilestone, SplitAudit, Database, World}

-- `${kind} ${id} not found`
abbrev pub missing : String → String → Error
missing kind id = not_found (str_append kind (str_append " " (str_append id " not found")))

module _ {Num : Type 0} (db : Database Num) where
  abbrev pub find_split : String → Action (World db) (Option (PaymentSplit Num))
  find_split id = gets (λ w. db.splits.find_one id w.splits)

  -- `findOne` and the `NotFoundException` that follows it.
  abbrev pub get_split : String → Action (World db) (PaymentSplit Num)
  get_split id = do found ← find_split id; or_throw found (missing "Split" id)

  abbrev pub save_split : PaymentSplit Num → Action (World db) (Unit {0})
  save_split s = modify (λ w. record w { splits = db.splits.save s w.splits })

  abbrev pub insert_split : PaymentSplit Num → Action (World db) (Unit {0})
  insert_split s w = elim (db.splits.insert s w.splits) [
    | none ↦ (err query_failed, w)
    | some t ↦ (ok tt, record w { splits = t })
  ]

  abbrev pub get_distribution : String → Action (World db) (SplitDistribution Num)
  get_distribution id = do
    found ← gets (λ w. db.distributions.find_one id w.distributions)
    or_throw found (missing "Distribution" id)

  abbrev pub save_distribution : SplitDistribution Num → Action (World db) (Unit {0})
  save_distribution d =
      modify (λ w. record w { distributions = db.distributions.save d w.distributions })

  abbrev pub insert_distribution : SplitDistribution Num → Action (World db) (Unit {0})
  insert_distribution d w = elim (db.distributions.insert d w.distributions) [
    | none ↦ (err query_failed, w)
    | some t ↦ (ok tt, record w { distributions = t })
  ]

  abbrev pub get_milestone : String → String → Action (World db) (SplitMilestone Num)
  get_milestone split id = do
    found ← gets (λ w. db.milestones.find_one (split, id) w.milestones)
    or_throw found (missing "Milestone" id)

  abbrev pub save_milestone : SplitMilestone Num → Action (World db) (Unit {0})
  save_milestone m = modify (λ w. record w { milestones = db.milestones.save m w.milestones })

  abbrev pub insert_milestone : SplitMilestone Num → Action (World db) (Unit {0})
  insert_milestone m w = elim (db.milestones.insert m w.milestones) [
    | none ↦ (err query_failed, w)
    | some t ↦ (ok tt, record w { milestones = t })
  ]

  abbrev pub audit : SplitAudit Num → Action (World db) (Unit {0})
  audit a = modify (λ w. record w { audits = a ∷ w.audits })
