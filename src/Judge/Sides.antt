-- ===== src/Judge/Sides.antt =====
-- The two sides that the judge compares (`SideResult`, `toSideResults`, `toBaseSideResults`) and the
-- regressions between them (`detectRegressions`) of packages/core/src/judge.ts.
use qare.Prelude.{
  String, ◌&&◌, Option, none, some, List, map, filter_map, lookup, index, if◌then◌else◌, ◌≡◌, refl,
}
use qare.Result.{
  CriterionOutcome, proven, failed, unverified, is_proven, is_failed, base_proven, base_failed,
  not_compared, CriterionBase, Finding, was_proven, was_failed, was_unverified, CriterionResult,
  outcome_of,
}

pub record SideResult : Type 0 where
  pub criterion_id : String
  pub outcome : CriterionOutcome
  pub detail : Option String

-- `base: 'proven'` and `head: 'failed'` of the interface are the only values it has.
pub record Regression : Type 0 where
  pub criterion_id : String
  pub base_detail : Option String
  pub head_detail : Option String

-- A round of the loop over the head, with the base side found under the criterion's id.
regression_of : SideResult → Option SideResult → Option Regression
regression_of head_side none = none
regression_of head_side (some base_side) =
    if is_proven base_side.outcome && is_failed head_side.outcome
    then some (record {
      criterion_id = head_side.criterion_id;
      base_detail = base_side.detail;
      head_detail = head_side.detail;
    })
    else none

abbrev pub base_by_id : List SideResult → List (String × SideResult)
base_by_id = index (λ s. s.criterion_id) (λ s. s)

unfoldable pub detect_regressions : List SideResult → List SideResult → List Regression
unfolding regression_of
detect_regressions base head =
    filter_map (λ s. regression_of s (lookup s.criterion_id (base_by_id base))) head

unfoldable pub side_of : String → Finding → SideResult
side_of id (was_unverified reason evidence) = record {
  criterion_id = id;
  outcome = unverified;
  detail = some reason;
}
side_of id (was_proven evidence) = record { criterion_id = id; outcome = proven; detail = none }
side_of id (was_failed evidence reason) = record {
  criterion_id = id;
  outcome = failed;
  detail = none;
}

unfoldable pub to_side_results : List CriterionResult → List SideResult
to_side_results criteria = map (λ c. side_of c.id c.finding) criteria

pub outcome-side_of : (id : String) (f : Finding) → (side_of id f).outcome ≡ outcome_of f
unfolding side_of
outcome-side_of id (was_proven evidence) = refl
outcome-side_of id (was_failed evidence reason) = refl
outcome-side_of id (was_unverified reason evidence) = refl

pub criterion_id-side_of : (id : String) (f : Finding) → (side_of id f).criterion_id ≡ id
unfolding side_of
criterion_id-side_of id (was_proven evidence) = refl
criterion_id-side_of id (was_failed evidence reason) = refl
criterion_id-side_of id (was_unverified reason evidence) = refl

-- The base side of one criterion: what its executed checks decided there, if they decided anything.
base_side_of : String → Option CriterionBase → Option SideResult
base_side_of id none = none
base_side_of id (some base) = elim base.outcome [
  | base_proven ↦ some (record { criterion_id = id; outcome = proven; detail = none })
  | base_failed ↦ some (record { criterion_id = id; outcome = failed; detail = none })
  | not_compared ↦ none
]

unfoldable pub to_base_side_results : List CriterionResult → List SideResult
unfolding base_side_of
to_base_side_results criteria = filter_map (λ c. base_side_of c.id c.base) criteria
