-- ===== src/Judge/Run.antt =====
-- `judgeRun` and `verdictOf` of packages/core/src/judge.ts: criterion verdicts and the run verdict.
pub mod Decision
use qare.Prelude.{
  String, Bool, true, false, ◌||◌, Option, none, some, List, [], ◌++◌, map, filter, filter_map, any,
  all, is_empty, not, has, get_or, if◌then◌else◌, ◌∷◌,
}
use qare.Result.{CriterionOutcome, proven, failed, unverified, is_failed, is_unverified}
use qare.Result.Verdict.{RunVerdict, passed, blocked, waived, verdict_text, merge_verdicts}
use qare.Judge.Sides.{SideResult, Regression, detect_regressions}

pub record CriterionVerdict : Type 0 where
  pub criterion_id : String
  pub outcome : CriterionOutcome
  pub regression : Bool
  pub reason : String

unfoldable pub verdict_of : List CriterionVerdict → List Regression → List String → RunVerdict
verdict_of criteria regressions waived_ids =
    let unverified_criteria = filter (λ (c : CriterionVerdict). is_unverified c.outcome) criteria in
    if not (is_empty regressions) || any (λ c. is_failed c.outcome) criteria
    then RunVerdict.failed
    else if is_empty criteria
    then blocked
    else if is_empty unverified_criteria
    then passed
    else if all (λ c. has waived_ids c.criterion_id) unverified_criteria
    then waived
    else blocked

-- The switch on the outcome of a head side that is neither waived nor regressed.
head_reason : CriterionOutcome → String
head_reason proven = "proven at head"
head_reason failed = "failed at head"
head_reason unverified = "unverified at head"

unfoldable pub head_verdict : List String → List String → SideResult → CriterionVerdict
unfolding head_reason
head_verdict waived_ids regressed head_side =
    let id = head_side.criterion_id in
    let is_regressed = has regressed id in
    if has waived_ids id
    then (record {
      criterion_id = id;
      outcome = unverified;
      regression = is_regressed;
      reason = "waived by human";
    })
    else if is_regressed
    then (record {
      criterion_id = id;
      outcome = failed;
      regression = true;
      reason = get_or head_side.detail "proven at base, failed at head";
    })
    else (record {
      criterion_id = id;
      outcome = head_side.outcome;
      regression = false;
      reason = get_or head_side.detail (head_reason head_side.outcome);
    })

-- A criterion that only the base has.
unfoldable pub base_verdict : List String → List String → SideResult → Option CriterionVerdict
base_verdict head_ids waived_ids base_side =
    let id = base_side.criterion_id in
    if has head_ids id
    then none
    else some (record {
      criterion_id = id;
      outcome = unverified;
      regression = false;
      reason = if has waived_ids id then "waived by human" else "not executed at head";
    })

pub record JudgeRunResult : Type 0 where
  pub criteria : List CriterionVerdict
  pub regressions : List Regression
  pub verdict : RunVerdict

abbrev pub ids_of : List SideResult → List String
ids_of = map (λ s. s.criterion_id)

abbrev pub regressed_ids : List Regression → List String
regressed_ids = map (λ r. r.criterion_id)

unfoldable pub criteria_of :
    List SideResult → List SideResult → List String → List String → List CriterionVerdict
criteria_of base head waived_ids regressed =
    map (head_verdict waived_ids regressed) head
    ++ filter_map (base_verdict (ids_of head) waived_ids) base

-- `egress_refused` is `input.egressVerdict === 'refused'`.
unfoldable pub judge_run : List SideResult → List SideResult → List String → Bool → JudgeRunResult
judge_run base head waived_ids egress_refused =
    let regressions = detect_regressions base head in
    let criteria = criteria_of base head waived_ids (regressed_ids regressions) in
    let derived = verdict_of criteria regressions waived_ids in
    record {
      criteria = criteria;
      regressions = regressions;
      verdict =
          if egress_refused
          then merge_verdicts (verdict_text derived ∷ "refused" ∷ [])
          else derived;
    }
