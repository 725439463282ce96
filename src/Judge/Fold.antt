-- ===== src/Judge/Fold.antt =====
-- The judged result (`judgedResult`, `judgedProfileVerdict` of packages/core/src/judge.ts): the
-- executed result with the judge's criteria and verdict folded in.
use qare.Prelude.{
  String, Bool, true, false, ◌&&◌, Option, none, some, List, [], map, filter, any, all, has, lookup,
  index, is_empty, get_or, if◌then◌else◌,
}
use mathlib.Core.Option
use qare.Result.{
  CriterionOutcome, proven, failed, unverified, is_failed, is_unverified, BaseOutcome, base_failed,
  CriterionBase, A11yCounts, Finding, was_proven, was_failed, was_unverified, CriterionResult,
  outcome_of, reason_of, RunProfileSummary, RunResult, Waiver,
}
use qare.Result.Verdict.{RunVerdict, passed, blocked, waived}
use qare.Judge.Run.{CriterionVerdict}

is_base_failed : BaseOutcome → Bool
is_base_failed base_failed = true
is_base_failed _ = false

is_passed : RunVerdict → Bool
is_passed passed = true
is_passed _ = false

unfoldable pub judged_profile_verdict :
    RunVerdict → List CriterionVerdict → List String → RunVerdict
unfolding is_passed
judged_profile_verdict original subset waived_ids =
    let unverified_criteria = filter (λ (c : CriterionVerdict). is_unverified c.outcome) subset in
    if any (λ c. is_failed c.outcome) subset
    then RunVerdict.failed
    else if is_passed original
    then (if is_empty unverified_criteria
        then passed
        else if all (λ c. has waived_ids c.criterion_id) unverified_criteria
        then waived
        else blocked)
    else original

-- `before?.…`: what the executed result held for the criterion.
abbrev before_base : Option CriterionResult → Option CriterionBase
before_base none = none
before_base (some before) = before.base

abbrev before_a11y : Option CriterionResult → Option A11yCounts
before_a11y none = none
before_a11y (some before) = before.a11y

abbrev before_failed : Option CriterionResult → Bool
before_failed none = false
before_failed (some before) = is_failed (outcome_of before.finding)

abbrev before_reason : Option CriterionResult → Option String
before_reason none = none
before_reason (some before) = reason_of before.finding

-- The regression flag of `sidesOf`, which is set only beside a base.
unfoldable pub flag_of :
    List String → CriterionVerdict → Option CriterionResult → Option CriterionBase → Option Bool
unfolding is_base_failed
flag_of regressed c before none = none
flag_of regressed c before (some base) =
    if has regressed c.criterion_id
    then some true
    else if is_failed c.outcome && before_failed before && is_base_failed base.outcome
    then some false
    else none

-- The criterion's outcome with what it carries: evidence from the run, and the reason that says why.
unfoldable pub finding_of :
    CriterionOutcome → String → List String → Option CriterionResult → Finding
finding_of proven reason evidence before = was_proven evidence
finding_of failed reason evidence before =
    was_failed evidence (if before_failed before then before_reason before else some reason)
finding_of unverified reason evidence before =
    was_unverified reason (if is_empty evidence then none else some evidence)

unfoldable pub judged_criterion :
    List String → CriterionVerdict → List String → Option CriterionResult → CriterionResult
unfolding flag_of finding_of
judged_criterion regressed c evidence before = record {
  id = c.criterion_id;
  finding = finding_of c.outcome c.reason evidence before;
  base = before_base before;
  regression = flag_of regressed c before (before_base before);
  a11y = before_a11y before;
  mail = none;
  repairs = none;
  cached = false;
}

unfoldable pub judged_profile :
    List CriterionVerdict → List String → RunProfileSummary → RunProfileSummary
unfolding judged_profile_verdict
judged_profile criteria waived_ids profile = record profile {
  verdict =
      judged_profile_verdict profile.verdict
        (filter (λ (c : CriterionVerdict). has profile.criteria c.criterion_id) criteria)
        waived_ids;
}

abbrev pub waived_ids_of : Option (List Waiver) → List String
waived_ids_of waivers = map (λ (w : Waiver). w.criterion_id) (get_or waivers [])

abbrev pub executed_by_id : List CriterionResult → List (String × CriterionResult)
executed_by_id = index (λ c. c.id) (λ c. c)

unfoldable pub judged_result :
    RunResult
    → RunVerdict
    → List CriterionVerdict
    → List (String × List String)
    → List String
    → RunResult
unfolding judged_criterion judged_profile
judged_result loaded verdict criteria evidence_by_id regressed = record {
  schema_version = "1";
  verdict = verdict;
  criteria =
      map
        (λ c.
          judged_criterion regressed c (get_or (lookup c.criterion_id evidence_by_id) [])
            (lookup c.criterion_id (executed_by_id loaded.criteria)))
        criteria;
  job = loaded.job;
  waived = loaded.waived;
  target = loaded.target;
  client = none;
  base = loaded.base;
  environment = loaded.environment;
  profiles =
      Option.map (map (judged_profile criteria (waived_ids_of loaded.waived))) loaded.profiles;
  requirements = none;
  started_at = loaded.started_at;
  finished_at = loaded.finished_at;
  judge_usage = loaded.judge_usage;
  advisory = none;
}
