-- ===== src/Judge/Executed.antt =====
-- `judgeExecuted` of packages/core/src/judge.ts: the one path from an executed result to the judged
-- verdict, with or without a verifier.
pub mod Monotone
use qare.Prelude.{
  ℕ, zero, suc, String, Bool, true, false, not, Option, none, some, List, [], ◌∷◌, map, index,
  if◌then◌else◌,
}
use qare.Json.{Json}
use qare.Result.{
  CriterionOutcome, same_outcome, Finding, evidence_of, CriterionResult, ModelUsage, RunResult,
}
use qare.Result.Verdict.{RunVerdict, refused, is_refused}
use qare.Judge.Sides.{to_side_results, to_base_side_results}
use qare.Judge.Run.{CriterionVerdict, JudgeRunResult, judge_run, verdict_of, regressed_ids}
use qare.Judge.Claims.{VerifierClaim, VerifierInputs, prepare_verifier_inputs, verifier_evidence}
use qare.Judge.Turns.{Turn, Progress, Environment, run_verifier}
use qare.Judge.Fold.{judged_result, waived_ids_of}
use qare.Redact.{redact_result}

-- `outcome !== judged.criteria[index]?.outcome`, criterion by criterion.
unfoldable pub changed_criteria :
    List CriterionVerdict → List CriterionVerdict → List CriterionVerdict
changed_criteria (c ∷ cs) (d ∷ ds) =
    if same_outcome d.outcome c.outcome then changed_criteria cs ds else d ∷ changed_criteria cs ds
changed_criteria [] ds = ds
changed_criteria (c ∷ cs) [] = []

pub record Judgement : Type 0 where
  pub result : RunResult
  pub changed : List CriterionVerdict
  pub judge_usage : Option ModelUsage

-- What the verifier spent rides the judged result.
with_usage : Option ModelUsage → RunResult → RunResult
with_usage none result = result
with_usage (some usage) result = record result { judge_usage = some usage }

-- A verifier: what `JSON.parse` makes of its answers, what its calls come to, and what it reads from
-- the environment.
pub record Verifier : Type 0 where
  pub json_parse : String → Option Json
  pub ask : ℕ → List VerifierClaim → Turn
  pub environment : Environment

abbrev pub judged_sides : RunResult → JudgeRunResult
judged_sides executed =
    judge_run (to_base_side_results executed.criteria) (to_side_results executed.criteria)
      (waived_ids_of executed.waived) false

abbrev pub evidence_by_id : List CriterionResult → List (String × List String)
evidence_by_id = index (λ c. c.id) (λ c. evidence_of c.finding)

module _ (texts : List (String × String)) (diff : String) where
  unfoldable pub verify : Option Verifier → RunResult → List CriterionVerdict → Progress
  verify none executed criteria = record { verdicts = criteria; usage = none }
  verify (some v) executed criteria =
      if is_refused executed.verdict
      then (record { verdicts = criteria; usage = none })
      else run_verifier v.json_parse v.ask v.environment
          (prepare_verifier_inputs criteria texts
            (map (λ (id, evidence). (id, verifier_evidence evidence))
              (evidence_by_id executed.criteria))
            diff)
          none

  -- The run verdict after the verifier: a refused run stays refused.
  unfoldable pub executed_verdict : RunResult → List CriterionVerdict → RunVerdict
  executed_verdict executed criteria =
      if is_refused executed.verdict
      then refused
      else verdict_of criteria (judged_sides executed).regressions (waived_ids_of executed.waived)

  module _ (sweep : String → String) (sweep_advisory : Json → Json) where
    unfoldable pub judge_executed : Option Verifier → RunResult → Judgement
    unfolding verify executed_verdict with_usage
    judge_executed verifier executed =
        let judged = judged_sides executed in
        let verified = verify verifier executed judged.criteria in
        let result = redact_result sweep sweep_advisory (
          judged_result executed (executed_verdict executed verified.verdicts) verified.verdicts
            (evidence_by_id executed.criteria) (regressed_ids judged.regressions)) in
        record {
          result = with_usage verified.usage result;
          changed = changed_criteria judged.criteria verified.verdicts;
          judge_usage = verified.usage;
        }
