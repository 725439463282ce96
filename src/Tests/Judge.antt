-- ===== src/Tests/Judge.antt =====
-- The judge at concrete runs (packages/core/test/judge.test.ts has such runs).
use qare.Prelude.{
  ℕ, String, Bool, true, false, ◌&&◌, not, Option, none, some, List, [], ◌∷◌, any, all, has,
  is_empty, ◌≡◌, ◌↔◌, refl, get_elem?, lookup, index, insert,
}
use qare.Json.{Json, arr, nil}
use qare.Result.{
  CriterionOutcome, proven, failed, is_proven, is_failed, Finding, was_proven, was_failed,
  CriterionResult, RunResult,
}
use qare.Result.Verdict.{RunVerdict, passed, refused}
use qare.Judge.Sides.{SideResult, detect_regressions}
use qare.Judge.Run.{
  CriterionVerdict, judge_run, verdict_of, criteria_of, head_verdict, base_verdict, ids_of,
}
use qare.Judge.Run.Decision.{
  fails_run, passes_run, judge_run-failed_iff, judge_run-passed_iff, judge_run-refused_iff,
}
use qare.Judge.Claims.{VerifierClaim, VerifierInputs, prepare_verifier_inputs}
use qare.Judge.Findings.{
  VerifierFinding, Trusted, consume_one, consume_verifier_findings, first_finding,
}
use qare.Judge.Findings.Downgrade.{
  AreDowngrades, IsCitation, consume_verifier_findings-AreDowngrades, consume_one-failed,
}
use qare.Judge.Turns.{Turn, threw, replied, Reply, Environment, run_verifier, asked_ids}
use qare.Judge.Turns.FailClosed.{IsAnswered, run_verifier-AreDowngrades, run_verifier-IsAnswered}
use qare.Judge.Executed.{Verifier, judge_executed}
use qare.Judge.Executed.Monotone.{
  all_proven, all_proven_unwaived, judge_executed-passed, judge_executed-failed,
}

abbrev side : String → CriterionOutcome → SideResult
side id outcome = record { criterion_id = id; outcome = outcome; detail = none }

abbrev base_sides : List SideResult
base_sides = side "login" proven ∷ side "search" proven ∷ []

abbrev regressed_head : List SideResult
regressed_head = side "login" failed ∷ side "search" proven ∷ []

judge_run_regressed :
    (judge_run base_sides regressed_head ("login" ∷ []) false).verdict ≡ RunVerdict.failed
unfolding judge_run detect_regressions criteria_of head_verdict base_verdict verdict_of has lookup
    index insert
judge_run_regressed = refl

judge_run-failed_iff_example :
    ((judge_run base_sides regressed_head ("login" ∷ []) false).verdict ≡ RunVerdict.failed) ↔ (
      (◌≡◌ {A = Bool} false false)
      × (any (fails_run base_sides ("login" ∷ [])) regressed_head ≡ true))
judge_run-failed_iff_example = judge_run-failed_iff base_sides regressed_head ("login" ∷ []) false

judge_run-passed_iff_example : ((judge_run base_sides base_sides [] false).verdict ≡ passed) ↔ (
    (◌≡◌ {A = Bool} false false)
    × (is_empty base_sides ≡ false)
    × (all (passes_run []) base_sides ≡ true)
    × (all (λ (b : SideResult). has (ids_of base_sides) b.criterion_id) base_sides ≡ true))
judge_run-passed_iff_example = judge_run-passed_iff base_sides base_sides [] false

judge_run-refused_iff_example :
    ((judge_run base_sides base_sides [] true).verdict ≡ refused) ↔ (◌≡◌ {A = Bool} true true)
judge_run-refused_iff_example = judge_run-refused_iff base_sides base_sides [] true

abbrev verdict : String → CriterionOutcome → CriterionVerdict
verdict id outcome = record {
  criterion_id = id;
  outcome = outcome;
  regression = false;
  reason = "as executed";
}

abbrev claim : VerifierClaim
claim = record { criterion_id = "login"; text = "signing in works"; evidence = "log.txt" ∷ [] }

abbrev trusted : Trusted
trusted = record { claims = claim ∷ []; diff = "" }

abbrev contradiction : VerifierFinding
contradiction = record {
  criterion_id = "login";
  problem = "an error page";
  kind = some (Json.text "contradicted");
  evidence = some (Json.text "log.txt");
}

consume_verifier_findings-AreDowngrades_example :
    AreDowngrades
      (verdict "login" proven ∷ [])
      (consume_verifier_findings (verdict "login" proven ∷ []) (contradiction ∷ []) trusted)
consume_verifier_findings-AreDowngrades_example =
    consume_verifier_findings-AreDowngrades (verdict "login" proven ∷ []) (contradiction ∷ [])
      trusted

consume_one-failed_example :
    (is_failed (consume_one (contradiction ∷ []) trusted (verdict "login" proven)).outcome ≡ true)
    ↔ ((f : VerifierFinding) × (shown_by : String) × (first_finding (contradiction ∷ []) "login"
          ≡ some f)
        × (is_proven proven ≡ true)
        × IsCitation trusted f shown_by)
consume_one-failed_example =
    consume_one-failed (contradiction ∷ []) trusted (verdict "login" proven) refl

contradicted_fails :
    is_failed (consume_one (contradiction ∷ []) trusted (verdict "login" proven)).outcome ≡ true
unfolding consume_one qare.Judge.Findings.downgraded qare.Judge.Findings.cites has
contradicted_fails = refl

-- A model that answers every turn with an empty list of findings.
abbrev agreeable : ℕ → List VerifierClaim → Turn
agreeable n claims = replied (record {
  is_completed = true;
  stop_reason = "end_turn";
  usage = record { input_tokens = 5; output_tokens = 7 };
  output = some "[]";
  error = none;
})

abbrev parses_list : String → Option Json
parses_list s = some (arr nil)

abbrev default_environment : Environment
default_environment = record { max_output_tokens = none; verify_batch_size = none }

abbrev inputs : VerifierInputs
inputs = record {
  criteria = verdict "login" proven ∷ [];
  claims = claim ∷ [];
  diff = "";
  batch_size = none;
}

run_verifier-AreDowngrades_example :
    AreDowngrades inputs.criteria
      (run_verifier parses_list agreeable default_environment inputs none).verdicts
run_verifier-AreDowngrades_example =
    run_verifier-AreDowngrades parses_list agreeable default_environment inputs none

still_proven :
    get_elem? (run_verifier parses_list agreeable default_environment inputs none).verdicts 0
    ≡ some (verdict "login" proven)
unfolding run_verifier qare.Judge.Turns.verify_loop qare.Judge.Turns.verify_batch
    qare.Judge.Claims.output_budget qare.Judge.Claims.verify_batch_size
    qare.Judge.Findings.parse_verifier_findings consume_verifier_findings has
still_proven = refl

run_verifier-IsAnswered_example : IsAnswered parses_list agreeable "login"
run_verifier-IsAnswered_example =
    run_verifier-IsAnswered parses_list agreeable default_environment inputs none 0
      (verdict "login" proven) still_proven (unfold has in refl) refl

abbrev executed_criterion : Finding → CriterionResult
executed_criterion finding = record {
  id = "login";
  finding = finding;
  base = none;
  regression = none;
  a11y = none;
  mail = none;
  repairs = none;
  cached = false;
}

abbrev executed_run : Finding → RunResult
executed_run finding = record {
  schema_version = "1";
  verdict = passed;
  criteria = executed_criterion finding ∷ [];
  job = none;
  waived = none;
  target = none;
  client = none;
  base = none;
  environment = none;
  profiles = none;
  requirements = none;
  started_at = none;
  finished_at = none;
  judge_usage = none;
  advisory = none;
}

abbrev good_run : RunResult
good_run = executed_run (was_proven ("log.txt" ∷ []))

abbrev bad_run : RunResult
bad_run = executed_run (was_failed ("log.txt" ∷ []) none)

abbrev verifier : Option Verifier
verifier =
    some (record { json_parse = parses_list; ask = agreeable; environment = default_environment })

abbrev texts : List (String × String)
texts = ("login", "signing in works") ∷ []

judged_good : (judge_executed texts "" (λ s. s) (λ j. j) verifier good_run).result.verdict ≡ passed
unfolding judge_executed run_verifier prepare_verifier_inputs judge_run criteria_of
    qare.Judge.Sides.to_side_results lookup head_verdict has detect_regressions index
    qare.Judge.Sides.to_base_side_results qare.Judge.Sides.side_of qare.Judge.Claims.output_budget
    qare.Judge.Claims.verify_batch_size qare.Judge.Turns.verify_loop qare.Judge.Turns.verify_batch
    qare.Judge.Findings.parse_verifier_findings consume_verifier_findings base_verdict verdict_of
    qare.Judge.Fold.judged_result qare.Prelude.positive_integer qare.Redact.redact_result insert
    qare.Judge.Turns.sum_usage
judged_good = refl

judge_executed-passed_example :
    (is_empty good_run.criteria ≡ false)
    × (all_proven_unwaived good_run ≡ true)
    × (all_proven (judge_executed texts "" (λ s. s) (λ j. j) verifier good_run).result.criteria
        ≡ true)
judge_executed-passed_example =
    judge_executed-passed texts "" (λ s. s) (λ j. j) verifier good_run judged_good

judged_bad :
    (judge_executed texts "" (λ s. s) (λ j. j) none bad_run).result.verdict ≡ RunVerdict.failed
unfolding judge_executed run_verifier prepare_verifier_inputs judge_run criteria_of
    qare.Judge.Sides.to_side_results lookup head_verdict has detect_regressions index
    qare.Judge.Sides.to_base_side_results qare.Judge.Sides.side_of qare.Judge.Claims.output_budget
    qare.Judge.Claims.verify_batch_size qare.Judge.Turns.verify_loop qare.Judge.Turns.verify_batch
    qare.Judge.Findings.parse_verifier_findings consume_verifier_findings base_verdict verdict_of
    qare.Judge.Fold.judged_result qare.Prelude.positive_integer qare.Redact.redact_result insert
    qare.Judge.Turns.sum_usage
judged_bad = refl

judge_executed-failed_example :
    (judge_executed texts "" (λ s. s) (λ j. j) verifier bad_run).result.verdict ≡ RunVerdict.failed
judge_executed-failed_example =
    judge_executed-failed texts "" (λ s. s) (λ j. j) verifier bad_run judged_bad
