-- ===== src/Judge/Executed/Monotone.antt =====
-- The judged verdict of an executed result (`judgeExecuted`): what a pass means, and that a verifier
-- cannot take a failure away.
use qare.Prelude.{
  String, Bool, true, false, ◌&&◌, not, Option, none, some, List, [], ◌∷◌, map, any, all, has,
  is_empty, ◌≡◌, inl, inr, refl, arith, Bool-cases, Option-cases, ap, ap₂, ◌∙◌, sym, get_or, lookup,
}
use qare.Json.{Json}
use qare.Result.{
  is_proven, is_failed, outcome_of, proven, failed, unverified, Finding, was_proven, was_failed,
  was_unverified, CriterionOutcome, CriterionResult, ModelUsage, RunResult,
}
use qare.Result.Verdict.{RunVerdict, passed, is_refused}
use qare.Judge.Sides.{
  Regression, outcome-side_of, criterion_id-side_of, to_side_results, to_base_side_results,
}
use qare.Judge.Run.{CriterionVerdict, verdict_of, judge_run, regressed_ids}
use qare.Judge.Run.Decision.{verdict_of-passed, verdict_of-failed, judge_run-passed_iff, passes_run}
use qare.Judge.Claims.{checkable, text_of, prepare_verifier_inputs}
use qare.Judge.Findings.Downgrade.{
  IsDowngrade, AreDowngrades, AreDowngrades-refl, AreDowngrades-trans, AreDowngrades-map,
}
use qare.Judge.Turns.FailClosed.{run_verifier-AreDowngrades}
use qare.Judge.Fold.{judged_result, judged_criterion, finding_of, executed_by_id, waived_ids_of}
use qare.Judge.Executed.{
  Verifier, judged_sides, with_usage, evidence_by_id, verify, executed_verdict, judge_executed,
}
use qare.Redact.{redact_result, redact_finding, redact_criterion}

checkable-IsDowngrade :
    (texts : List (String × String)) (c : CriterionVerdict) → IsDowngrade c (checkable texts c)
unfolding checkable
checkable-IsDowngrade texts c = elim (Bool-cases (is_proven c.outcome)) [
  | inr n ↦ inl (ground arith)
  | inl p ↦ rw p (elim (Option-cases (text_of texts c.criterion_id)) [
    | inl e ↦ rw e (inr (refl, refl, refl, refl))
    | inr (t, e) ↦ rw e (inl refl)
  ])
]

module _ (texts : List (String × String)) (diff : String) where
  pub verify-AreDowngrades :
      (verifier : Option Verifier) (executed : RunResult) (cs : List CriterionVerdict)
      → AreDowngrades cs (verify texts diff verifier executed cs).verdicts
  unfolding verify prepare_verifier_inputs
  verify-AreDowngrades none executed cs = AreDowngrades-refl cs
  verify-AreDowngrades (some v) executed cs = elim (Bool-cases (is_refused executed.verdict)) [
    | inl r ↦ rw r (AreDowngrades-refl cs)
    | inr n ↦ rw n (
        AreDowngrades-trans cs (map (checkable texts) cs) _
          (AreDowngrades-map (checkable texts) (checkable-IsDowngrade texts) cs)
          (run_verifier-AreDowngrades v.json_parse v.ask v.environment _ none))
  ]

is_empty-downgrades :
    (cs ds : List CriterionVerdict) → AreDowngrades cs ds → is_empty cs ≡ is_empty ds
is_empty-downgrades [] [] h = refl
is_empty-downgrades [] (d ∷ ds) h = absurd h
is_empty-downgrades (c ∷ cs) [] h = absurd h
is_empty-downgrades (c ∷ cs) (d ∷ ds) h = refl

all-proven-downgrades :
    (cs ds : List CriterionVerdict)
    → AreDowngrades cs ds
    → all (λ d. is_proven d.outcome) ds ≡ true
    → all (λ c. is_proven c.outcome) cs ≡ true
all-proven-downgrades [] [] h p = refl
all-proven-downgrades [] (d ∷ ds) h p = absurd h
all-proven-downgrades (c ∷ cs) [] h p = absurd h
all-proven-downgrades (c ∷ cs) (d ∷ ds) (inl e, h) p = ground (arith, all-proven-downgrades cs ds h)
all-proven-downgrades (c ∷ cs) (d ∷ ds) (inr (a, b, _, _), h) p =
    ground (arith, all-proven-downgrades cs ds h)

any-failed-downgrades :
    (cs ds : List CriterionVerdict)
    → AreDowngrades cs ds
    → any (λ c. is_failed c.outcome) cs ≡ true
    → any (λ d. is_failed d.outcome) ds ≡ true
any-failed-downgrades [] ds h p = cc
any-failed-downgrades (c ∷ cs) [] h p = absurd h
any-failed-downgrades (c ∷ cs) (d ∷ ds) (inl e, h) p = ground (arith, any-failed-downgrades cs ds h)
any-failed-downgrades (c ∷ cs) (d ∷ ds) (inr (a, b, _, _), h) p =
    ground (arith, any-failed-downgrades cs ds h)

verdict_of-passed-downgrades :
    (cs ds : List CriterionVerdict) (rs : List Regression) (w : List String)
    → AreDowngrades cs ds
    → verdict_of ds rs w ≡ passed
    → verdict_of cs rs w ≡ passed
verdict_of-passed-downgrades cs ds rs w h p =
    let (none_regressed, nonempty, all_proven) = (verdict_of-passed ds rs w).0 p in
    (verdict_of-passed cs rs w).1 (
      none_regressed,
      is_empty-downgrades cs ds h ∙ nonempty,
      all-proven-downgrades cs ds h all_proven,
    )

verdict_of-failed-downgrades :
    (cs ds : List CriterionVerdict) (rs : List Regression) (w : List String)
    → AreDowngrades cs ds
    → verdict_of cs rs w ≡ RunVerdict.failed
    → verdict_of ds rs w ≡ RunVerdict.failed
verdict_of-failed-downgrades cs ds rs w h p =
    ground
      (arith, verdict_of-failed cs rs w, verdict_of-failed ds rs w, any-failed-downgrades cs ds h)

with_usage-verdict :
    (usage : Option ModelUsage) (r : RunResult) → (with_usage usage r).verdict ≡ r.verdict
unfolding with_usage
with_usage-verdict none r = refl
with_usage-verdict (some u) r = refl

with_usage-criteria :
    (usage : Option ModelUsage) (r : RunResult) → (with_usage usage r).criteria ≡ r.criteria
unfolding with_usage
with_usage-criteria none r = refl
with_usage-criteria (some u) r = refl

abbrev pub all_proven : List CriterionResult → Bool
all_proven = all (λ c. is_proven (outcome_of c.finding))

outcome_of-redact_finding :
    (sweep : String → String) (sweep_advisory : Json → Json) (f : Finding)
    → outcome_of (redact_finding sweep sweep_advisory f) ≡ outcome_of f
unfolding redact_finding
outcome_of-redact_finding sweep sweep_advisory (was_proven e) = refl
outcome_of-redact_finding sweep sweep_advisory (was_failed e r) = refl
outcome_of-redact_finding sweep sweep_advisory (was_unverified r e) = refl

pub outcome_of-finding_of :
    (o : CriterionOutcome) (reason : String) (evidence : List String)
    (before : Option CriterionResult)
    → outcome_of (finding_of o reason evidence before) ≡ o
unfolding finding_of
outcome_of-finding_of proven reason evidence before = refl
outcome_of-finding_of failed reason evidence before = refl
outcome_of-finding_of unverified reason evidence before = refl

module _ (sweep : String → String) (sweep_advisory : Json → Json) where
  -- The published criteria have the outcomes of the verdicts they were folded from.
  all_proven-fold :
      (regressed : List String) (evidence : List (String × List String))
      (executed : List (String × CriterionResult)) (cs : List CriterionVerdict)
      → all_proven (
          map (redact_criterion sweep sweep_advisory) (
            map
              (λ c.
                judged_criterion regressed c
                  (get_or (lookup c.criterion_id evidence) [])
                  (lookup c.criterion_id executed))
              cs))
        ≡ all (λ c. is_proven c.outcome) cs
  unfolding redact_criterion judged_criterion
  all_proven-fold regressed evidence executed [] = refl
  all_proven-fold regressed evidence executed (c ∷ cs) =
      ap₂ (λ a b. is_proven a && b)
        (outcome_of-redact_finding sweep sweep_advisory _ ∙ outcome_of-finding_of c.outcome _ _ _)
        (all_proven-fold regressed evidence executed cs)

module _ (texts : List (String × String)) (diff : String) (sweep : String → String)
    (sweep_advisory : Json → Json) where
  abbrev verdicts_of : Option Verifier → RunResult → List CriterionVerdict
  verdicts_of verifier executed =
      (verify texts diff verifier executed (judged_sides executed).criteria).verdicts

  judge_executed-verdict :
      (verifier : Option Verifier) (executed : RunResult)
      → (judge_executed texts diff sweep sweep_advisory verifier executed).result.verdict
        ≡ executed_verdict texts diff executed (verdicts_of verifier executed)
  unfolding judge_executed redact_result judged_result
  judge_executed-verdict verifier executed = with_usage-verdict _ _

  judge_executed-criteria :
      (verifier : Option Verifier) (executed : RunResult)
      → all_proven
          (judge_executed texts diff sweep sweep_advisory verifier executed).result.criteria
        ≡ all (λ c. is_proven c.outcome) (verdicts_of verifier executed)
  unfolding judge_executed redact_result judged_result
  judge_executed-criteria verifier executed =
      let judged = judged_sides executed in
      let verified = verify texts diff verifier executed judged.criteria in
      let regressed = regressed_ids judged.regressions in
      let evidence = evidence_by_id executed.criteria in
      let folded = redact_result sweep sweep_advisory (
        judged_result executed (executed_verdict texts diff executed verified.verdicts)
          verified.verdicts evidence regressed) in
      ap all_proven {y = folded.criteria} (with_usage-criteria verified.usage folded)
      ∙ all_proven-fold sweep sweep_advisory regressed evidence (executed_by_id executed.criteria)
          verified.verdicts

-- Every check of the run proved its criterion, and nobody waived it.
abbrev pub all_proven_unwaived : RunResult → Bool
all_proven_unwaived executed =
    all
      (λ (c : CriterionResult).
        is_proven (outcome_of c.finding) && not (has (waived_ids_of executed.waived) c.id))
      executed.criteria

passes_run-to_side_results :
    (w : List String) (cs : List CriterionResult)
    → all (passes_run w) (to_side_results cs)
      ≡ all (λ c. is_proven (outcome_of c.finding) && not (has w c.id)) cs
unfolding to_side_results
passes_run-to_side_results w [] = refl
passes_run-to_side_results w (c ∷ cs) = ground (
  arith,
  outcome-side_of c.id c.finding,
  criterion_id-side_of c.id c.finding,
  passes_run-to_side_results w cs,
)

is_empty-to_side_results : (cs : List CriterionResult) → is_empty (to_side_results cs) ≡ is_empty cs
unfolding to_side_results
is_empty-to_side_results [] = refl
is_empty-to_side_results (c ∷ cs) = refl

-- Without a verifier's word, the run passes only when the judge's own verdict does.
sides-passed :
    (executed : RunResult)
    → verdict_of
        (judged_sides executed).criteria
        (judged_sides executed).regressions
        (waived_ids_of executed.waived)
      ≡ passed
    → (judged_sides executed).verdict ≡ passed
unfolding judge_run
sides-passed executed h = h

executed_verdict-passed :
    (texts : List (String × String)) (diff : String) (executed : RunResult)
    (cs : List CriterionVerdict)
    → executed_verdict texts diff executed cs ≡ passed
    → verdict_of cs (judged_sides executed).regressions (waived_ids_of executed.waived) ≡ passed
unfolding executed_verdict
executed_verdict-passed texts diff executed cs h = elim (Bool-cases (is_refused executed.verdict)) [
  | inl r ↦ absurd (ground arith)
  | inr n ↦ ground arith
]

module _ (texts : List (String × String)) (diff : String) (sweep : String → String)
    (sweep_advisory : Json → Json) (verifier : Option Verifier) (executed : RunResult) where
  -- A judged result passes only when the run has a criterion, every criterion was proven by the run's
  -- own checks and waived by nobody, and every criterion is published as proven: with a verifier or
  -- without one.
  pub judge_executed-passed :
      (judge_executed texts diff sweep sweep_advisory verifier executed).result.verdict ≡ passed
      → (is_empty executed.criteria ≡ false)
        × (all_proven_unwaived executed ≡ true)
        × (all_proven
              (judge_executed texts diff sweep sweep_advisory verifier executed).result.criteria
            ≡ true)
  judge_executed-passed h =
      let ds = verdicts_of texts diff sweep sweep_advisory verifier executed in
      let cs = (judged_sides executed).criteria in
      let rs = (judged_sides executed).regressions in
      let w = waived_ids_of executed.waived in
      let after =
        executed_verdict-passed texts diff executed ds
          (sym (judge_executed-verdict texts diff sweep sweep_advisory verifier executed) ∙ h) in
      let before = sides-passed executed (
        verdict_of-passed-downgrades cs ds rs w
          (verify-AreDowngrades texts diff verifier executed cs) after) in
      let (_, nonempty, passes, _) =
        (judge_run-passed_iff (to_base_side_results executed.criteria)
            (to_side_results executed.criteria) w false).0
          before in
      (
        sym (is_empty-to_side_results executed.criteria) ∙ nonempty,
        sym (passes_run-to_side_results w executed.criteria) ∙ passes,
        judge_executed-criteria texts diff sweep sweep_advisory verifier executed
            ∙ ((verdict_of-passed ds rs w).0 after).2,
      )

  -- A run that fails without a verifier fails with any verifier.
  pub judge_executed-failed :
      (judge_executed texts diff sweep sweep_advisory none executed).result.verdict
        ≡ RunVerdict.failed
      → (judge_executed texts diff sweep sweep_advisory verifier executed).result.verdict
        ≡ RunVerdict.failed
  unfolding executed_verdict verify
  judge_executed-failed h =
      let ds = verdicts_of texts diff sweep sweep_advisory verifier executed in
      let cs = (judged_sides executed).criteria in
      let rs = (judged_sides executed).regressions in
      let w = waived_ids_of executed.waived in
      let down = verify-AreDowngrades texts diff verifier executed cs in
      let without = judge_executed-verdict texts diff sweep sweep_advisory none executed in
      let with_it = judge_executed-verdict texts diff sweep sweep_advisory verifier executed in
      elim (Bool-cases (is_refused executed.verdict)) [
        | inl r ↦ absurd (ground (arith, without))
        | inr n ↦ ground (arith, without, with_it, verdict_of-failed-downgrades cs ds rs w down)
      ]
