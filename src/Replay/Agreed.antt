-- ===== src/Replay/Agreed.antt =====
-- When a replay finds no difference.
use qare.Prelude.{
  String, Bool, false, ◌&&◌, Option, none, some, List, [], ◌∷◌, ◌++◌, all, is_empty, is_some,
  lookup, ◌==◌, ◌≡◌, refl, ap₂, ◌∙◌, arith,
}
use qare.Result.{CriterionResult, RunResult, outcome_of, reason_of, same_outcome}
use qare.Result.Verdict.{RunVerdict, verdict_text}
use qare.Replay.{
  ReplayDifference, same_reason, by_id, compare_one, compare_all, left_out, compare_verdicts,
  compare_results,
}

-- The stored criterion has the outcome and the reason of the replayed one.
abbrev pub agrees : Option CriterionResult → CriterionResult → Bool
agrees none c = false
agrees (some before) c =
    same_outcome (outcome_of before.finding) (outcome_of c.finding)
    && same_reason (reason_of before.finding) (reason_of c.finding)

is_empty-append :
    (xs ys : List ReplayDifference) → is_empty (xs ++ ys) ≡ (is_empty xs && is_empty ys)
is_empty-append [] ys = refl
is_empty-append (x ∷ xs) ys = refl

compare_one-is_empty :
    (o : Option CriterionResult) (c : CriterionResult) → is_empty (compare_one o c) ≡ agrees o c
unfolding compare_one
compare_one-is_empty none c = refl
compare_one-is_empty (some before) c = ground arith

compare_all-is_empty :
    (stored : List (String × CriterionResult)) (cs : List CriterionResult)
    → is_empty (compare_all stored cs)
      ≡ all (λ (c : CriterionResult). agrees (lookup c.id stored) c) cs
unfolding compare_all
compare_all-is_empty stored [] = refl
compare_all-is_empty stored (c ∷ cs) =
    is_empty-append (compare_one (lookup c.id stored) c) (compare_all stored cs)
    ∙ ap₂ (λ a b. a && b) (compare_one-is_empty (lookup c.id stored) c)
        (compare_all-is_empty stored cs)

left_out-is_empty :
    (replayed : List (String × CriterionResult)) (cs : List CriterionResult)
    → is_empty (left_out replayed cs)
      ≡ all (λ (c : CriterionResult). is_some (lookup c.id replayed)) cs
unfolding left_out
left_out-is_empty replayed [] = refl
left_out-is_empty replayed (c ∷ cs) = ground (arith, left_out-is_empty replayed cs)

verdicts-is_empty :
    (v w : RunVerdict) → is_empty (compare_verdicts v w) ≡ (verdict_text v == verdict_text w)
unfolding compare_verdicts
verdicts-is_empty v w = ground arith

-- A replay finds no difference exactly where the verdicts are the same, each recomputed criterion is
-- stored with the same outcome and the same reason, and each stored criterion is recomputed.
pub compare_results-is_empty :
    (stored replayed : RunResult)
    → is_empty (compare_results stored replayed) ≡ (
        verdict_text stored.verdict == verdict_text replayed.verdict
        && (all
              (λ (c : CriterionResult). agrees (lookup c.id (by_id stored.criteria)) c)
              replayed.criteria
            && all
                (λ (c : CriterionResult). is_some (lookup c.id (by_id replayed.criteria)))
                stored.criteria))
unfolding compare_results
compare_results-is_empty stored replayed =
    let all_ = compare_all (by_id stored.criteria) replayed.criteria in
    let left = left_out (by_id replayed.criteria) stored.criteria in
    is_empty-append (compare_verdicts stored.verdict replayed.verdict) (all_ ++ left)
    ∙ ap₂ (λ a b. a && b) (verdicts-is_empty stored.verdict replayed.verdict)
        (is_empty-append all_ left
          ∙ ap₂ (λ a b. a && b) (compare_all-is_empty (by_id stored.criteria) replayed.criteria)
              (left_out-is_empty (by_id replayed.criteria) stored.criteria))
