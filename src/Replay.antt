-- ===== src/Replay.antt =====
-- packages/core/src/replay.ts: where a stored result and the one recomputed from its artifacts disagree.
pub mod Agreed
use qare.Prelude.{
  String, Bool, true, false, ◌&&◌, not, Option, none, some, List, [], ◌∷◌, ◌++◌, any, find, index,
  lookup, is_some, has_prefix, get_or, if◌then◌else◌, ◌==◌,
}
use qare.Result.{
  CriterionOutcome, proven, failed, unverified, CriterionResult, RunResult, outcome_of, reason_of,
  same_outcome, is_failed, is_proven,
}
use qare.Result.Verdict.{RunVerdict, verdict_text}

pub data DifferenceField : Type 0 where
  verdict outcome reason criteria : DifferenceField

pub record ReplayDifference : Type 0 where
  pub criterion_id : Option String
  pub field_ : DifferenceField
  pub stored : String
  pub replayed : String

abbrev pub outcome_text : CriterionOutcome → String
outcome_text proven = "proven"
outcome_text failed = "failed"
outcome_text unverified = "unverified"

abbrev pub same_reason : Option String → Option String → Bool
same_reason none none = true
same_reason (some s) (some t) = s == t
same_reason _ _ = false

-- `new Map(criteria.map((criterion) => [criterion.id, criterion]))`.
abbrev pub by_id : List CriterionResult → List (String × CriterionResult)
by_id cs = index (λ (c : CriterionResult). c.id) (λ (c : CriterionResult). c) cs

unfoldable pub compare_one : Option CriterionResult → CriterionResult → List ReplayDifference
compare_one none c =
    record {
      criterion_id = some c.id;
      field_ = criteria;
      stored = "absent";
      replayed = outcome_text (outcome_of c.finding);
    }
    ∷ []
compare_one (some before) c =
    if not (same_outcome (outcome_of before.finding) (outcome_of c.finding))
    then record {
      criterion_id = some c.id;
      field_ = outcome;
      stored = outcome_text (outcome_of before.finding);
      replayed = outcome_text (outcome_of c.finding);
    }
      ∷ []
    else if not (same_reason (reason_of before.finding) (reason_of c.finding))
    then record {
      criterion_id = some c.id;
      field_ = reason;
      stored = get_or (reason_of before.finding) "";
      replayed = get_or (reason_of c.finding) "";
    }
      ∷ []
    else []

unfoldable pub compare_all :
    List (String × CriterionResult) → List CriterionResult → List ReplayDifference
compare_all stored [] = []
compare_all stored (c ∷ cs) = compare_one (lookup c.id stored) c ++ compare_all stored cs

-- The stored criteria that the recomputed result does not have.
unfoldable pub left_out :
    List (String × CriterionResult) → List CriterionResult → List ReplayDifference
left_out replayed [] = []
left_out replayed (c ∷ cs) =
    let rest = left_out replayed cs in
    if is_some (lookup c.id replayed)
    then rest
    else record {
      criterion_id = some c.id;
      field_ = criteria;
      stored = outcome_text (outcome_of c.finding);
      replayed = "absent";
    }
      ∷ rest

unfoldable pub compare_verdicts : RunVerdict → RunVerdict → List ReplayDifference
compare_verdicts stored replayed =
    if verdict_text stored == verdict_text replayed
    then []
    else record {
      criterion_id = none;
      field_ = verdict;
      stored = verdict_text stored;
      replayed = verdict_text replayed;
    }
      ∷ []

unfoldable pub compare_results : RunResult → RunResult → List ReplayDifference
compare_results stored replayed =
    compare_verdicts stored.verdict replayed.verdict
    ++ (compare_all (by_id stored.criteria) replayed.criteria
        ++ left_out (by_id replayed.criteria) stored.criteria)

abbrev says_verifier : Option String → Bool
says_verifier none = false
says_verifier (some text) = has_prefix "verifier:" text

abbrev was_replayed_proven : Option CriterionResult → Bool
was_replayed_proven none = false
was_replayed_proven (some c) = is_proven (outcome_of c.finding)

unfoldable pub downgraded_by_verifier : RunResult → RunResult → Bool
downgraded_by_verifier stored replayed =
    any
      (λ (c : CriterionResult).
        is_failed (outcome_of c.finding)
        && says_verifier (reason_of c.finding)
        && was_replayed_proven (find (λ (r : CriterionResult). r.id == c.id) replayed.criteria))
      stored.criteria
