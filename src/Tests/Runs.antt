-- ===== src/Tests/Runs.antt =====
-- Sharding, selection, subset runs and open questions at concrete inputs.
use qare.Prelude.{
  ℕ, ◌+◌, ◌≤◌, max, String, Bool, true, false, ◌&&◌, not, Option, none, some, List, [], ◌∷◌, any,
  all, is_empty, length, map, ltb, if◌then◌else◌, ◌==◌, ◌≡◌, ◌↔◌, ◌⊎◌, refl, total,
}
use qare.Fallible.{ok, threw}
use qare.Json.{Json, null, Fields, field, end}
use qare.Result.{was_failed, CriterionResult, RunResult, outcome_of, is_proven, unverified}
use qare.Result.Verdict.{RunVerdict, passed}
use qare.Shards.{JobCriterion, LanePlan, shard_criteria}
use qare.Shards.Partition.{placed, shard_criteria-IsPartition}
use qare.Ledger.Types.{LedgerStatus, active, proposed, is_active, LedgerEntry}
use qare.Selection.{SelectionOptions, SelectedCriterion, UnselectedCriterion, select_criteria}
use qare.Selection.Budget.{smoke_cost, select_criteria-estimated}
use qare.Selection.Report.{select_criteria-IsComplete}
use qare.Subset.{ResolvedCriterion, resolve_criteria_subset}
use qare.Subset.{PlanCriterion, ledger_active_plan}
use qare.Subset.Active.{RunsActive, ledger_active_plan-IsMade}
use qare.Subset.Served.{are_fresh, is_served, resolve_criteria_subset-served}
use qare.Questions.{
  Contradiction, model, ResolutionClassification, ResolutionQuestion, resolve_contradictions,
  hold_for_questions, hold_one, held_by,
}
use qare.Questions.Asked.{asks, resolve_contradictions-once}
use qare.Questions.Held.{fails_unasked, is_affected, hold_for_questions-verdict, hold_one-IsHeld}

abbrev mail_check : Fields
mail_check = field "kind" (Json.text "mail") end

abbrev job : List JobCriterion
job =
    record { id = "login"; text = "logs in"; isolated = false; checks = [] }
    ∷ record { id = "mail"; text = "mails"; isolated = false; checks = mail_check ∷ [] }
    ∷ record { id = "search"; text = "searches"; isolated = false; checks = [] }
    ∷ []

abbrev print : Json → String
print j = "{}"

shard_criteria-IsPartition_example :
    (plan : LanePlan) × (shard_criteria print (λ s. false) job 2 ≡ ok plan)
    × (length plan.shared ≡ max 1 2)
    × ((i : ℕ) → placed i plan ≡ (if ltb i (length job) then 1 else 0))
shard_criteria-IsPartition_example = shard_criteria-IsPartition print (λ s. false) job 2

abbrev entry : String → LedgerStatus → List String → LedgerEntry
entry id status checks = record {
  criterion = id;
  status = status;
  source = [];
  proof = "flow";
  note = none;
  supersedes = none;
  text = none;
  checks = some checks;
  resolution = none;
}

abbrev ledger : List LedgerEntry
ledger =
    entry "login" active ("suite:smoke" ∷ [])
    ∷ entry "search" proposed ("src/search.ts:4" ∷ [])
    ∷ entry "export" LedgerStatus.retired []
    ∷ []

abbrev options : SelectionOptions
options = record {
  touched = "src/search.ts" ∷ [];
  budget_ms = some 60000;
  smoke_suite = none;
  check_cost_ms = none;
}

select_criteria-estimated_example :
    (select_criteria ledger options).estimated_ms
    ≤ (select_criteria ledger options).budget_ms + total (smoke_cost options) ledger
select_criteria-estimated_example = select_criteria-estimated ledger options

select_criteria-IsComplete_example :
    total
        (λ (s : SelectedCriterion). if s.criterion == "export" then 1 else 0)
        (select_criteria ledger options).selected
      + total
          (λ (u : UnselectedCriterion). if u.criterion == "export" then 1 else 0)
          (select_criteria ledger options).not_selected
    ≡ total (λ (e : LedgerEntry). if e.criterion == "export" then 1 else 0) ledger
select_criteria-IsComplete_example = select_criteria-IsComplete ledger options "export"

abbrev wanted : List String
wanted = "search" ∷ []

resolve_criteria_subset-served_example :
    ((rs : List ResolvedCriterion) × (resolve_criteria_subset ledger wanted ≡ ok rs)
      × (map (λ (r : ResolvedCriterion). r.id) rs ≡ wanted)
      × ((not (is_empty wanted) && are_fresh [] wanted && all (is_served ledger) wanted) ≡ true))
    ⊎ ((why : String) × (resolve_criteria_subset ledger wanted ≡ threw why)
        × ((not (is_empty wanted) && are_fresh [] wanted && all (is_served ledger) wanted) ≡ false))
resolve_criteria_subset-served_example = resolve_criteria_subset-served ledger wanted

abbrev conflict : Contradiction
conflict = record {
  criterion = "login";
  criterion_text = none;
  replacement = some "login-2";
  classification = ResolutionClassification.supersede;
  basis = model;
  reason = "the change renames the field";
}

abbrev sha : String → String
sha s = "0123456789abcdef01"

resolve_contradictions-once_example :
    total
      (λ (q : ResolutionQuestion). if q.id == "q-0123456789abcdef" then 1 else 0)
      (resolve_contradictions sha ledger null (conflict ∷ conflict ∷ [])).questions
    ≡ (if any (asks sha ledger null "q-0123456789abcdef") (conflict ∷ conflict ∷ []) then 1 else 0)
resolve_contradictions-once_example =
    resolve_contradictions-once sha ledger null (conflict ∷ conflict ∷ []) "q-0123456789abcdef"

abbrev question : ResolutionQuestion
question = record {
  id = "q-0123456789abcdef";
  criterion = "login";
  replacement = none;
  recommendation = ResolutionClassification.regression;
  reason = "unclear";
  source = null;
}

abbrev failed_login : CriterionResult
failed_login = record {
  id = "login";
  finding = was_failed ("checks/login/0/out.txt" ∷ []) none;
  base = none;
  regression = none;
  a11y = none;
  mail = none;
  repairs = none;
  cached = false;
}

abbrev failed_run : RunResult
failed_run = record {
  schema_version = "1";
  verdict = RunVerdict.failed;
  criteria = failed_login ∷ [];
  job = none;
  waived = none;
  target = none;
  client = none;
  base = none;
  environment = none;
  profiles = none;
  requirements = none;
  started_at = none;
  finished_at = none;
  judge_usage = none;
  advisory = none;
}

hold_for_questions-verdict_example :
    (((hold_for_questions failed_run (question ∷ [])).verdict ≡ RunVerdict.failed)
      ↔ (any (fails_unasked (question ∷ [])) failed_run.criteria ≡ true))
    × (((hold_for_questions failed_run (question ∷ [])).verdict ≡ passed) ↔ (
        (is_empty failed_run.criteria ≡ false)
        × (all (λ (c : CriterionResult). is_proven (outcome_of c.finding)) failed_run.criteria
            ≡ true)))
hold_for_questions-verdict_example = hold_for_questions-verdict failed_run (question ∷ []) refl refl

hold_one-IsHeld_example :
    (hold_one (held_by (question ∷ []) []) failed_login ≡ failed_login)
    ⊎ ((is_affected (question ∷ []) "login" ≡ true)
        × (is_proven (outcome_of failed_login.finding) ≡ false)
        × (outcome_of (hold_one (held_by (question ∷ []) []) failed_login).finding ≡ unverified))
hold_one-IsHeld_example = hold_one-IsHeld (question ∷ []) failed_login

ledger_is_fresh : are_fresh [] (map (λ (e : LedgerEntry). e.criterion) ledger) ≡ true
unfolding qare.Prelude.has
ledger_is_fresh = refl

ledger_active_plan-IsMade_example :
    ((any (λ (e : LedgerEntry). is_active e.status) ledger ≡ false)
      × (ledger_active_plan ledger ≡ ok none))
    ⊎ ((any (λ (e : LedgerEntry). is_active e.status) ledger ≡ true)
        × ((plan : List PlanCriterion) × (ledger_active_plan ledger ≡ ok (some plan))
            × RunsActive ledger plan))
ledger_active_plan-IsMade_example = ledger_active_plan-IsMade ledger ledger_is_fresh
