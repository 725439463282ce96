-- ===== src/MainFindings.antt =====
-- Findings on the default branch: `classifyMainRun` of packages/core/src/main-findings.ts. `Date.parse`
-- is a parameter, `none` for `NaN`.
pub mod Path
pub mod Types
pub mod Last
pub mod Rounds
pub mod Sorted
use qare.Prelude.{
  ℕ, zero, suc, ◌+◌, ◌-◌, String, Bool, true, false, ◌&&◌, ◌||◌, not, Option, none, some, List, [],
  ◌∷◌, ◌++◌, length, map, filter, is_empty, distinct, sort_by, insert, lookup, index, has_prefix,
  template, get_or, nat_eq, ltb, is_some, if◌then◌else◌, ◌==◌,
}
use qare.Json.{Json, arr, nil, cons}
use qare.Result.{CriterionResult, RunResult, Finding, was_proven, was_failed, was_unverified}
use qare.Result.Verdict.{RunVerdict, blocked}
use qare.Ledger.Types.{LedgerEntry, LedgerChangeKind, verify, kind_text}
use qare.Ledger.History.{LedgerChange, text_items}
use qare.Ledger.Document.{LedgerDocument}
use qare.MainPasses.Read.{MainPass}
use qare.MainPasses.{standing_main_passes, entries_by_criterion}
use qare.MainFindings.Path.{check_of, first_16}
use qare.MainFindings.Types.{
  LastProven, MainFinding, EnvironmentFinding, MainRunClassification, UnverifiedCause, waived,
  quarantine, verifier, held, refused, not_selected, unplanned, environment, unverified_cause,
}
use qare.MainFindings.Last.{
  last_proven_of, passes_here, standing, passed_last, verified_last, set_all,
}

abbrev is_verifier : UnverifiedCause → Bool
is_verifier verifier = true
is_verifier _ = false

abbrev how_failed : Option String → String
how_failed none = "check"
how_failed (some reason) = if is_verifier (unverified_cause reason) then "verifier" else "check"

module _ (sha256 : String → String) (json_text : Json → String) where
  unfoldable pub main_finding_fingerprint : String → List String → Option String → String
  main_finding_fingerprint id evidence reason =
      let checks = sort_by (λ s. s) (distinct (map check_of evidence)) in
      let parts = arr (
        cons (Json.text id) (
          cons (Json.text "failed")
            (cons (Json.text (how_failed reason)) (cons (arr (text_items checks)) nil)))) in
      template ("mf-" ∷ first_16 (sha256 (json_text parts)) ∷ [])

-- What the loop over the criteria has sorted so far.
pub record SortedCriteria : Type 0 where
  pub findings : List MainFinding
  pub recovered : List String
  pub flaky : List String
  pub down : List (String × String)
  pub unplanned_count : ℕ

abbrev words_of : Option LedgerEntry → Option String
words_of none = none
words_of (some entry) = entry.text

abbrev checks_of : Option LedgerEntry → List String
checks_of none = []
checks_of (some entry) = get_or entry.checks []

abbrev run_of : Option MainPass → Option (String × String)
run_of none = none
run_of (some pass) = some (pass.run, pass.recorded_at)

abbrev pub by_cause : UnverifiedCause → String → String → SortedCriteria → SortedCriteria
by_cause quarantine id reason s = record {
  findings = s.findings;
  recovered = s.recovered;
  flaky = s.flaky ++ id ∷ [];
  down = s.down;
  unplanned_count = s.unplanned_count;
}
by_cause environment id reason s = record {
  findings = s.findings;
  recovered = s.recovered;
  flaky = s.flaky;
  down = s.down ++ (id, reason) ∷ [];
  unplanned_count = s.unplanned_count;
}
by_cause unplanned id reason s = record {
  findings = s.findings;
  recovered = s.recovered;
  flaky = s.flaky;
  down = s.down;
  unplanned_count = s.unplanned_count + 1;
}
by_cause _ id reason s = s

module _ (sha256 : String → String) (json_text : Json → String)
    (entries : List (String × LedgerEntry)) (here : List (String × MainPass))
    (last_proven : List (String × LastProven)) where
  unfoldable pub finding_of : CriterionResult → List String → Option String → MainFinding
  finding_of c evidence reason =
      let entry = lookup c.id entries in
      let base = get_or c.regression false in
      let passed_here = if base then none else lookup c.id here in
      let proven = if is_some passed_here then none else lookup c.id last_proven in
      record {
        is_regression = is_some proven || base;
        fingerprint = main_finding_fingerprint sha256 json_text c.id evidence reason;
        criterion_id = c.id;
        text = words_of entry;
        passed_here = run_of passed_here;
        reason = reason;
        evidence = evidence;
        checks = checks_of entry;
        last_proven = proven;
      }

  unfoldable pub sort_one : CriterionResult → Finding → SortedCriteria → SortedCriteria
  sort_one c (was_proven evidence) s = record {
    findings = s.findings;
    recovered = s.recovered ++ c.id ∷ [];
    flaky = s.flaky;
    down = s.down;
    unplanned_count = s.unplanned_count;
  }
  sort_one c (was_unverified reason evidence) s = by_cause (unverified_cause reason) c.id reason s
  sort_one c (was_failed evidence reason) s = record {
    findings = s.findings ++ finding_of c evidence reason ∷ [];
    recovered = s.recovered;
    flaky = s.flaky;
    down = s.down;
    unplanned_count = s.unplanned_count;
  }

  unfoldable pub sort_all : List CriterionResult → SortedCriteria → SortedCriteria
  sort_all [] s = s
  sort_all (c ∷ cs) s = sort_all cs (sort_one c c.finding s)

abbrev pub nothing_sorted : SortedCriteria
nothing_sorted = record {
  findings = [];
  recovered = [];
  flaky = [];
  down = [];
  unplanned_count = 0;
}

abbrev pub is_blocked : RunVerdict → Bool
is_blocked blocked = true
is_blocked _ = false

unfoldable pub classified : RunVerdict → ℕ → SortedCriteria → MainRunClassification
classified verdict count s =
    let up = not (is_empty s.recovered) || not (is_empty s.findings) in
    if is_blocked verdict
      && not up
      && not (is_empty s.down)
      && nat_eq (length s.down) (count - s.unplanned_count)
    then record {
      environment = some (record {
        reasons = distinct (map (λ (d : String × String). d.1) s.down);
        criteria = map (λ (d : String × String). d.0) s.down;
      });
      findings = [];
      recovered = [];
      flaky = s.flaky;
      environment_up = false;
    }
    else record {
      environment = none;
      findings = s.findings;
      recovered = s.recovered;
      flaky = s.flaky;
      environment_up = up;
    }

unfoldable pub classify_main_run :
    (String → String)
    → (Json → String)
    → (String → Option ℕ)
    → RunResult
    → LedgerDocument
    → Option (List (String × MainPass))
    → Option String
    → MainRunClassification
classify_main_run sha256 json_text date_parse result ledger passes head_sha =
    classified result.verdict (length result.criteria) (
      sort_all sha256 json_text (entries_by_criterion ledger.entries)
        (passes_here sha256 json_text date_parse ledger passes head_sha)
        (last_proven_of sha256 json_text date_parse ledger passes head_sha) result.criteria
        nothing_sorted)
