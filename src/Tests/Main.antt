-- ===== src/Tests/Main.antt =====
-- The record of passes and the findings on the default branch at a concrete run, with a hash that is
-- constant.
use qare.Prelude.{
  ℕ, String, Bool, true, false, ◌||◌, Option, none, some, List, [], ◌∷◌, map, any, lookup, ◌≡◌,
  refl, ap, sym,
}
use qare.Fallible.{ok}
use qare.Json.{Json}
use qare.Result.{CriterionResult, RunResult, was_unverified}
use qare.Result.Verdict.{blocked}
use qare.Ledger.Types.{LedgerEntry, active}
use qare.Ledger.Document.{LedgerDocument}
use qare.MainPasses.Read.{
  MainPass, record_json, serialize_main_passes, parse_main_passes, read_record, parse_record_fields,
  parse_passes, pass_fields, pass_json, parse_pass, parse_pass_fields, parse_id, checked_text,
  fields_of, is_digest,
}
use qare.MainPasses.Instant.{instant, check_instant, read_digits, read_mark, is_zone, days_in_month}
use qare.MainPasses.Read.Back.{in_order}
use qare.MainPasses.{MainRun, recorded_passes, record_main_passes}
use qare.MainPasses.Kept.{lookup-recorded_passes, record_main_passes-in_order}
use qare.MainFindings.Types.{EnvironmentFinding, MainFinding}
use qare.MainFindings.{classify_main_run, is_blocked}
use qare.MainFindings.Rounds.{
  ids_where, failed_test, proven_test, flaky_test, down_test, has_other_cause,
}
use qare.MainFindings.Sorted.{classify_main_run-sorted, classify_main_run-environment}

abbrev hash : String → String
hash s = "0000000000000000000000000000000000000000000000000000000000000000"

abbrev print : Json → String
print j = "[]"

abbrev commit : String
commit = "0123456789012345678901234567890123456789"

abbrev login : LedgerEntry
login = record {
  criterion = "login";
  status = active;
  source = "docs/login.md" ∷ [];
  proof = "test";
  note = none;
  supersedes = none;
  text = some "A user can log in.";
  checks = none;
  resolution = none;
}

abbrev run : MainRun
run = record {
  sha = commit;
  at = "2026-10-09T04:17:00Z";
  run = "run-7";
  recorded_at = "2026-10-09T05:00:00Z";
}

abbrev login_pass : MainPass
login_pass = record {
  sha = commit;
  at = "2026-10-09T04:17:00Z";
  run = "run-7";
  recorded_at = "2026-10-09T05:00:00Z";
  entry = "sha256:0000000000000000000000000000000000000000000000000000000000000000";
}

abbrev behind : String → Bool
behind sha = true

abbrev parse : String → Option Json
parse s = some (record_json (("login", login_pass) ∷ []))

lookup-recorded_passes_example :
    lookup "login" (recorded_passes hash print [] run ("login" ∷ []) (login ∷ []) behind)
    ≡ some login_pass
unfolding qare.Prelude.has lookup qare.MainPasses.entries_by_criterion qare.Prelude.index
    qare.Prelude.insert qare.MainPasses.main_pass_entry_digest
lookup-recorded_passes_example =
    lookup-recorded_passes hash print [] run ("login" ∷ []) (login ∷ []) behind "login" tt

recorded :
    recorded_passes hash print [] run ("login" ∷ []) (login ∷ []) behind
    ≡ ("login", login_pass) ∷ []
unfolding recorded_passes qare.MainPasses.record_all qare.MainPasses.record_one lookup
    qare.MainPasses.entries_by_criterion qare.Prelude.index qare.Prelude.insert
    qare.MainPasses.main_pass_entry_digest
recorded = refl

returned :
    record_main_passes hash print print parse [] run ("login" ∷ []) (login ∷ []) behind
    ≡ ok (("login", login_pass) ∷ [])
unfolding record_main_passes serialize_main_passes parse_main_passes recorded_passes
    qare.MainPasses.record_all qare.MainPasses.record_one lookup
    qare.MainPasses.entries_by_criterion qare.Prelude.index qare.Prelude.insert
    qare.MainPasses.main_pass_entry_digest read_record record_json parse_record_fields parse_passes
    pass_fields pass_json parse_pass parse_pass_fields parse_id checked_text fields_of is_digest
    instant check_instant read_digits read_mark is_zone days_in_month qare.Ledger.Types.only_keys
    qare.Ledger.Types.is_criterion_id qare.Prelude.has qare.Prelude.sort_by qare.Prelude.put_sorted
returned = refl

record_main_passes-in_order_example :
    ("login", login_pass) ∷ []
    ≡ in_order (recorded_passes hash print [] run ("login" ∷ []) (login ∷ []) behind)
record_main_passes-in_order_example =
    record_main_passes-in_order hash print print parse [] run ("login" ∷ []) (login ∷ []) behind
      (("login", login_pass) ∷ []) (ap (λ ps. some (record_json ps)) (sym recorded)) returned

abbrev blocked_run : RunResult
blocked_run = record {
  schema_version = "1";
  verdict = blocked;
  criteria =
      record {
        id = "login";
        finding = was_unverified "no boot" none;
        base = none;
        regression = none;
        a11y = none;
        mail = none;
        repairs = none;
        cached = false;
      }
      ∷ [];
  job = none;
  waived = none;
  target = none;
  client = none;
  base = none;
  environment = none;
  profiles = none;
  requirements = none;
  started_at = none;
  finished_at = none;
  judge_usage = none;
  advisory = none;
}

abbrev ledger : LedgerDocument
ledger = record { entries = login ∷ []; changes = [] }

abbrev no_date : String → Option ℕ
no_date s = none

classify_main_run-sorted_example :
    (let c = classify_main_run hash print no_date blocked_run ledger none none in
      (map (λ (f : MainFinding). f.criterion_id) c.findings
        ≡ ids_where failed_test blocked_run.criteria)
      × (c.recovered ≡ ids_where proven_test blocked_run.criteria)
      × (c.flaky ≡ ids_where flaky_test blocked_run.criteria)
      × (c.environment_up ≡ (
          any (λ (c : CriterionResult). proven_test c.finding) blocked_run.criteria
          || any (λ (c : CriterionResult). failed_test c.finding) blocked_run.criteria)))
classify_main_run-sorted_example =
    classify_main_run-sorted hash print no_date blocked_run ledger none none

abbrev found : EnvironmentFinding
found = record { reasons = "no boot" ∷ []; criteria = "login" ∷ [] }

is_found :
    (classify_main_run hash print no_date blocked_run ledger none none).environment ≡ some found
unfolding classify_main_run qare.MainFindings.classified qare.MainFindings.sort_all
    qare.MainFindings.sort_one qare.Prelude.distinct
is_found = refl

classify_main_run-environment_example :
    (is_blocked blocked ≡ true)
    × (any (λ (c : CriterionResult). proven_test c.finding) blocked_run.criteria ≡ false)
    × (any (λ (c : CriterionResult). failed_test c.finding) blocked_run.criteria ≡ false)
    × (any (λ (c : CriterionResult). has_other_cause c.finding) blocked_run.criteria ≡ false)
    × ("login" ∷ [] ≡ ids_where down_test blocked_run.criteria)
classify_main_run-environment_example =
    classify_main_run-environment hash print no_date blocked_run ledger none none found is_found
