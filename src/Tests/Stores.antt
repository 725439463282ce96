-- ===== src/Tests/Stores.antt =====
-- Triggers, waivers and the quarantine store at concrete inputs.
use qare.Prelude.{
  String, true, false, ◌&&◌, ◌||◌, Option, none, some, List, [], ◌∷◌, any, all, has, filter,
  is_empty, is_some, lookup, if◌then◌else◌, ◌==◌, ◌≡◌, ◌≢◌, ◌↔◌, refl,
}
use qare.Json.{Json}
use qare.Result.{was_failed, CriterionResult, RunResult}
use qare.Result.Verdict.{RunVerdict, passed, waived, verdict_text}
use qare.Replay.{by_id, compare_results}
use qare.Replay.Agreed.{agrees, compare_results-is_empty}
use qare.Triggers.{TriggerInput, label, parse_trigger, accepted}
use qare.Triggers.Once.{started, AreDistinct, started-AreDistinct, has-started}
use qare.Waivers.{record_waiver}
use qare.Waivers.Recorded.{still_fails, is_settled, earlier_ids, run_ids, record_waiver-verdict}
use qare.Quarantine.{
  QuarantineRecord, QuarantineContext, contents, read_quarantine, quarantined_record,
  add_quarantine_record, store_json, save_quarantine,
}
use qare.Quarantine.Store.{read-save, quarantined_record-add}

abbrev ci_trigger : TriggerInput
ci_trigger = record { kind = "ci"; sha = some "ABCD12"; body = none; label = none }

abbrev label_trigger : TriggerInput
label_trigger = record { kind = "label"; sha = some "abcd12"; body = none; label = some "qa" }

started-AreDistinct_example : AreDistinct (started (ci_trigger ∷ label_trigger ∷ []) [])
started-AreDistinct_example = started-AreDistinct (ci_trigger ∷ label_trigger ∷ []) []

parsed_label : parse_trigger label_trigger ≡ accepted (label "abcd12")
unfolding parse_trigger
parsed_label = refl

has-started_example :
    (has [] "abcd12" || has (started (ci_trigger ∷ label_trigger ∷ []) []) "abcd12") ≡ true
has-started_example =
    has-started (label "abcd12") (ci_trigger ∷ label_trigger ∷ []) [] 1 label_trigger refl
      parsed_label

abbrev criterion : String → CriterionResult
criterion id = record {
  id = id;
  finding = was_failed ("checks/0/out.txt" ∷ []) none;
  base = none;
  regression = none;
  a11y = none;
  mail = none;
  repairs = none;
  cached = false;
}

abbrev failed_run : RunResult
failed_run = record {
  schema_version = "1";
  verdict = RunVerdict.failed;
  criteria = criterion "login" ∷ criterion "search" ∷ [];
  job = none;
  waived = none;
  target = none;
  client = none;
  base = none;
  environment = none;
  profiles = none;
  requirements = none;
  started_at = none;
  finished_at = none;
  judge_usage = none;
  advisory = none;
}

abbrev login_only : List String
login_only = "login" ∷ []

names_login : any (λ (c : CriterionResult). has login_only c.id) failed_run.criteria ≡ true
unfolding has
names_login = refl

signed : (qare.Waivers.sanitize_actor "ada" == "") ≡ false
unfolding qare.Waivers.sanitize_actor
signed = refl

record_waiver-verdict_example :
    (((record_waiver failed_run login_only "ada").verdict ≡ RunVerdict.failed)
      ↔ (any (still_fails login_only) failed_run.criteria ≡ true))
    × (((record_waiver failed_run login_only "ada").verdict ≡ waived) ↔ (
        (any (still_fails login_only) failed_run.criteria ≡ false)
        × (all (is_settled login_only (earlier_ids failed_run)) failed_run.criteria ≡ true)))
    × ((record_waiver failed_run login_only "ada").verdict ≢ passed)
    × (earlier_ids (record_waiver failed_run login_only "ada")
        ≡ filter (has login_only) (run_ids failed_run))
record_waiver-verdict_example =
    record_waiver-verdict failed_run login_only "ada" refl names_login signed

abbrev flaky : QuarantineRecord
flaky = record {
  check = "login flow";
  fingerprint = "f1";
  criterion = "login";
  reason = "timing";
  quarantined_at = "2026-01-01";
}

abbrev store : QuarantineContext
store = record { dir = ".qa"; records = flaky ∷ []; unreadable = none }

abbrev parse_store : String → Option Json
parse_store s = some (store_json (flaky ∷ []))

saved : parse_store "{}" ≡ save_quarantine (some store)
unfolding save_quarantine
saved = refl

read-save_example : read_quarantine parse_store ".qa" (contents "{}") ≡ store
read-save_example = read-save parse_store "{}" store refl refl saved

quarantined_record-add_example :
    quarantined_record (some (add_quarantine_record store flaky)) "f2"
    ≡ (if "f1" == "f2" then some flaky else quarantined_record (some store) "f2")
quarantined_record-add_example = quarantined_record-add store flaky "f2"

compare_results-is_empty_example : is_empty (compare_results failed_run failed_run) ≡ (
    verdict_text failed_run.verdict == verdict_text failed_run.verdict
    && (all
          (λ (c : CriterionResult). agrees (lookup c.id (by_id failed_run.criteria)) c)
          failed_run.criteria
        && all
            (λ (c : CriterionResult). is_some (lookup c.id (by_id failed_run.criteria)))
            failed_run.criteria))
compare_results-is_empty_example = compare_results-is_empty failed_run failed_run
