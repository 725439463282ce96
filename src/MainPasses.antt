-- ===== src/MainPasses.antt =====
-- The record of what a run on the default branch proved: packages/core/src/main-passes.ts.
pub mod Instant
pub mod Read
pub mod Kept
use qare.Prelude.{
  String, Bool, true, false, ◌||◌, ◌&&◌, not, Option, none, some, List, [], ◌∷◌, map, filter, any,
  has, index, insert, lookup, distinct, sort_by, template, get_or, if◌then◌else◌, ◌==◌,
}
use qare.Fallible.{Fallible, ok, threw, ◌>>=◌}
use qare.Json.{Json, arr, obj, field, end}
use qare.Result.{CriterionResult, RunResult, is_proven, outcome_of}
use qare.Ledger.Types.{LedgerEntry, is_active}
use qare.Ledger.History.{text_items}
use qare.MainPasses.Read.{MainPass, parse_main_passes, serialize_main_passes}

-- `mainPassOf`: the record's own properties.
abbrev pub main_pass_of : List (String × MainPass) → String → Option MainPass
main_pass_of passes criterion = lookup criterion passes

abbrev text_or_null : Option String → Json
text_or_null none = Json.null
text_or_null (some s) = Json.text s

-- The checks as a set, in order.
abbrev proven_checks : Option (List String) → List String
proven_checks checks = sort_by (λ s. s) (distinct (get_or checks []))

unfoldable pub proven_json : LedgerEntry → Json
proven_json e = obj (
    field "criterion" (Json.text e.criterion) (
      field "text" (text_or_null e.text) (
        field "proof" (Json.text e.proof)
          (field "checks" (arr (text_items (proven_checks e.checks))) end))))

unfoldable pub main_pass_entry_digest : (String → String) → (Json → String) → LedgerEntry → String
main_pass_entry_digest sha256 json_text entry =
    template ("sha256:" ∷ sha256 (json_text (proven_json entry)) ∷ [])

abbrev criterion_of : LedgerEntry → String
criterion_of entry = entry.criterion

-- `new Map(ledger.entries.map((entry) => [entry.criterion, entry]))`.
unfoldable pub entries_by_criterion : List LedgerEntry → List (String × LedgerEntry)
entries_by_criterion entries = index criterion_of (λ (e : LedgerEntry). e) entries

unfoldable pub main_passes_to_record : RunResult → List LedgerEntry → List String
main_passes_to_record result entries =
    let active = map criterion_of (filter (λ (e : LedgerEntry). is_active e.status) entries) in
    map (λ (c : CriterionResult). c.id)
      (filter (λ (c : CriterionResult). is_proven (outcome_of c.finding) && has active c.id)
        result.criteria)

-- The run whose passes are recorded.
pub record MainRun : Type 0 where
  pub sha : String
  pub at : String
  pub run : String
  pub recorded_at : String

-- `mine`: the run's revision may speak for the pass.
abbrev pub is_mine : MainRun → (String → Bool) → MainPass → Bool
is_mine run behind pass = pass.sha == run.sha || behind pass.sha

abbrev pub new_pass : (String → String) → (Json → String) → MainRun → LedgerEntry → MainPass
new_pass sha256 json_text run entry = record {
  sha = run.sha;
  at = run.at;
  run = run.run;
  recorded_at = run.recorded_at;
  entry = main_pass_entry_digest sha256 json_text entry;
}

-- The test of the passes that are carried forward.
unfoldable pub is_carried :
    MainRun → (String → Bool) → List (String × LedgerEntry) → (String × MainPass) → Bool
is_carried run behind entries (id, pass) =
    has (map (λ e. e.0) entries) id || not (is_mine run behind pass)

module _ (sha256 : String → String) (json_text : Json → String) (run : MainRun)
    (behind : String → Bool) where
  -- One criterion, with the entry and the pass that are found for it.
  abbrev pub record_found :
      List (String × MainPass)
      → String
      → Option LedgerEntry
      → Option MainPass
      → List (String × MainPass)
  record_found passes id none had = passes
  record_found passes id (some entry) none =
      if is_active entry.status
      then insert id (new_pass sha256 json_text run entry) passes
      else passes
  record_found passes id (some entry) (some had) =
      if is_active entry.status && is_mine run behind had
      then insert id (new_pass sha256 json_text run entry) passes
      else passes

module _ (sha256 : String → String) (json_text : Json → String) (run : MainRun)
    (behind : String → Bool) (entries : List (String × LedgerEntry)) where
  unfoldable pub record_one : List (String × MainPass) → String → List (String × MainPass)
  record_one passes id =
      record_found sha256 json_text run behind passes id (lookup id entries) (lookup id passes)

  unfoldable pub record_all : List String → List (String × MainPass) → List (String × MainPass)
  record_all [] passes = passes
  record_all (id ∷ ids) passes = record_all ids (record_one passes id)

-- The passes before they are written and read back.
unfoldable pub recorded_passes :
    (String → String)
    → (Json → String)
    → List (String × MainPass)
    → MainRun
    → List String
    → List LedgerEntry
    → (String → Bool)
    → List (String × MainPass)
recorded_passes sha256 json_text store run criteria ledger behind =
    let entries = entries_by_criterion ledger in
    record_all sha256 json_text run behind entries criteria
      (filter (is_carried run behind entries) store)

unfoldable pub record_main_passes :
    (String → String)
    → (Json → String)
    → (Json → String)
    → (String → Option Json)
    → List (String × MainPass)
    → MainRun
    → List String
    → List LedgerEntry
    → (String → Bool)
    → Fallible (List (String × MainPass))
record_main_passes sha256 json_text json_pretty json_parse store run criteria ledger behind = do
  text ←
      serialize_main_passes json_pretty json_parse
        (recorded_passes sha256 json_text store run criteria ledger behind)
  parse_main_passes json_parse text

unfoldable pub standing_from :
    (String → String)
    → (Json → String)
    → List (String × MainPass)
    → List LedgerEntry
    → List (String × MainPass)
    → List (String × MainPass)
standing_from sha256 json_text store [] standing = standing
standing_from sha256 json_text store (entry ∷ entries) standing =
    standing_from sha256 json_text store entries (elim (main_pass_of store entry.criterion) [
      | none ↦ standing
      | some pass ↦
          if pass.entry == main_pass_entry_digest sha256 json_text entry
          then insert entry.criterion pass standing
          else standing
    ])

unfoldable pub standing_main_passes :
    (String → String)
    → (Json → String)
    → List (String × MainPass)
    → List LedgerEntry
    → List (String × MainPass)
standing_main_passes sha256 json_text store ledger = standing_from sha256 json_text store ledger []
