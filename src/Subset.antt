-- ===== src/Subset.antt =====
-- packages/core/src/subset.ts: the criteria that a run is asked for by name, and the plan that runs
-- them. The message of a refusal names its first words alone.
pub mod Served
pub mod Active
use qare.Prelude.{
  ℕ, String, Bool, true, false, ◌&&◌, ◌||◌, not, Option, none, some, List, [], ◌∷◌, ◌++◌, map,
  filter, find, filter_map, is_empty, has, get_or, template, sort_by, if◌then◌else◌, ◌==◌,
}
use qare.Fallible.{Fallible, ok, threw, ◌>>=◌, ◌>>◌, ensure}
use qare.Ledger.Types.{LedgerStatus, LedgerEntry, proposed, active, superseded, retired, is_active}
use qare.Selection.{CheckTarget, suite_of, targets_of}

pub record ResolvedCriterion : Type 0 where
  pub id : String
  pub text : String
  pub suites : List String

-- `entries.find((candidate) => candidate.criterion === id)`.
abbrev pub entry_of : List LedgerEntry → String → Option LedgerEntry
entry_of entries id = find (λ (e : LedgerEntry). e.criterion == id) entries

-- The loop that refuses an id named twice.
unfoldable pub check_named : List String → List String → Fallible (Unit {0})
check_named seen [] = ok tt
check_named seen (id ∷ ids) = do
  ensure (not (has seen id)) "named more than once"
  check_named (id ∷ seen) ids

-- Why an id cannot be served.
unfoldable pub offence : List LedgerEntry → String → Option String
offence entries id = elim (entry_of entries id) [
  | none ↦ some (template (id ∷ " is not in the ledger" ∷ []))
  | some entry ↦ elim entry.status [
    | retired ↦ some (template (id ∷ " is retired" ∷ []))
    | superseded ↦ some (template (id ∷ " is superseded" ∷ []))
    | _ ↦ none
  ]
]

resolved : LedgerEntry → String → ResolvedCriterion
resolved entry id = record {
  id = id;
  text = get_or entry.text entry.criterion;
  suites = filter_map suite_of (targets_of entry);
}

-- The ids that were served, in order. An id without an entry does not get here.
unfoldable pub resolve_all : List LedgerEntry → List String → Fallible (List ResolvedCriterion)
unfolding resolved
resolve_all entries [] = ok []
resolve_all entries (id ∷ ids) = elim (entry_of entries id) [
  | none ↦ threw "TypeError"
  | some entry ↦ do rest ← resolve_all entries ids; ok (resolved entry id ∷ rest)
]

unfoldable pub resolve_criteria_subset :
    List LedgerEntry → List String → Fallible (List ResolvedCriterion)
unfolding check_named offence resolve_all
resolve_criteria_subset entries ids = do
  ensure (not (is_empty ids)) "no criteria named"
  check_named [] ids
  ensure (is_empty (filter_map (offence entries) ids)) "refused"
  resolve_all entries ids

-- A check by a suite: its name and the suite are the same.
pub record FlowCheck : Type 0 where
  pub name : String
  pub suite : String

pub data PlanWork : Type 0 where
  unplannable : String → PlanWork
  checked_by : List FlowCheck → PlanWork

pub record PlanCriterion : Type 0 where
  pub id : String
  pub text : String
  pub work : PlanWork

unfoldable pub plan_of : ResolvedCriterion → PlanCriterion
plan_of criterion = record {
  id = criterion.id;
  text = criterion.text;
  work =
      if is_empty criterion.suites
      then unplannable
          "its ledger checks name no suite, so the runner has nothing to execute for it"
      else checked_by (map (λ s. record { name = s; suite = s }) criterion.suites);
}

-- The plan's criteria; its schema version is a constant.
unfoldable pub criteria_subset_plan : List ResolvedCriterion → List PlanCriterion
criteria_subset_plan criteria = map plan_of criteria

-- The criteria of the active entries, in order.
unfoldable pub active_ids : List LedgerEntry → List String
active_ids entries =
    sort_by (λ id. id)
      (map (λ (e : LedgerEntry). e.criterion)
        (filter (λ (e : LedgerEntry). is_active e.status) entries))

-- `none` where the ledger holds no active criterion.
unfoldable pub ledger_active_plan : List LedgerEntry → Fallible (Option (List PlanCriterion))
ledger_active_plan entries = if is_empty (active_ids entries) then ok none else (do
  criteria ← resolve_criteria_subset entries (active_ids entries)
  ok (some (criteria_subset_plan criteria)))
