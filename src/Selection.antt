-- ===== src/Selection.antt =====
-- packages/core/src/selection.ts: which criteria a change selects, within a budget. Costs and budgets
-- are whole milliseconds.
pub mod Budget
pub mod Report
use Prim.Native.String
use qare.Prelude.{
  ℕ, suc, ◌+◌, ◌*◌, max, String, Bool, true, false, ◌&&◌, ◌||◌, not, Option, none, some, List, [],
  ◌∷◌, ◌++◌, any, length, filter_map, is_empty, any_char, is_space, is_control, nat_eq, leb, get_or,
  strip_prefix, has_prefix, is_some, template, sort_by, if◌then◌else◌, ◌==◌,
}
use qare.Ledger.Types.{
  LedgerStatus, LedgerEntry, proposed, active, superseded, retired, status_text,
}

pub data CheckTarget : Type 0 where
  suite_target : String → CheckTarget
  path_target : String → CheckTarget

-- `check.slice(0, at)` where `at` is the first colon, and the whole text where there is none.
before_colon : String → String
before_colon String.[] = ""
before_colon (String.◌∷◌ c s) =
    let rest = before_colon s in
    if nat_eq (Prim.Native.Char.code c) b':' then "" else String.◌∷◌ c rest

-- `path.split('/')`.
segments : String → String × List String
segments String.[] = ("", [])
segments (String.◌∷◌ c s) =
    let (first, rest) = segments s in
    if nat_eq (Prim.Native.Char.code c) b'/' then ("", first ∷ rest) else (String.◌∷◌ c first, rest)

unfoldable pub canonical_path : String → Bool
unfolding segments
canonical_path path =
    not (any_char (λ c. nat_eq c 92) path)
    && not (any (λ s. s == "" || s == "." || s == "..") ((segments path).0 ∷ (segments path).1))
    && not (any_char is_control path)

unfoldable pub check_target : String → Option CheckTarget
unfolding before_colon
check_target check = elim (strip_prefix "suite:" check) [
  | some suite ↦
      if suite == "" || any_char (λ c. is_space c || nat_eq c b':') suite
      then none
      else some (suite_target suite)
  | none ↦
      if canonical_path (before_colon check) then some (path_target (before_colon check)) else none
]

abbrev pub path_under_area : String → String → Bool
path_under_area touched area =
    area == "." || touched == area || has_prefix (template (area ∷ "/" ∷ [])) touched

unfoldable pub overlaps : String → String → Bool
overlaps touched path = path_under_area touched path || path_under_area path touched

pub data SelectedReason : Type 0 where
  impact smoke unmapped : SelectedReason

pub data UnselectedReason : Type 0 where
  unaffected budget : UnselectedReason
  -- `status`, with the status as its detail
  by_status : String → UnselectedReason

pub record SelectedCriterion : Type 0 where
  pub criterion : String
  pub text : Option String
  pub reason : SelectedReason

pub record UnselectedCriterion : Type 0 where
  pub criterion : String
  pub text : Option String
  pub reason : UnselectedReason

pub record SelectionReport : Type 0 where
  pub selected : List SelectedCriterion
  pub not_selected : List UnselectedCriterion
  pub touched : List String
  pub budget_ms : ℕ
  pub estimated_ms : ℕ

pub record SelectionOptions : Type 0 where
  pub touched : List String
  pub budget_ms : Option ℕ
  pub smoke_suite : Option String
  pub check_cost_ms : Option ℕ

-- An entry that waits for the budget: its cost, and whether it stands above it.
pub record Candidate : Type 0 where
  pub item : SelectedCriterion
  pub cost : ℕ
  pub standing : Bool

pub record Buckets : Type 0 where
  pub impact_set : List Candidate
  pub smoke_set : List Candidate
  pub unmapped_set : List Candidate
  pub left_out : List UnselectedCriterion

abbrev pub suite_of : CheckTarget → Option String
suite_of (suite_target s) = some s
suite_of (path_target p) = none

abbrev pub path_of : CheckTarget → Option String
path_of (suite_target s) = none
path_of (path_target p) = some p

abbrev pub targets_of : LedgerEntry → List CheckTarget
targets_of entry = filter_map check_target (get_or entry.checks [])

abbrev pub is_smoke : String → LedgerEntry → Bool
is_smoke smoke_suite entry = any (λ s. s == smoke_suite) (filter_map suite_of (targets_of entry))

abbrev pub is_impact : List String → LedgerEntry → Bool
is_impact touched entry =
    any (λ path. any (λ t. overlaps t path) touched) (filter_map path_of (targets_of entry))

abbrev pub cost_of : ℕ → LedgerEntry → ℕ
cost_of check_cost_ms entry = max 1 (length (get_or entry.checks [])) * check_cost_ms

left : LedgerEntry → UnselectedReason → Buckets → Buckets
left entry why buckets = record buckets {
  left_out =
      buckets.left_out
      ++ record { criterion = entry.criterion; text = entry.text; reason = why } ∷ [];
}

candidate : ℕ → LedgerEntry → SelectedReason → Bool → Candidate
candidate check_cost_ms entry why standing = record {
  item = record { criterion = entry.criterion; text = entry.text; reason = why };
  cost = cost_of check_cost_ms entry;
  standing = standing;
}

module _ (touched : List String) (smoke_suite : String) (check_cost_ms : ℕ) where
  -- A proposed or active entry: the body of the first loop after the status.
  sort_live : LedgerEntry → Buckets → Buckets
  unfolding left candidate
  sort_live entry buckets =
      if is_impact touched entry
      then record buckets {
        impact_set =
            buckets.impact_set
            ++ candidate check_cost_ms entry impact (is_smoke smoke_suite entry) ∷ [];
      }
      else if is_smoke smoke_suite entry
      then record buckets {
        smoke_set = buckets.smoke_set ++ candidate check_cost_ms entry smoke true ∷ [];
      }
      else if is_empty (filter_map path_of (targets_of entry))
      then record buckets {
        unmapped_set = buckets.unmapped_set ++ candidate check_cost_ms entry unmapped false ∷ [];
      }
      else left entry unaffected buckets

  unfoldable pub sort_entry : LedgerEntry → Buckets → Buckets
  unfolding sort_live
  sort_entry entry buckets = elim entry.status [
    | superseded ↦ left entry (by_status "superseded") buckets
    | retired ↦ left entry (by_status "retired") buckets
    | _ ↦ sort_live entry buckets
  ]

  unfoldable pub sort_entries : List LedgerEntry → Buckets → Buckets
  sort_entries [] buckets = buckets
  sort_entries (e ∷ es) buckets = sort_entries es (sort_entry e buckets)

-- What the last three loops keep.
pub record Filled : Type 0 where
  pub chosen : List SelectedCriterion
  pub cut : List UnselectedCriterion
  pub spent : ℕ

-- One candidate: it is selected if it stands or fits.
unfoldable pub fill_one : ℕ → Candidate → Filled → Filled
fill_one budget_ms c filled =
    if c.standing || leb (filled.spent + c.cost) budget_ms
    then record filled { chosen = filled.chosen ++ c.item ∷ []; spent = filled.spent + c.cost }
    else record filled {
      cut =
          filled.cut
          ++ record { criterion = c.item.criterion; text = c.item.text; reason = budget } ∷ [];
    }

unfoldable pub fill : ℕ → List Candidate → Filled → Filled
fill budget_ms [] filled = filled
fill budget_ms (c ∷ cs) filled = fill budget_ms cs (fill_one budget_ms c filled)

abbrev pub no_buckets : Buckets
no_buckets = record { impact_set = []; smoke_set = []; unmapped_set = []; left_out = [] }

unfoldable pub select_criteria : List LedgerEntry → SelectionOptions → SelectionReport
select_criteria entries options =
    let touched = sort_by (λ t. t) options.touched in
    let budget_ms = get_or options.budget_ms 900000 in
    let buckets =
      sort_entries touched (get_or options.smoke_suite "smoke") (get_or options.check_cost_ms 60000)
        (sort_by (λ (e : LedgerEntry). e.criterion) entries) no_buckets in
    let start : Filled = record { chosen = []; cut = buckets.left_out; spent = 0 } in
    let filled =
      fill budget_ms buckets.unmapped_set
        (fill budget_ms buckets.impact_set (fill budget_ms buckets.smoke_set start)) in
    record {
      selected = filled.chosen;
      not_selected = filled.cut;
      touched = touched;
      budget_ms = budget_ms;
      estimated_ms = filled.spent;
    }
