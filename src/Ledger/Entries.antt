-- ===== src/Ledger/Entries.antt =====
-- The strict reader of one ledger entry in packages/core/src/ledger.ts: `sourceLinks`, `parseEntry` and
-- `parseResolution`.
use qare.Prelude.{
  ℕ, ◌+◌, String, Bool, true, false, ◌&&◌, ◌||◌, Option, none, some, List, [], ◌∷◌, leb, nat_eq,
  length, codes, distinct, template, strip_prefix, all_chars, if◌then◌else◌,
}
use qare.Fallible.{Fallible, ok, threw, ◌>>=◌, ◌>>◌, ensure}
use qare.Json.{Json, Fields, keys, get, as_text, as_array, as_record, is_text}
use qare.Ledger.Types.{
  LedgerStatus, LedgerResolution, LedgerEntry, status_of, validate_criterion_id, non_empty_string,
  one_line_string, only_keys, at_index,
}
use qare.Ledger.History.{parse_ids}

-- `${field}.${key}`.
abbrev pub at_key : String → String → String
at_key at key = template (at ∷ "." ∷ key ∷ [])

-- An array's elements, or the refusal of what is no array.
abbrev pub items_at : Option Json → String → Fallible (List Json)
items_at value at = elim (as_array value) [ none ↦ threw at | some js ↦ ok js ]

-- Strings of one line each: `source` and `checks`.
unfoldable pub parse_lines : String → ℕ → List Json → Fallible (List String)
parse_lines at n [] = ok []
parse_lines at n (j ∷ js) = do
  first ← one_line_string (some j) (at_index at n)
  rest ← parse_lines at (n + 1) js
  ok (first ∷ rest)

unfoldable pub source_links : Option Json → String → Fallible (List String)
unfolding parse_lines
source_links value at = do js ← items_at value at; parse_lines at 0 js

unfoldable pub parse_status : Option Json → String → Fallible LedgerStatus
parse_status value at = elim (as_text value) [
  | none ↦ threw at
  | some s ↦ elim (status_of s) [ none ↦ threw at | some status ↦ ok status ]
]

-- A property that is read only where it is there.
abbrev pub when_there {ℓ} :
    {A : Type ℓ} → (Option Json → Fallible A) → Option Json → Fallible (Option A)
when_there read none = ok none
when_there read (some j) = read (some j) >>= λ a. ok (some a)

-- `supersedes`: criterion ids, none of them twice.
unfoldable pub parse_supersedes : String → Option Json → Fallible (List String)
unfolding parse_ids
parse_supersedes at value = do
  js ← items_at value at
  ids ← parse_ids at 0 js
  ensure (nat_eq (length (distinct ids)) (length ids)) at
  ok ids

is_hex : ℕ → Bool
is_hex c = (leb b'0' c && leb c b'9') || (leb b'a' c && leb c b'f')

-- `QUESTION_ID_PATTERN`.
unfoldable pub is_question_id : String → Bool
unfolding is_hex
is_question_id s = elim (strip_prefix "q-" s) [
  | none ↦ false
  | some rest ↦ nat_eq (length (codes rest)) 16 && all_chars is_hex rest
]

unfoldable pub parse_classification : Option Json → String → Fallible Bool
parse_classification value at =
    if is_text "supersede" value
    then ok true
    else if is_text "regression" value
    then ok false
    else threw at

abbrev pub fields_at : Json → String → Fallible Fields
fields_at value at = elim (as_record value) [ none ↦ threw at | some fs ↦ ok fs ]

abbrev pub resolution_keys : List String
resolution_keys = "question" ∷ "classification" ∷ "by" ∷ "why" ∷ "at" ∷ []

unfoldable pub parse_resolution_fields : String → Fields → Fallible LedgerResolution
parse_resolution_fields field fs = do
  only_keys resolution_keys field (keys fs)
  question ← non_empty_string (get "question" fs) (at_key field "question")
  ensure (is_question_id question) (at_key field "question")
  is_supersede ← parse_classification (get "classification" fs) (at_key field "classification")
  by ← one_line_string (get "by" fs) (at_key field "by")
  why ← one_line_string (get "why" fs) (at_key field "why")
  at ← one_line_string (get "at" fs) (at_key field "at")
  ok (record { question = question; is_supersede = is_supersede; by = by; why = why; at = at })

unfoldable pub parse_resolution : String → Option Json → Fallible LedgerResolution
unfolding parse_resolution_fields
parse_resolution field none = threw field
parse_resolution field (some value) = do
  fs ← fields_at value field
  parse_resolution_fields field fs

abbrev pub entry_keys : List String
entry_keys =
    "criterion" ∷ "status" ∷ "source" ∷ "proof" ∷ "note" ∷ "supersedes" ∷ "text" ∷ "checks"
    ∷ "resolution" ∷ []

unfoldable pub parse_entry_fields : String → Fields → Fallible LedgerEntry
parse_entry_fields field fs = do
  only_keys entry_keys field (keys fs)
  name ← non_empty_string (get "criterion" fs) (at_key field "criterion")
  criterion ← validate_criterion_id name (at_key field "criterion")
  status ← parse_status (get "status" fs) (at_key field "status")
  proof ← one_line_string (get "proof" fs) (at_key field "proof")
  source ← source_links (get "source" fs) (at_key field "source")
  note ← when_there (λ j. one_line_string j (at_key field "note")) (get "note" fs)
  supersedes ← when_there (parse_supersedes (at_key field "supersedes")) (get "supersedes" fs)
  text ← when_there (λ j. one_line_string j (at_key field "text")) (get "text" fs)
  checks ← when_there (λ j. source_links j (at_key field "checks")) (get "checks" fs)
  resolution ← when_there (parse_resolution (at_key field "resolution")) (get "resolution" fs)
  ok (record {
    criterion = criterion;
    status = status;
    source = source;
    proof = proof;
    note = note;
    supersedes = supersedes;
    text = text;
    checks = checks;
    resolution = resolution;
  })

unfoldable pub parse_entry : Json → String → Fallible LedgerEntry
unfolding parse_entry_fields
parse_entry entry field = do fs ← fields_at entry field; parse_entry_fields field fs
