-- ===== src/Ledger/Types.antt =====
-- The data of packages/core/src/ledger.ts, and the checks that its readers share.
use qare.Prelude.{
  ℕ, String, Bool, true, false, ◌&&◌, ◌||◌, not, Option, none, some, List, [], ◌∷◌, any_char,
  nat_eq, is_blank, has_newline, is_control, includes_text, template, decimal, if◌then◌else◌, ◌==◌,
  has,
}
use qare.Fallible.{Fallible, ok, threw, ◌>>=◌, ◌>>◌, ensure}
use qare.Json.{Json, text}

pub data LedgerStatus : Type 0 where
  proposed active superseded retired : LedgerStatus

abbrev pub status_text : LedgerStatus → String
status_text proposed = "proposed"
status_text active = "active"
status_text superseded = "superseded"
status_text retired = "retired"

abbrev pub is_active : LedgerStatus → Bool
is_active active = true
is_active _ = false

abbrev pub is_proposed : LedgerStatus → Bool
is_proposed proposed = true
is_proposed _ = false

-- `LEDGER_STATUSES.includes(value)`, with the status.
abbrev pub status_of : String → Option LedgerStatus
status_of s =
    if s == "proposed"
    then some proposed
    else if s == "active"
    then some active
    else if s == "superseded"
    then some superseded
    else if s == "retired"
    then some retired
    else none

pub data LedgerChangeKind : Type 0 where
  ingest verify supersede regression retire import_ : LedgerChangeKind

abbrev pub kind_text : LedgerChangeKind → String
kind_text ingest = "ingest"
kind_text verify = "verify"
kind_text supersede = "supersede"
kind_text regression = "regression"
kind_text retire = "retire"
kind_text import_ = "import"

-- `LEDGER_CHANGE_KINDS.includes(value)`, with the kind.
abbrev pub kind_of : String → Option LedgerChangeKind
kind_of s =
    if s == "ingest"
    then some ingest
    else if s == "verify"
    then some verify
    else if s == "supersede"
    then some supersede
    else if s == "regression"
    then some regression
    else if s == "retire"
    then some retire
    else if s == "import"
    then some import_
    else none

pub record LedgerResolution : Type 0 where
  pub question : String
  -- `supersede`, and not `regression`
  pub is_supersede : Bool
  pub by : String
  pub why : String
  pub at : String

pub record LedgerEntry : Type 0 where
  pub criterion : String
  pub status : LedgerStatus
  pub source : List String
  pub proof : String
  pub note : Option String
  pub supersedes : Option (List String)
  pub text : Option String
  pub checks : Option (List String)
  pub resolution : Option LedgerResolution

-- What `validateCriterionId` takes.
unfoldable pub is_criterion_id : String → Bool
is_criterion_id id =
    not (any_char (λ c. nat_eq c b':') id)
    && not (any_char (λ c. nat_eq c b'/' || nat_eq c 92) id || includes_text ".." id)
    && not (any_char is_control id)

unfoldable pub validate_criterion_id : String → String → Fallible String
validate_criterion_id id at = do ensure (is_criterion_id id) at; ok id

-- `nonEmptyString`: a string that is not blank.
unfoldable pub non_empty_string : Option Json → String → Fallible String
non_empty_string (some (text s)) at = do ensure (not (is_blank s)) at; ok s
non_empty_string _ at = threw at

-- A string that is not blank and holds no line end.
unfoldable pub one_line_string : Option Json → String → Fallible String
unfolding non_empty_string
one_line_string value at = do s ← non_empty_string value at; ensure (not (has_newline s)) at; ok s

-- `for (const key of Object.keys(value)) if (!allowed.has(key)) fail(`${field}.${key}`, …)`.
unfoldable pub only_keys : List String → String → List String → Fallible (Unit {0})
only_keys allowed at [] = ok tt
only_keys allowed at (k ∷ ks) = do
  ensure (has allowed k) (template (at ∷ "." ∷ k ∷ []))
  only_keys allowed at ks

-- `${field}[${index}]`.
abbrev pub at_index : String → ℕ → String
at_index at n = template (at ∷ "[" ∷ decimal n ∷ "]" ∷ [])
