-- ===== src/Waivers.antt =====
-- packages/core/src/waiver.ts: a comment waives named criteria of a result (`parseWaiver`,
-- `recordWaiver`). The refusal of a fork is not modelled.
pub mod Recorded
use Prim.Native.Char.{code}
use Prim.Native.String
use qare.Prelude.{
  ℕ, String, Bool, true, false, ◌&&◌, ◌||◌, not, Option, none, some, List, [], ◌∷◌, ◌++◌, map,
  filter, any, all, any_char, all_chars, has, distinct, get_or, trim, is_space, is_one_line,
  is_control, skip_spaces, strip_prefix, starts_with_space, includes_text, template, is_empty,
  nat_eq, leb, if◌then◌else◌, ◌==◌,
}
use qare.Result.{
  is_failed, is_unverified, outcome_of, Finding, was_unverified, CriterionResult, Waiver, RunResult,
}
use qare.Result.Verdict.{RunVerdict, blocked, waived, is_refused}

-- What a comment waives, or why it is no waiver.
pub data ParsedWaiver : Type 0 where
  criterion_ids : List String → ParsedWaiver
  rejected : String → ParsedWaiver

-- `[,\s]`.
is_separator : ℕ → Bool
is_separator c = nat_eq c b',' || is_space c

-- `raw.split(/[,\s]+/).filter((id) => id !== '')`, with the id that is being read.
split_ids : String → String → List String
unfolding is_separator
split_ids cur String.[] = if cur == "" then [] else cur ∷ []
split_ids cur (String.◌∷◌ c s) =
    let next = split_ids "" s in
    let longer = split_ids (String.◌++◌ cur (String.◌∷◌ c "")) s in
    if is_separator (code c) then (if cur == "" then next else cur ∷ next) else longer

unfoldable pub is_waivable_id : String → Bool
is_waivable_id id =
    not (any_char (λ c. nat_eq c b':') id)
    && not (any_char (λ c. nat_eq c b'/' || nat_eq c 92) id || includes_text ".." id)
    && not (any_char is_control id)

-- The match of `/^\/qa-waive\s+(.+)$/` in a trimmed body.
waive_command : String → Option String
waive_command body = elim (strip_prefix "/qa-waive" body) [
  | none ↦ none
  | some rest ↦
      let named = skip_spaces rest in
      if starts_with_space rest && is_one_line named && not (named == "") then some named else none
]

no_command : Option String → ParsedWaiver
no_command (some name) =
    if name == "qa-waived"
    then rejected "qa-waived label names no criteria; comment /qa-waive <ids> instead"
    else rejected "not a /qa-waive command"
no_command none = rejected "not a /qa-waive command"

named_ids : String → ParsedWaiver
unfolding is_waivable_id split_ids
named_ids raw =
    let ids = filter is_waivable_id (distinct (split_ids "" raw)) in
    if is_empty ids then rejected "no valid criterion ids" else criterion_ids ids

-- The arguments are the comment's body and the label, `none` where there is none.
unfoldable pub parse_waiver : Option String → Option String → ParsedWaiver
unfolding waive_command no_command named_ids
parse_waiver none label = no_command label
parse_waiver (some body) label = elim (waive_command (trim body)) [
  | none ↦ no_command label
  | some raw ↦ named_ids raw
]

-- `deriveWaivedVerdict`.
unfoldable pub derive_waived_verdict : List CriterionResult → List String → RunVerdict
derive_waived_verdict criteria waived_ids =
    if any (λ (c : CriterionResult). is_failed (outcome_of c.finding)) criteria
    then RunVerdict.failed
    else if all (λ (c : CriterionResult). has waived_ids c.id)
        (filter (λ (c : CriterionResult). is_unverified (outcome_of c.finding)) criteria)
    then waived
    else blocked

-- The criterion as a waiver leaves it: its id, its outcome and the reason are all that is kept.
unfoldable pub waive_one : List String → String → CriterionResult → CriterionResult
waive_one named by c =
    if has named c.id
    then (record {
      id = c.id;
      finding = was_unverified (template ("waived by " ∷ by ∷ [])) none;
      base = none;
      regression = none;
      a11y = none;
      mail = none;
      repairs = none;
      cached = false;
    })
    else c

-- The ids of criteria of this run that the waiver names.
unfoldable pub named_on_run : List CriterionResult → List String → List String
named_on_run criteria ids =
    distinct (
      map (λ (c : CriterionResult). c.id) (filter (λ (c : CriterionResult). has ids c.id) criteria))

-- `/[\u202A-\u202E\u2066-\u2069]/`.
is_bidi : ℕ → Bool
is_bidi c = (leb 0x202a c && leb c 0x202e) || (leb 0x2066 c && leb c 0x2069)

without_bidi : String → String
unfolding is_bidi
without_bidi String.[] = ""
without_bidi (String.◌∷◌ c s) =
    let rest = without_bidi s in if is_bidi (code c) then rest else String.◌∷◌ c rest

-- Each run of control characters becomes one space; `in_run` says that one was just read.
spaced : Bool → String → String
spaced in_run String.[] = ""
spaced in_run (String.◌∷◌ c s) =
    let inside = spaced true s in
    let outside = String.◌∷◌ c (spaced false s) in
    if is_control (code c) then (if in_run then inside else String.◌++◌ " " inside) else outside

unfoldable pub sanitize_actor : String → String
unfolding without_bidi spaced
sanitize_actor by = trim (spaced false (without_bidi by))

-- `actor` is who waives, as the caller names them.
unfoldable pub record_waiver : RunResult → List String → String → RunResult
unfolding waive_one named_on_run
record_waiver result ids actor =
    let by = sanitize_actor actor in
    let named = named_on_run result.criteria ids in
    let criteria = map (waive_one named by) result.criteria in
    let earlier = map (λ (w : Waiver). w.criterion_id) (get_or result.waived []) in
    if is_refused result.verdict || is_empty named || by == "" then result else record result {
      verdict = derive_waived_verdict criteria (named ++ earlier);
      criteria = criteria;
      waived = some (map (λ id. record { criterion_id = id; by = by }) named);
    }
