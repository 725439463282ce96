-- ===== src/Judge/Findings.antt =====
-- The verifier's findings: how they are read (`parseVerifierFindings`) and what they can do
-- (`consumeVerifierFindings`), of packages/core/src/judge.ts.
pub mod Downgrade
use qare.Prelude.{
  String, Bool, true, false, ◌||◌, not, Option, none, some, List, [], ◌∷◌, map, find, has, trim,
  is_blank, template, get_or, if◌then◌else◌, ◌==◌,
}
use qare.Json.{
  Json, text, arr, obj, Items, nil, cons, Fields, items, get, as_text, as_array, is_text,
}
use qare.Result.{CriterionOutcome, proven, failed, unverified, is_proven}
use qare.Judge.Run.{CriterionVerdict}
use qare.Judge.Claims.{VerifierClaim}

-- `kind` and `evidence` are whatever the answer holds under those names: only the id and the problem
-- are checked to be strings.
pub record VerifierFinding : Type 0 where
  pub criterion_id : String
  pub problem : String
  pub kind : Option Json
  pub evidence : Option Json

abbrev finding_fields : Option String → Option String → Fields → Option VerifierFinding
finding_fields (some id) (some problem) fs = some (record {
  criterion_id = id;
  problem = problem;
  kind = get "kind" fs;
  evidence = get "evidence" fs;
})
finding_fields _ _ fs = none

abbrev finding_of : Json → Option VerifierFinding
finding_of (obj fs) =
    finding_fields (as_text (get "criterionId" fs)) (as_text (get "problem" fs)) fs
finding_of _ = none

-- `findings.every(…)`, with the findings.
abbrev all_findings : List Json → Option (List VerifierFinding)
all_findings [] = some []
all_findings (j ∷ js) = elim (finding_of j) [
  | none ↦ none
  | some f ↦ elim (all_findings js) [ none ↦ none | some fs ↦ some (f ∷ fs) ]
]

abbrev findings_in : Json → Option (List VerifierFinding)
findings_in (arr js) = all_findings (items js)
findings_in (obj fs) = elim (as_array (get "findings" fs)) [
  | none ↦ none
  | some js ↦ all_findings js
]
findings_in _ = none

-- `json_parse` is `JSON.parse`, `none` where it throws. An output that is no string is `none`.
unfoldable pub parse_verifier_findings :
    (String → Option Json) → Option String → Option (List VerifierFinding)
parse_verifier_findings json_parse none = none
parse_verifier_findings json_parse (some output) = elim (json_parse output) [
  | none ↦ none
  | some parsed ↦ findings_in parsed
]

-- What the run handed the verifier: the only things that a citation counts for.
pub record Trusted : Type 0 where
  pub claims : List VerifierClaim
  pub diff : String

abbrev saved_for : Option VerifierClaim → List String
saved_for none = []
saved_for (some claim) = claim.evidence

-- `cites`: what a contradiction shows it by, if it names something that was handed over.
unfoldable pub cites : Trusted → VerifierFinding → Option String
cites trusted f =
    let cited = trim (get_or (as_text f.evidence) "") in
    if not (is_text "contradicted" f.kind) || cited == ""
    then none
    else if cited == "diff"
    then (if is_blank trusted.diff then none else some cited)
    else if has
        (saved_for
          (find (λ (claim : VerifierClaim). claim.criterion_id == f.criterion_id) trusted.claims))
        cited
    then some cited
    else none

-- A finding against a proven criterion takes the pass away.
unfoldable pub downgraded : Trusted → CriterionVerdict → VerifierFinding → CriterionVerdict
downgraded trusted c f = elim (cites trusted f) [
  | some shown_by ↦ record c {
    outcome = failed;
    reason = template ("verifier: " ∷ f.problem ∷ " (" ∷ shown_by ∷ ")" ∷ []);
  }
  | none ↦ record c { outcome = unverified; reason = template ("verifier: " ∷ f.problem ∷ []) }
]

-- The `Map` of the first finding for each id, at one id.
abbrev pub first_finding : List VerifierFinding → String → Option VerifierFinding
first_finding findings id = find (λ (f : VerifierFinding). f.criterion_id == id) findings

unfoldable pub consume_one : List VerifierFinding → Trusted → CriterionVerdict → CriterionVerdict
consume_one findings trusted c = elim (first_finding findings c.criterion_id) [
  | none ↦ c
  | some f ↦ if is_proven c.outcome then downgraded trusted c f else c
]

unfoldable pub consume_verifier_findings :
    List CriterionVerdict → List VerifierFinding → Trusted → List CriterionVerdict
unfolding consume_one downgraded cites has
consume_verifier_findings criteria findings trusted = map (consume_one findings trusted) criteria
