-- ===== src/Judge/Claims.antt =====
-- What the verifier is handed (`verifierEvidence`, `prepareVerifierInputs`, `verifyBatchSize`) of
-- packages/core/src/judge.ts, and `outputBudget` of packages/core/src/runner.ts.
use qare.Prelude.{
  ℕ, String, Bool, true, not, Option, none, some, List, [], ◌∷◌, map, filter, has, lookup, is_blank,
  is_one_line, strip_suffix, trim, template, positive_integer, get_or, filter_map, if◌then◌else◌,
  ◌==◌,
}
use qare.Result.{unverified, is_proven}
use qare.Judge.Run.{CriterionVerdict}

pub record VerifierClaim : Type 0 where
  pub criterion_id : String
  pub text : String
  pub evidence : List String

pub record VerifierInputs : Type 0 where
  pub criteria : List CriterionVerdict
  pub claims : List VerifierClaim
  pub diff : String
  pub batch_size : Option ℕ

-- A setting that is read from the environment, or the message of the error that reading it throws.
pub data Setting : Type 0 where
  set_to : ℕ → Setting
  unreadable : String → Setting

setting_of : String → String → ℕ → Option String → Setting
setting_of name what default raw_value =
    let raw = trim (get_or raw_value "") in
    if raw == "" then set_to default else elim (positive_integer raw) [
      | some n ↦ set_to n
      | none ↦ unreadable (template (name ∷ " is \"" ∷ raw ∷ "\", and the " ∷ what ∷ []))
    ]

-- The argument is the value of `QARE_VERIFY_BATCH_SIZE`.
unfoldable pub verify_batch_size : Option String → Setting
unfolding setting_of
verify_batch_size =
    setting_of "QARE_VERIFY_BATCH_SIZE"
      "verifier batch size is a whole number of criteria above zero" 1

-- The argument is the value of `QARE_MAX_OUTPUT_TOKENS`.
unfoldable pub output_budget : Option String → Setting
unfolding setting_of
output_budget =
    setting_of "QARE_MAX_OUTPUT_TOKENS" "output budget is a whole number of tokens above zero" 16384

-- The bounded end that stands in for a stream, `none` for a path that is no stream.
tail_of : String → String → Option String
tail_of stream path =
    if path == template (stream ∷ ".txt" ∷ [])
    then some (template (stream ∷ ".tail.txt" ∷ []))
    else elim (strip_suffix (template ("/" ∷ stream ∷ ".txt" ∷ [])) path) [
      | none ↦ none
      | some dir ↦
          if is_one_line dir then some (template (dir ∷ "/" ∷ stream ∷ ".tail.txt" ∷ [])) else none
    ]

-- The match of `/^(.*\/)?(stdout|stderr)\.txt$/`, as the tail's path.
abbrev stream_tail : String → Option String
stream_tail path = elim (tail_of "stdout" path) [ some t ↦ some t | none ↦ tail_of "stderr" path ]

abbrev keeps_evidence : List String → Option String → Bool
keeps_evidence saved none = true
keeps_evidence saved (some t) = not (has saved t)

unfoldable pub verifier_evidence : List String → List String
unfolding tail_of strip_suffix has
verifier_evidence evidence = filter (λ path. keeps_evidence evidence (stream_tail path)) evidence

-- `textOf`: the plan's text of a criterion, unless it is blank.
unfoldable pub text_of : List (String × String) → String → Option String
text_of texts id = elim (lookup id texts) [
  | none ↦ none
  | some text ↦ if is_blank text then none else some text
]

unfoldable pub checkable : List (String × String) → CriterionVerdict → CriterionVerdict
checkable texts c =
    if is_proven c.outcome
    then elim (text_of texts c.criterion_id) [
      | some text ↦ c
      | none ↦ record c {
        outcome = unverified;
        reason = "verifier could not check it: the plan has no text for this criterion";
      }
    ]
    else c

unfoldable pub claim_of :
    List (String × String) → List (String × List String) → CriterionVerdict → Option VerifierClaim
claim_of texts evidence c = elim (text_of texts c.criterion_id) [
  | none ↦ none
  | some text ↦
      if is_proven c.outcome
      then some (record {
        criterion_id = c.criterion_id;
        text = text;
        evidence = get_or (lookup c.criterion_id evidence) [];
      })
      else none
]

-- `texts` and `evidence` are objects, read by their own properties alone.
unfoldable pub prepare_verifier_inputs :
    List CriterionVerdict
    → List (String × String)
    → List (String × List String)
    → String
    → VerifierInputs
unfolding checkable claim_of text_of
prepare_verifier_inputs criteria texts evidence diff =
    let checked = map (checkable texts) criteria in
    record {
      criteria = checked;
      claims = filter_map (claim_of texts evidence) checked;
      diff = diff;
      batch_size = none;
    }
