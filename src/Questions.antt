-- ===== src/Questions.antt =====
-- packages/core/src/ledger-resolve.ts: the order that settles a conflict, the question that is asked
-- when nothing settles it, and what an open question holds. `sha256` is the hash of a text in
-- hexadecimal digits. A question's source is carried as JSON.
pub mod Asked
pub mod Held
use Prim.Native.String
use qare.Prelude.{
  ℕ, zero, suc, String, Bool, true, false, ◌&&◌, ◌||◌, not, Option, none, some, List, [], ◌∷◌, ◌++◌,
  map, filter, is_empty, has, get_or, is_some, template, lookup, insert, if◌then◌else◌, ◌==◌,
}
use qare.Json.{Json}
use qare.Result.{
  CriterionOutcome, proven, failed, unverified, Finding, was_proven, was_failed, was_unverified,
  outcome_of, reason_of, evidence_of, CriterionResult, Waiver, RunProfileSummary, RunResult,
}
use qare.Result.Verdict.{RunVerdict, is_refused}
use qare.Ledger.Types.{LedgerResolution, LedgerEntry}
use qare.Judge.Run.{CriterionVerdict, verdict_of}

pub data ResolutionClassification : Type 0 where
  supersede regression : ResolutionClassification

pub data Basis : Type 0 where
  executed_evidence model : Basis

pub record Contradiction : Type 0 where
  pub criterion : String
  pub criterion_text : Option String
  pub replacement : Option String
  pub classification : ResolutionClassification
  pub basis : Basis
  pub reason : String

pub data SettledBasis : Type 0 where
  by_evidence : SettledBasis
  -- the recorded decision: by whom, and why
  by_history : String → String → SettledBasis

pub record SettledConflict : Type 0 where
  pub criterion : String
  pub replacement : Option String
  pub classification : ResolutionClassification
  pub basis : SettledBasis

pub record ResolutionQuestion : Type 0 where
  pub id : String
  pub criterion : String
  pub replacement : Option String
  pub recommendation : ResolutionClassification
  pub reason : String
  pub source : Json

pub record ResolutionReport : Type 0 where
  pub settled : List SettledConflict
  pub questions : List ResolutionQuestion

unfoldable pub affected_by : ResolutionQuestion → List String
affected_by question = elim question.replacement [
  | none ↦ question.criterion ∷ []
  | some r ↦ question.criterion ∷ r ∷ []
]

-- `s.slice(0, n)`.
first_chars : ℕ → String → String
first_chars zero s = ""
first_chars (suc n) String.[] = ""
first_chars (suc n) (String.◌∷◌ c s) = String.◌∷◌ c (first_chars n s)

abbrev classified : LedgerResolution → ResolutionClassification
classified r = if r.is_supersede then supersede else regression

-- `resolution?.question === questionId`.
answers : String → LedgerEntry → Option LedgerResolution
answers id entry = elim entry.resolution [
  | none ↦ none
  | some r ↦ if r.question == id then some r else none
]

unfoldable pub recorded_answer : List LedgerEntry → String → Option LedgerResolution
unfolding answers
recorded_answer [] id = none
recorded_answer (e ∷ es) id = elim (answers id e) [ some r ↦ some r | none ↦ recorded_answer es id ]

-- What the loop keeps: the settled conflicts, and the questions by id.
pub record Resolving : Type 0 where
  pub settled : List SettledConflict
  pub questions : List (String × ResolutionQuestion)

settle : Contradiction → ResolutionClassification → SettledBasis → Resolving → Resolving
settle c classification basis state = record state {
  settled =
      state.settled
      ++ record {
        criterion = c.criterion;
        replacement = c.replacement;
        classification = classification;
        basis = basis;
      }
        ∷ [];
}

module _ (sha256 : String → String) where
  unfoldable pub question_id_for : String → Option String → String
  unfolding first_chars
  question_id_for criterion replacement = template (
      "q-"
      ∷ first_chars 16 (sha256 (template (criterion ∷ "\0" ∷ get_or replacement "" ∷ [])))
      ∷ [])

  module _ (ledger : List LedgerEntry) (source : Json) where
    -- A conflict that history does not settle is asked, once.
    ask : String → Contradiction → Resolving → Resolving
    ask id c state = if is_some (lookup id state.questions) then state else record state {
      questions =
          insert id
            (record {
              id = id;
              criterion = c.criterion;
              replacement = c.replacement;
              recommendation = c.classification;
              reason = c.reason;
              source = source;
            })
            state.questions;
    }

    -- A conflict that the evidence does not settle.
    consult : String → Contradiction → Resolving → Resolving
    unfolding settle ask
    consult id c state = elim (recorded_answer ledger id) [
      | some r ↦ settle c (classified r) (by_history r.by r.why) state
      | none ↦ ask id c state
    ]

    unfoldable pub resolve_one : Contradiction → Resolving → Resolving
    unfolding settle consult
    resolve_one c state = elim c.basis [
      | executed_evidence ↦ settle c c.classification by_evidence state
      | model ↦ consult (question_id_for c.criterion c.replacement) c state
    ]

    unfoldable pub resolve_each : List Contradiction → Resolving → Resolving
    resolve_each [] state = state
    resolve_each (c ∷ cs) state = resolve_each cs (resolve_one c state)

    unfoldable pub resolve_contradictions : List Contradiction → ResolutionReport
    resolve_contradictions contradictions =
        let state = resolve_each contradictions (record { settled = []; questions = [] }) in
        record {
          settled = state.settled;
          questions = map (λ (p : String × ResolutionQuestion). p.1) state.questions;
        }

-- The `Map` from each affected criterion to the last question that affects it.
hold_each :
    ResolutionQuestion
    → List String
    → List (String × ResolutionQuestion)
    → List (String × ResolutionQuestion)
hold_each question [] held = held
hold_each question (id ∷ ids) held = hold_each question ids (insert id question held)

unfoldable pub held_by :
    List ResolutionQuestion
    → List (String × ResolutionQuestion)
    → List (String × ResolutionQuestion)
unfolding hold_each
held_by [] held = held
held_by (q ∷ qs) held = held_by qs (hold_each q (affected_by q) held)

held_reason : ResolutionQuestion → String
held_reason q = template ("held for an open question (" ∷ q.id ∷ ") — " ∷ q.reason ∷ [])

-- A finding that a question holds: a failed criterion keeps its evidence.
hold_finding : ResolutionQuestion → Finding → Finding
unfolding held_reason
hold_finding q (was_proven evidence) = was_proven evidence
hold_finding q (was_failed evidence reason) = was_unverified (held_reason q) (some evidence)
hold_finding q (was_unverified reason evidence) = was_unverified (held_reason q) evidence

unfoldable pub hold_one : List (String × ResolutionQuestion) → CriterionResult → CriterionResult
unfolding hold_finding
hold_one held c = elim (lookup c.id held) [
  | none ↦ c
  | some q ↦ record c { finding = hold_finding q c.finding }
]

abbrev pub verdict_item : CriterionResult → CriterionVerdict
verdict_item c = record {
  criterion_id = c.id;
  outcome = outcome_of c.finding;
  regression = false;
  reason = get_or (reason_of c.finding) "";
}

unfoldable pub verdicts_of : List CriterionResult → List CriterionVerdict
verdicts_of criteria = map verdict_item criteria

abbrev waived_ids : RunResult → List String
waived_ids result = map (λ (w : Waiver). w.criterion_id) (get_or result.waived [])

hold_profile : List CriterionVerdict → List String → RunProfileSummary → RunProfileSummary
hold_profile verdicts waived profile = record profile {
  verdict =
      verdict_of (filter (λ (v : CriterionVerdict). has profile.criteria v.criterion_id) verdicts)
        [] waived;
}

unfoldable pub hold_for_questions : RunResult → List ResolutionQuestion → RunResult
unfolding hold_profile
hold_for_questions result questions =
    let criteria = map (hold_one (held_by questions [])) result.criteria in
    let verdicts = verdicts_of criteria in
    if is_empty questions
    then result
    else if is_refused result.verdict
    then record result { criteria = criteria }
    else record result {
      verdict = verdict_of verdicts [] (waived_ids result);
      criteria = criteria;
      profiles = elim result.profiles [
        | none ↦ none
        | some ps ↦ some (map (hold_profile verdicts (waived_ids result)) ps)
      ];
    }
