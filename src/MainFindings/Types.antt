-- ===== src/MainFindings/Types.antt =====
-- What a run on the default branch amounts to, in packages/core/src/main-findings.ts, and why a
-- criterion is unverified.
use qare.Prelude.{String, Bool, Option, List, has_prefix, if◌then◌else◌}

pub record LastProven : Type 0 where
  pub run : String
  pub at : String
  pub sha : Option String
  pub recorded_at : Option String

pub record MainFinding : Type 0 where
  -- `regression`, and not `failure`
  pub is_regression : Bool
  pub fingerprint : String
  pub criterion_id : String
  pub text : Option String
  -- the run, and when it was recorded
  pub passed_here : Option (String × String)
  pub reason : Option String
  pub evidence : List String
  pub checks : List String
  pub last_proven : Option LastProven

pub record EnvironmentFinding : Type 0 where
  pub reasons : List String
  pub criteria : List String

pub record MainRunClassification : Type 0 where
  pub environment : Option EnvironmentFinding
  pub findings : List MainFinding
  pub recovered : List String
  pub flaky : List String
  pub environment_up : Bool

pub data UnverifiedCause : Type 0 where
  waived quarantine verifier held refused not_selected unplanned environment : UnverifiedCause

abbrev pub unverified_cause : String → UnverifiedCause
unverified_cause reason =
    if has_prefix "waived by " reason
    then waived
    else if has_prefix "quarantined" reason
    then quarantine
    else if has_prefix "verifier " reason
    then verifier
    else if has_prefix "held for an open question" reason
    then held
    else if has_prefix "refused: " reason
    then refused
    else if has_prefix "not selected" reason
    then not_selected
    else if has_prefix "the planner could not plan it" reason
    then unplanned
    else environment
