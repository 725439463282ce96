-- ===== src/Result.antt =====
-- packages/core/src/result.ts: the executed result of a run, as the judge reads it. What no function
-- of the model looks into (the environment, an app's profile reference, what a profile required, the
-- advisory review) is carried whole, as JSON.
use qare.Prelude.{ℕ, String, Bool, true, false, Option, none, some, List, get_or, []}
use qare.Json.{Json}
pub mod Verdict

pub data CriterionOutcome : Type 0 where
  proven failed unverified : CriterionOutcome

abbrev pub is_proven : CriterionOutcome → Bool
is_proven proven = true
is_proven _ = false

abbrev pub is_failed : CriterionOutcome → Bool
is_failed failed = true
is_failed _ = false

abbrev pub is_unverified : CriterionOutcome → Bool
is_unverified unverified = true
is_unverified _ = false

-- `CriterionOutcome !== CriterionOutcome`.
abbrev pub same_outcome : CriterionOutcome → CriterionOutcome → Bool
same_outcome proven o = is_proven o
same_outcome failed o = is_failed o
same_outcome unverified o = is_unverified o

-- `outcome` of `CriterionBase`: the base side proved it, failed it, or was not compared.
pub data BaseOutcome : Type 0 where
  base_proven base_failed not_compared : BaseOutcome

pub record CriterionBase : Type 0 where
  pub outcome : BaseOutcome
  pub reason : Option String
  pub evidence : Option (List String)

pub record A11yCounts : Type 0 where
  pub new : ℕ
  pub existing : ℕ
  pub accepted : ℕ
  pub reported : ℕ
  pub uncompared : ℕ

pub record MailProof : Type 0 where
  pub check : String
  pub from : String
  pub subject : String
  pub excerpt : String
  pub links : List String
  pub delivery : Option String

pub record RunRepairRecord : Type 0 where
  pub check : String
  pub action : ℕ
  pub reference : String
  pub repaired : Option String
  pub identity : String
  pub is_applied : Bool
  pub refused_reason : Option String

-- What tells the three forms of `CriterionResult` apart: the outcome, with what it carries.
pub data Finding : Type 0 where
  was_proven : List String → Finding
  was_failed : List String → Option String → Finding
  was_unverified : String → Option (List String) → Finding

pub record CriterionResult : Type 0 where
  pub id : String
  pub finding : Finding
  pub base : Option CriterionBase
  pub regression : Option Bool
  pub a11y : Option A11yCounts
  pub mail : Option (List MailProof)
  pub repairs : Option (List RunRepairRecord)
  pub cached : Bool

abbrev pub outcome_of : Finding → CriterionOutcome
outcome_of (was_proven evidence) = proven
outcome_of (was_failed evidence reason) = failed
outcome_of (was_unverified reason evidence) = unverified

-- `'reason' in criterion ? criterion.reason : undefined`.
abbrev pub reason_of : Finding → Option String
reason_of (was_proven evidence) = none
reason_of (was_failed evidence reason) = reason
reason_of (was_unverified reason evidence) = some reason

-- `evidenceOf` of packages/core/src/judge.ts.
abbrev pub evidence_of : Finding → List String
evidence_of (was_proven evidence) = evidence
evidence_of (was_failed evidence reason) = evidence
evidence_of (was_unverified reason evidence) = get_or evidence []

pub record ModelUsage : Type 0 where
  pub input_tokens : ℕ
  pub output_tokens : ℕ

pub record RunTarget : Type 0 where
  pub url : String

pub record RunBase : Type 0 where
  pub ref : String
  pub is_executed : Bool
  pub reason : Option String

pub record Waiver : Type 0 where
  pub criterion_id : String
  pub by : String

pub record RunProfileSummary : Type 0 where
  pub name : String
  pub verdict : Verdict.RunVerdict
  pub criteria : List String
  pub profile : Option Json
  pub requirements : Option Json

pub record RunResult : Type 0 where
  pub schema_version : String
  pub verdict : Verdict.RunVerdict
  pub criteria : List CriterionResult
  pub job : Option String
  pub waived : Option (List Waiver)
  pub target : Option RunTarget
  pub client : Option Json
  pub base : Option RunBase
  pub environment : Option Json
  pub profiles : Option (List RunProfileSummary)
  pub requirements : Option Json
  pub started_at : Option String
  pub finished_at : Option String
  pub judge_usage : Option ModelUsage
  pub advisory : Option Json
