-- ===== src/Redact.antt =====
-- `redactResult` of packages/core/src/redact.ts: which fields of a result the redaction rules sweep.
-- The rules are regular expressions that the engine runs: `sweep` is what they make of one text, and
-- `sweep_advisory` what they make of the advisory review, which the model carries as JSON.
use mathlib.Core.Option
use qare.Prelude.{String, map}
use qare.Json.{Json}
use qare.Result.{
  CriterionBase, Finding, was_proven, was_failed, was_unverified, CriterionResult, MailProof,
  RunRepairRecord, RunTarget, RunBase, RunResult,
}

module _ (sweep : String → String) (sweep_advisory : Json → Json) where
  unfoldable pub redact_finding : Finding → Finding
  redact_finding (was_proven evidence) = was_proven evidence
  redact_finding (was_failed evidence reason) = was_failed evidence (Option.map sweep reason)
  redact_finding (was_unverified reason evidence) = was_unverified (sweep reason) evidence

  redact_base : CriterionBase → CriterionBase
  redact_base base = record base { reason = Option.map sweep base.reason }

  redact_mail : MailProof → MailProof
  redact_mail message = record {
    check = sweep message.check;
    from = sweep message.from;
    subject = sweep message.subject;
    excerpt = sweep message.excerpt;
    links = map sweep message.links;
    delivery = Option.map sweep message.delivery;
  }

  redact_repair : RunRepairRecord → RunRepairRecord
  redact_repair repair = record repair {
    check = sweep repair.check;
    reference = sweep repair.reference;
    repaired = Option.map sweep repair.repaired;
    refused_reason = Option.map sweep repair.refused_reason;
  }

  unfoldable pub redact_criterion : CriterionResult → CriterionResult
  unfolding redact_finding redact_base redact_mail redact_repair
  redact_criterion c = record c {
    finding = redact_finding c.finding;
    base = Option.map redact_base c.base;
    mail = Option.map (map redact_mail) c.mail;
    repairs = Option.map (map redact_repair) c.repairs;
  }

  unfoldable pub redact_result : RunResult → RunResult
  unfolding redact_criterion
  redact_result result = record result {
    advisory = Option.map sweep_advisory result.advisory;
    target = Option.map (λ (t : RunTarget). record t { url = sweep t.url }) result.target;
    base =
        Option.map (λ (b : RunBase). record b { reason = Option.map sweep b.reason }) result.base;
    criteria = map redact_criterion result.criteria;
  }
