-- ===== src/Tests/Proposals.antt =====
-- A proposal that is built from a verification record and applied.
use qare.Prelude.{
  ℕ, String, Bool, true, has, not, Option, none, some, List, [], ◌∷◌, map, if◌then◌else◌, ◌≡◌, refl,
}
use qare.Fallible.{ok}
use qare.Json.{Json}
use qare.Ledger.Types.{LedgerStatus, active, proposed, verify, LedgerEntry}
use qare.Ledger.History.{LedgerChange}
use qare.Proposals.{
  VerificationRecord, VerificationCriterion, pass, LedgerProposal, LedgerProposalChange,
  AppliedLedger, apply_ledger_proposal,
}
use qare.Proposals.Proven.{is_promoted}
use qare.Proposals.Applied.{apply_ledger_proposal-promotes}

abbrev hash : String → String
hash s = "00"

abbrev print : Json → String
print j = "[]"

abbrev entry : LedgerStatus → LedgerEntry
entry status = record {
  criterion = "search";
  status = status;
  source = [];
  proof = "flow";
  note = none;
  supersedes = none;
  text = none;
  checks = none;
  resolution = none;
}

abbrev run : VerificationRecord
run = record {
  run_id = "7";
  sha = "abc";
  outcome = pass;
  evidence = "log" ∷ [];
  timestamp = "2026-01-01T00:00:00.000Z";
  criteria = record { criterion_id = "search"; outcome = pass } ∷ [];
}

abbrev promotion : LedgerProposalChange
promotion = record {
  criterion = "search";
  old_status = proposed;
  new_status = active;
  reason = "run 7: pass on \"search\" promotes proposed → active";
}

abbrev proposal : LedgerProposal
proposal = record {
  schema_version = "1";
  run_id = "7";
  proposed_at = "2026-01-01T00:00:00.000Z";
  base_fingerprint = "sha256:00";
  base_sha = "abc";
  outcome = pass;
  summary = "run 7: 1 criterion(s) proposed→active";
  changes = promotion ∷ [];
  ledger_text = "[]\n";
}

abbrev change : LedgerChange
change = record {
  body = record {
    seq = 1;
    kind = verify;
    actor = "7";
    timestamp = "2026-01-01T00:00:00.000Z";
    reason = "run 7: pass on 1 criterion(s) promotes proposed → active";
    criteria = "search" ∷ [];
  };
  digest = "sha256:00";
}

abbrev outcome : AppliedLedger
outcome = record { next = entry active ∷ []; changes = change ∷ [] }

applies : apply_ledger_proposal hash print print proposal run (entry proposed ∷ []) [] ≡ ok outcome
unfolding apply_ledger_proposal qare.Ledger.Canonical.integrity_of qare.Proposals.matches_record
    qare.Proposals.build_ledger_proposal qare.Ledger.Canonical.serialize_ledger qare.Prelude.decimal
    qare.Proposals.proposed_changes qare.Proposals.proposed_change qare.Prelude.lookup
    qare.Prelude.index qare.Prelude.insert qare.Proposals.same_changes qare.Proposals.record_proven
    qare.Proposals.proven_ids qare.Ledger.History.append_change qare.Proposals.proven_change
    qare.Prelude.distinct qare.Proposals.promote qare.Prelude.has qare.Ledger.Types.is_criterion_id
    qare.Ledger.History.change_digest_of
applies = refl

apply_ledger_proposal-promotes_example :
    entry active ∷ []
    ≡ map
        (λ (e : LedgerEntry).
          if is_promoted run (entry proposed ∷ []) e.criterion
          then record e { status = active }
          else e)
        (entry proposed ∷ [])
apply_ledger_proposal-promotes_example =
    apply_ledger_proposal-promotes hash print print proposal run (entry proposed ∷ []) [] outcome
      applies
