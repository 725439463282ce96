-- ===== src/Proposals.antt =====
-- packages/core/src/ledger-proposal.ts and packages/core/src/ledger-apply.ts: what a verification
-- record proposes to the ledger, and how a proposal is applied. `sha256`, `json_text` and
-- `json_pretty` are the hash of a text, `JSON.stringify`, and the same with an indent of two.
pub mod Proven
pub mod Applied
use qare.Prelude.{
  ℕ, ◌-◌, String, Bool, true, false, ◌&&◌, ◌||◌, not, Option, none, some, List, [], ◌∷◌, ◌++◌, map,
  filter, filter_map, find, all, any, is_empty, length, has, distinct, lookup, index, nat_eq, ltb,
  template, decimal, if◌then◌else◌, ◌==◌,
}
use qare.Fallible.{Fallible, ok, threw, ◌>>=◌, ◌>>◌, ensure}
use qare.Json.{Json}
use qare.Ledger.Types.{
  LedgerStatus, LedgerEntry, proposed, active, superseded, retired, is_active, is_proposed, verify,
  status_text,
}
use qare.Ledger.History.{LedgerChange, NewChange, append_change}
use qare.Ledger.Canonical.{integrity_of, serialize_ledger}

pub data VerificationOutcome : Type 0 where
  pass fail waived : VerificationOutcome

abbrev pub is_pass : VerificationOutcome → Bool
is_pass pass = true
is_pass _ = false

abbrev outcome_text : VerificationOutcome → String
outcome_text pass = "pass"
outcome_text fail = "fail"
outcome_text waived = "waived"

pub record VerificationCriterion : Type 0 where
  pub criterion_id : String
  pub outcome : VerificationOutcome

pub record VerificationRecord : Type 0 where
  pub run_id : String
  pub sha : String
  pub outcome : VerificationOutcome
  pub evidence : List String
  pub timestamp : String
  pub criteria : List VerificationCriterion

pub record LedgerProposalChange : Type 0 where
  pub criterion : String
  pub old_status : LedgerStatus
  pub new_status : LedgerStatus
  pub reason : String

pub record LedgerProposal : Type 0 where
  pub schema_version : String
  pub run_id : String
  pub proposed_at : String
  pub base_fingerprint : String
  pub base_sha : String
  pub outcome : VerificationOutcome
  pub summary : String
  pub changes : List LedgerProposalChange
  pub ledger_text : String

-- `byCriterion`: the last entry with an id stands.
abbrev pub by_criterion : List LedgerEntry → List (String × LedgerEntry)
by_criterion current = index (λ (e : LedgerEntry). e.criterion) (λ e. e) current

-- The change that one criterion of the record proposes.
unfoldable pub proposed_change :
    String → List (String × LedgerEntry) → VerificationCriterion → Option LedgerProposalChange
proposed_change run_id entries c =
    if is_pass c.outcome
    then (elim (lookup c.criterion_id entries) [
      | none ↦ none
      | some entry ↦
          if is_proposed entry.status
          then some (record {
            criterion = entry.criterion;
            old_status = entry.status;
            new_status = active;
            reason = template (
                "run " ∷ run_id ∷ ": pass on \"" ∷ entry.criterion ∷ "\" promotes proposed → active"
                ∷ []);
          })
          else none
    ])
    else none

unfoldable pub proposed_changes : VerificationRecord → List LedgerEntry → List LedgerProposalChange
proposed_changes r current = filter_map (proposed_change r.run_id (by_criterion current)) r.criteria

abbrev same_change : LedgerProposalChange → LedgerProposalChange → Bool
same_change a b =
    a.criterion == b.criterion
    && status_text a.old_status == status_text b.old_status
    && status_text a.new_status == status_text b.new_status
    && a.reason == b.reason

-- The changes of two proposals, one by one.
unfoldable pub same_changes : List LedgerProposalChange → List LedgerProposalChange → Bool
same_changes [] [] = true
same_changes (a ∷ rest) (b ∷ others) = same_change a b && same_changes rest others
same_changes _ _ = false

abbrev pub promoted_ids : List LedgerProposalChange → List String
promoted_ids changes = map (λ (c : LedgerProposalChange). c.criterion) changes

-- An entry that the proposal names becomes active.
unfoldable pub promote : List String → LedgerEntry → LedgerEntry
promote promoted entry =
    if has promoted entry.criterion then record entry { status = active } else entry

-- `next.find((entry) => entry.criterion === id)?.status === 'active'`.
abbrev pub is_active_in : List LedgerEntry → String → Bool
is_active_in next id = elim (find (λ (e : LedgerEntry). e.criterion == id) next) [
  | none ↦ false
  | some e ↦ is_active e.status
]

-- Every criterion that the run proved: those promoted, and those that were active.
unfoldable pub proven_ids : List String → VerificationRecord → List LedgerEntry → List String
proven_ids promoted r next =
    promoted
    ++ filter (is_active_in next) (
        map (λ (c : VerificationCriterion). c.criterion_id)
          (filter
            (λ (c : VerificationCriterion). is_pass c.outcome && not (has promoted c.criterion_id))
            r.criteria))

pub record AppliedLedger : Type 0 where
  pub next : List LedgerEntry
  pub changes : List LedgerChange

-- The record of a run that proved something.
unfoldable pub proven_change : VerificationRecord → List String → List LedgerEntry → NewChange
proven_change r promoted next =
    let proven = proven_ids promoted r next in
    let count = length (distinct promoted) in
    record {
      kind = verify;
      actor = r.run_id;
      timestamp = r.timestamp;
      reason =
          if ltb 0 count
          then template (
              "run "
              ∷ r.run_id
              ∷ ": pass on "
              ∷ decimal count
              ∷ " criterion(s) promotes proposed → active"
              ∷ [])
          else template (
              "run "
              ∷ r.run_id
              ∷ ": pass on "
              ∷ decimal (length proven - count)
              ∷ " criterion(s), already active"
              ∷ []);
      criteria = proven;
    }

module _ (sha256 : String → String) (json_text : Json → String) (json_pretty : Json → String) where
  unfoldable pub build_ledger_proposal :
      VerificationRecord → List LedgerEntry → String → LedgerProposal
  build_ledger_proposal r current base_fingerprint =
      let changes = proposed_changes r current in
      record {
        schema_version = "1";
        run_id = r.run_id;
        proposed_at = r.timestamp;
        base_fingerprint = base_fingerprint;
        base_sha = r.sha;
        outcome = r.outcome;
        summary = template (
            "run "
            ∷ r.run_id
            ∷ ": "
            ∷ decimal (length changes)
            ∷ " criterion(s) proposed→active"
            ∷ []);
        changes = changes;
        ledger_text = serialize_ledger sha256 json_text json_pretty current;
      }

  -- The proposal agrees with the one that the record gives.
  unfoldable pub matches_record : LedgerProposal → LedgerProposal → Bool
  matches_record proposal expected =
      proposal.run_id == expected.run_id
      && proposal.proposed_at == expected.proposed_at
      && proposal.base_sha == expected.base_sha
      && outcome_text proposal.outcome == outcome_text expected.outcome
      && proposal.schema_version == expected.schema_version
      && proposal.ledger_text == expected.ledger_text
      && proposal.summary == expected.summary
      && nat_eq (length proposal.changes) (length expected.changes)

  -- What is recorded once the proposal was accepted.
  unfoldable pub record_proven :
      VerificationRecord
      → List String
      → List LedgerEntry
      → List LedgerChange
      → Fallible AppliedLedger
  record_proven r promoted next changes =
      if is_empty (proven_ids promoted r next)
      then ok (record { next = next; changes = changes })
      else (do
        recorded ← append_change sha256 json_text changes (proven_change r promoted next)
        ok (record { next = next; changes = recorded }))

  unfoldable pub apply_ledger_proposal :
      LedgerProposal
      → VerificationRecord
      → List LedgerEntry
      → List LedgerChange
      → Fallible AppliedLedger
  apply_ledger_proposal proposal r current changes = do
    ensure (proposal.base_fingerprint == integrity_of sha256 json_text current)
        "ledger apply: proposal is stale"
    ensure
        (all (λ (c : LedgerProposalChange). is_proposed c.old_status && is_active c.new_status)
          proposal.changes)
        "ledger apply: criterion cannot be weakened by the run that needs it"
    let expected = build_ledger_proposal r current (integrity_of sha256 json_text current)
    ensure (matches_record proposal expected)
        "ledger apply: proposal does not match its verification record"
    ensure (same_changes proposal.changes expected.changes)
        "ledger apply: proposal does not match its verification record"
    record_proven r (promoted_ids proposal.changes)
        (map (promote (promoted_ids proposal.changes)) current) changes
