-- ===== src/Proposals/Applied.antt =====
-- What applying a proposal does (`applyLedgerProposal`).
use qare.Prelude.{
  String, true, false, List, [], ◌∷◌, ◌++◌, map, all, is_empty, has, if◌then◌else◌, ◌==◌, ◌≡◌, refl,
  sym, ap, ◌∙◌, ◌⊎◌, inl, inr, Bool-cases,
}
use qare.Fallible.{Fallible, ok, threw, ◌>>=◌, ensure, >>=-eq-ok, ensure-eq-ok}
use qare.Json.{Json}
use qare.Ledger.Types.{LedgerEntry, active}
use qare.Ledger.History.{LedgerChange, append_change}
use qare.Ledger.Canonical.{integrity_of}
use qare.Proposals.{
  VerificationRecord, LedgerProposal, proposed_changes, same_changes, promoted_ids, promote,
  proven_ids, proven_change, AppliedLedger, build_ledger_proposal, matches_record, record_proven,
  apply_ledger_proposal,
}
use qare.Proposals.Proven.{is_promoted, was_proven, has-proposed, same_changes-ids, map-is_promoted}

module _ (sha256 : String → String) (json_text json_pretty : Json → String)
    (proposal : LedgerProposal) (r : VerificationRecord) (current : List LedgerEntry)
    (changes : List LedgerChange) (applied : AppliedLedger)
    (h : apply_ledger_proposal sha256 json_text json_pretty proposal r current changes
      ≡ ok applied) where
  -- The call went through every test.
  accepted :
      (same_changes proposal.changes (proposed_changes r current) ≡ true)
      × (record_proven sha256 json_text json_pretty r
            (promoted_ids proposal.changes)
            (map (promote (promoted_ids proposal.changes)) current)
            changes
          ≡ ok applied)
  unfolding apply_ledger_proposal build_ledger_proposal
  accepted =
      let a =
        >>=-eq-ok (ensure (proposal.base_fingerprint == integrity_of sha256 json_text current) _) _
          h in
      let b = >>=-eq-ok (ensure (all _ proposal.changes) _) _ a.2 in
      let c = >>=-eq-ok (ensure (matches_record sha256 json_text json_pretty proposal _) _) _ b.2 in
      let d = >>=-eq-ok (ensure (same_changes proposal.changes _) _) _ c.2 in
      (ensure-eq-ok _ _ d.1, d.2)

  value_or : AppliedLedger → Fallible AppliedLedger → AppliedLedger
  value_or d (ok a) = a
  value_or d (threw _) = d

  next_entries :
      (promoted : List String) (next : List LedgerEntry)
      → record_proven sha256 json_text json_pretty r promoted next changes ≡ ok applied
      → applied.next ≡ next
  unfolding record_proven value_or proven_change
  next_entries promoted next e = elim (Bool-cases (is_empty (proven_ids promoted r next))) [
    | inl y ↦
        let p : ok (record { next = next; changes = changes }) ≡ ok applied = sym (rw y refl) ∙ e in
        sym (ap (λ m. (value_or applied m).next) p)
    | inr n ↦
        let p : (append_change sha256 json_text changes (proven_change r promoted next) >>= λ cs.
        ok (record { next = next; changes = cs }))
            ≡ ok applied =
          sym (rw n refl) ∙ e in
        let q =
          >>=-eq-ok (append_change sha256 json_text changes (proven_change r promoted next)) _ p in
        sym (ap (λ m. (value_or applied m).next) q.2)
  ]

  -- An applied proposal makes active exactly the entries that the ledger had as proposed and that the
  -- record proved, and changes nothing else of any entry.
  pub apply_ledger_proposal-promotes :
      applied.next
      ≡ map
          (λ (e : LedgerEntry).
            if is_promoted r current e.criterion then record e { status = active } else e)
          current
  unfolding proposed_changes
  apply_ledger_proposal-promotes =
      let ids = promoted_ids proposal.changes in
      let same = same_changes-ids proposal.changes (proposed_changes r current) accepted.0 in
      next_entries ids (map (promote ids) current) accepted.1
      ∙ map-is_promoted ids r current
          (λ id. ap (λ xs. has xs id) same ∙ has-proposed r.run_id current r.criteria id) current

  -- What became of the history: nothing, where no id was proven, or one record more, which names each
  -- id that was proven and no other.
  abbrev pub RecordsProven : Type 0
  RecordsProven =
      ((applied.changes ≡ changes) × ((id : String) → was_proven r applied.next id ≡ false))
      ⊎ ((c : LedgerChange) × (applied.changes ≡ changes ++ c ∷ [])
          × ((id : String) → has c.criteria id ≡ was_proven r applied.next id))
