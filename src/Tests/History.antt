-- ===== src/Tests/History.antt =====
-- The ledger's history at a concrete chain, with a hash that is constant.
use qare.Prelude.{ℕ, String, List, [], ◌∷◌, ◌++◌, ◌≡◌, ◌⊎◌, refl}
use qare.Fallible.{ok}
use qare.Json.{Json, num, arr, obj, nil, cons, field, end}
use qare.Ledger.Types.{LedgerChangeKind, verify}
use qare.Ledger.History.{
  ChangeBody, LedgerChange, NewChange, last_digest, append_change, parse_changes, parse_chain,
  parse_change, check_link, change_digest_of,
}
use qare.Ledger.History.Kept.{Collision, IsChain, parse_changes-kept, append_change-IsChain}

abbrev hash : String → String
hash s = "00"

abbrev print : Json → String
print j = "[]"

abbrev proven_login : NewChange
proven_login = record {
  kind = verify;
  actor = "run-1";
  timestamp = "2026-01-01T00:00:00Z";
  reason = "passed";
  criteria = "login" ∷ [];
}

abbrev first_change : LedgerChange
first_change = record {
  body = record {
    seq = 1;
    kind = verify;
    actor = "run-1";
    timestamp = "2026-01-01T00:00:00Z";
    reason = "passed";
    criteria = "login" ∷ [];
  };
  digest = "sha256:00";
}

appended : append_change hash print [] proven_login ≡ ok (first_change ∷ [])
unfolding append_change change_digest_of qare.Prelude.has qare.Ledger.Types.is_criterion_id
appended = refl

append_change-IsChain_example :
    ((c : LedgerChange) × (first_change ∷ [] ≡ [] ++ c ∷ []) × (c.criteria ≡ "login" ∷ []))
    × IsChain hash print "" 0 (first_change ∷ [])
append_change-IsChain_example =
    append_change-IsChain hash print [] (first_change ∷ []) proven_login appended tt

abbrev written : Json
written = arr (
    cons
      (obj (
        field "seq" (num 1) (
          field "kind" (Json.text "verify") (
            field "actor" (Json.text "run-1") (
              field "timestamp" (Json.text "2026-01-01T00:00:00Z") (
                field "reason" (Json.text "passed") (
                  field "criteria" (arr (cons (Json.text "login") nil))
                    (field "digest" (Json.text "sha256:00") end))))))))
      nil)

read_back : parse_changes hash print written ≡ ok (first_change ∷ [])
unfolding parse_changes parse_chain parse_change check_link change_digest_of
    qare.Ledger.Types.only_keys qare.Prelude.has qare.Ledger.Types.one_line_string
    qare.Ledger.History.parse_ids qare.Ledger.Types.validate_criterion_id
    qare.Ledger.Types.is_criterion_id
read_back = refl

parse_changes-kept_example : Collision hash print ⊎ (first_change ∷ [] ≡ first_change ∷ [])
parse_changes-kept_example =
    parse_changes-kept hash print written written (first_change ∷ []) (first_change ∷ []) read_back
      read_back refl
