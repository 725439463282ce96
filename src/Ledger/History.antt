-- ===== src/Ledger/History.antt =====
-- The history of packages/core/src/ledger.ts: `appendChange`, `changeDigestOf`, `parseChange` and
-- `parseChanges`. `sha256` is the hash of a text in hexadecimal digits, and `json_text` is
-- `JSON.stringify`.
pub mod Kept
pub mod Read
use qare.Prelude.{
  ℕ, zero, suc, ◌+◌, String, Bool, true, false, ◌&&◌, ◌||◌, not, Option, none, some, List, [], ◌∷◌,
  ◌++◌, map, length, has, is_blank, has_newline, template, decimal, ltb, nat_eq, if◌then◌else◌,
  ◌==◌,
}
use qare.Fallible.{Fallible, ok, threw, ◌>>=◌, ◌>>◌, ensure}
use qare.Json.{
  Json, num, text, arr, obj, Items, nil, cons, Fields, items, keys, get, as_text, as_array,
  as_record,
}
use qare.Ledger.Types.{
  LedgerChangeKind, kind_text, kind_of, validate_criterion_id, non_empty_string, one_line_string,
  only_keys, at_index, is_criterion_id,
}

-- What a digest is taken over, beside the digest before it.
pub record ChangeBody : Type 0 where
  pub seq : ℕ
  pub kind : LedgerChangeKind
  pub actor : String
  pub timestamp : String
  pub reason : String
  pub criteria : List String

pub record LedgerChange : Type 0 where
  pub body : ChangeBody
  pub open body use *
  pub digest : String

abbrev pub text_items : List String → Items
text_items [] = nil
text_items (s ∷ ss) = cons (text s) (text_items ss)

unfoldable pub digest_input : String → ChangeBody → Json
digest_input previous b = arr (
    cons (text previous) (
      cons (num b.seq) (
        cons (text (kind_text b.kind)) (
          cons (text b.actor) (
            cons (text b.timestamp)
              (cons (text b.reason) (cons (arr (text_items b.criteria)) nil)))))))

-- What a caller asks to have recorded; without criteria, the list is empty.
pub record NewChange : Type 0 where
  pub kind : LedgerChangeKind
  pub actor : String
  pub timestamp : String
  pub reason : String
  pub criteria : List String

-- The loop over the criteria: none repeated, each an id.
unfoldable pub check_criteria : List String → List String → Fallible (Unit {0})
check_criteria seen [] = ok tt
check_criteria seen (c ∷ cs) = do
  ensure (not (has seen c)) "ledger change: criterion repeated"
  ensure (is_criterion_id c) "ledger change.criteria"
  check_criteria (c ∷ seen) cs

-- The digest of the last record, and the empty text where there is none.
abbrev pub last_digest : String → List LedgerChange → String
last_digest previous [] = previous
last_digest previous (c ∷ cs) = last_digest c.digest cs

-- The criteria ids of a record.
unfoldable pub parse_ids : String → ℕ → List Json → Fallible (List String)
parse_ids at n [] = ok []
parse_ids at n (j ∷ js) = do
  s ← non_empty_string (some j) (at_index at n)
  id ← validate_criterion_id s (at_index at n)
  rest ← parse_ids at (n + 1) js
  ok (id ∷ rest)

-- A whole number above zero.
seq_of : Option Json → String → Fallible ℕ
seq_of (some (num n)) at = do ensure (ltb 0 n) at; ok n
seq_of _ at = threw at

kind_at : Option Json → String → Fallible LedgerChangeKind
kind_at value at = elim (as_text value) [
  | none ↦ threw at
  | some s ↦ elim (kind_of s) [ none ↦ threw at | some k ↦ ok k ]
]

array_at : Option Json → String → Fallible (List Json)
array_at value at = elim (as_array value) [ none ↦ threw at | some js ↦ ok js ]

record_at : Json → String → Fallible Fields
record_at value at = elim (as_record value) [ none ↦ threw at | some fs ↦ ok fs ]

unfoldable pub parse_change : Json → ℕ → Fallible LedgerChange
unfolding seq_of kind_at array_at record_at
parse_change entry index = do
  let at = at_index "document.changes" index
  fs ← record_at entry at
  only_keys ("seq" ∷ "kind" ∷ "actor" ∷ "timestamp" ∷ "reason" ∷ "criteria" ∷ "digest" ∷ []) at
      (keys fs)
  seq ← seq_of (get "seq" fs) (template (at ∷ ".seq" ∷ []))
  kind ← kind_at (get "kind" fs) (template (at ∷ ".kind" ∷ []))
  actor ← one_line_string (get "actor" fs) (template (at ∷ ".actor" ∷ []))
  timestamp ← one_line_string (get "timestamp" fs) (template (at ∷ ".timestamp" ∷ []))
  reason ← one_line_string (get "reason" fs) (template (at ∷ ".reason" ∷ []))
  js ← array_at (get "criteria" fs) (template (at ∷ ".criteria" ∷ []))
  criteria ← parse_ids (template (at ∷ ".criteria" ∷ [])) 0 js
  digest ← non_empty_string (get "digest" fs) (template (at ∷ ".digest" ∷ []))
  ok (record {
    body = record {
      seq = seq;
      kind = kind;
      actor = actor;
      timestamp = timestamp;
      reason = reason;
      criteria = criteria;
    };
    digest = digest;
  })

module _ (sha256 : String → String) (json_text : Json → String) where
  unfoldable pub change_digest_of : String → ChangeBody → String
  change_digest_of previous b =
      template ("sha256:" ∷ sha256 (json_text (digest_input previous b)) ∷ [])

  unfoldable pub append_change : List LedgerChange → NewChange → Fallible (List LedgerChange)
  unfolding check_criteria
  append_change changes r = do
    ensure (not (is_blank r.actor)) "ledger change: actor"
    ensure (not (has_newline r.actor)) "ledger change: actor"
    ensure (not (is_blank r.reason)) "ledger change: reason"
    ensure (not (has_newline r.reason)) "ledger change: reason"
    ensure (not (has_newline r.timestamp)) "ledger change: timestamp"
    check_criteria [] r.criteria
    let body : ChangeBody = record {
      seq = length changes + 1;
      kind = r.kind;
      actor = r.actor;
      timestamp = r.timestamp;
      reason = r.reason;
      criteria = r.criteria;
    }
    ok (
        changes
        ++ record { body = body; digest = change_digest_of (last_digest "" changes) body } ∷ [])

  -- One record of the chain, after the record at `index` was read.
  unfoldable pub check_link : String → ℕ → LedgerChange → Fallible (Unit {0})
  check_link previous index change = do
    ensure (nat_eq change.seq (index + 1)) (at_index "document.changes" index)
    ensure (change.digest == change_digest_of previous change.body)
        (at_index "document.changes" index)

  unfoldable pub parse_chain : String → ℕ → List Json → Fallible (List LedgerChange)
  parse_chain previous index [] = ok []
  parse_chain previous index (entry ∷ entries) = do
    change ← parse_change entry index
    check_link previous index change
    rest ← parse_chain change.digest (index + 1) entries
    ok (change ∷ rest)

  unfoldable pub parse_changes : Json → Fallible (List LedgerChange)
  unfolding array_at
  parse_changes value = do
    entries ← array_at (some value) "document.changes"
    parse_chain "" 0 entries
