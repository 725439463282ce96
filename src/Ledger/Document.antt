-- ===== src/Ledger/Document.antt =====
-- The ledger document of packages/core/src/ledger.ts: `parseLedgerDocument` and
-- `serializeLedgerDocument`.
pub mod Read
use qare.Prelude.{
  ℕ, ◌+◌, String, Bool, true, false, not, Option, none, some, List, [], ◌∷◌, has, is_empty,
  template, sort_by, if◌then◌else◌, ◌==◌,
}
use qare.Fallible.{Fallible, ok, threw, ◌>>=◌, ◌>>◌, ensure}
use qare.Json.{
  Json, num, arr, obj, Items, nil, cons, Fields, end, field, keys, get, as_text, is_text,
}
use qare.Ledger.Types.{LedgerEntry, kind_text, only_keys, at_index}
use qare.Ledger.History.{LedgerChange, text_items, parse_changes}
use qare.Ledger.Canonical.{canonical_entries, integrity_of}
use qare.Ledger.Entries.{items_at, fields_at, parse_entry}

pub record LedgerDocument : Type 0 where
  pub entries : List LedgerEntry
  pub changes : List LedgerChange

unfoldable pub parse_entries : ℕ → List Json → Fallible (List LedgerEntry)
parse_entries n [] = ok []
parse_entries n (j ∷ js) = do
  first ← parse_entry j (at_index "entries" n)
  rest ← parse_entries (n + 1) js
  ok (first ∷ rest)

-- The loop that refuses a criterion carried twice.
unfoldable pub check_once : List String → List LedgerEntry → Fallible (Unit {0})
check_once seen [] = ok tt
check_once seen (e ∷ es) = do
  ensure (not (has seen e.criterion)) "document.entries"
  check_once (e.criterion ∷ seen) es

unfoldable pub change_json : LedgerChange → Json
change_json c = obj (
    field "seq" (num c.seq) (
      field "kind" (Json.text (kind_text c.kind)) (
        field "actor" (Json.text c.actor) (
          field "timestamp" (Json.text c.timestamp) (
            field "reason" (Json.text c.reason) (
              field "criteria" (arr (text_items c.criteria))
                (field "digest" (Json.text c.digest) end)))))))

unfoldable pub change_items : List LedgerChange → Items
change_items [] = nil
change_items (c ∷ cs) = cons (change_json c) (change_items cs)

module _ (sha256 : String → String) (json_text : Json → String) where
  -- The history of a document, empty where it carries none.
  unfoldable pub changes_of : Option Json → Fallible (List LedgerChange)
  changes_of none = ok []
  changes_of (some value) = parse_changes sha256 json_text value

  unfoldable pub parse_document_fields : Fields → Fallible LedgerDocument
  unfolding changes_of
  parse_document_fields fs = do
    only_keys ("entries" ∷ "schemaVersion" ∷ "integrity" ∷ "changes" ∷ []) "document" (keys fs)
    ensure (is_text "1" (get "schemaVersion" fs)) "document.schemaVersion"
    js ← items_at (get "entries" fs) "document.entries"
    entries ← parse_entries 0 js
    check_once [] entries
    ensure (is_text (integrity_of sha256 json_text entries) (get "integrity" fs))
        "document.integrity"
    changes ← changes_of (get "changes" fs)
    ok (record { entries = entries; changes = changes })

  unfoldable pub parse_ledger_document : Json → Fallible LedgerDocument
  unfolding parse_document_fields
  parse_ledger_document value = do fs ← fields_at value "document"; parse_document_fields fs

  unfoldable pub document_fields : List LedgerEntry → List LedgerChange → Fields
  document_fields entries changes =
      let last =
        field "schemaVersion" (Json.text "1")
          (field "integrity" (Json.text (integrity_of sha256 json_text entries)) end) in
      field "entries" (canonical_entries entries)
        (if is_empty changes then last else field "changes" (arr (change_items changes)) last)

  unfoldable pub serialize_ledger_document :
      (Json → String) → List LedgerEntry → List LedgerChange → String
  serialize_ledger_document json_pretty entries changes =
      template (json_pretty (obj (document_fields entries changes)) ∷ "\n" ∷ [])
