-- ===== src/Ledger/Canonical.antt =====
-- The canonical form of the ledger's entries in packages/core/src/ledger.ts: `canonicalEntries`,
-- `integrityOf` and `serializeLedger`. `json_text` is `JSON.stringify` and `json_pretty` the same with
-- an indent of two.
pub mod Read
use qare.Prelude.{String, Option, none, some, List, [], ◌∷◌, template, sort_by, if◌then◌else◌}
use qare.Json.{Json, arr, obj, Items, nil, cons, Fields, end, field}
use qare.Ledger.Types.{LedgerResolution, LedgerEntry, status_text}
use qare.Ledger.History.{text_items}

resolution_json : LedgerResolution → Json
resolution_json r = obj (
    field "question" (Json.text r.question) (
      field "classification" (Json.text (if r.is_supersede then "supersede" else "regression")) (
        field "by" (Json.text r.by)
          (field "why" (Json.text r.why) (field "at" (Json.text r.at) end)))))

-- A property that is left out where it is `undefined`.
optional : String → Option Json → Fields → Fields
optional key none rest = rest
optional key (some value) rest = field key value rest

texts : Option (List String) → Option Json
texts none = none
texts (some ss) = some (arr (text_items ss))

single : Option String → Option Json
single none = none
single (some s) = some (Json.text s)

resolution_of : Option LedgerResolution → Option Json
resolution_of none = none
resolution_of (some r) = some (resolution_json r)

-- An entry's properties in the order of their names.
unfoldable pub canonical_fields : LedgerEntry → Fields
unfolding resolution_json optional texts single resolution_of
canonical_fields e = optional "checks" (texts e.checks) (
    field "criterion" (Json.text e.criterion) (
      optional "note" (single e.note) (
        field "proof" (Json.text e.proof) (
          optional "resolution" (resolution_of e.resolution) (
            field "source" (arr (text_items e.source)) (
              field "status" (Json.text (status_text e.status)) (
                optional "supersedes" (texts e.supersedes)
                  (optional "text" (single e.text) end))))))))

unfoldable pub canonical_entry : LedgerEntry → Json
canonical_entry e = obj (canonical_fields e)

unfoldable pub entry_items : List LedgerEntry → Items
entry_items [] = nil
entry_items (e ∷ es) = cons (canonical_entry e) (entry_items es)

unfoldable pub canonical_entries : List LedgerEntry → Json
unfolding entry_items
canonical_entries entries = arr (entry_items (sort_by (λ (e : LedgerEntry). e.criterion) entries))

module _ (sha256 : String → String) (json_text : Json → String) where
  unfoldable pub integrity_of : List LedgerEntry → String
  integrity_of entries = template ("sha256:" ∷ sha256 (json_text (canonical_entries entries)) ∷ [])

  unfoldable pub serialize_ledger : (Json → String) → List LedgerEntry → String
  serialize_ledger json_pretty entries = template (
      json_pretty (
        obj (
          field "entries" (canonical_entries entries) (
            field "schemaVersion" (Json.text "1")
              (field "integrity" (Json.text (integrity_of entries)) end))))
      ∷ "\n"
      ∷ [])
