-- ===== src/Tests/Ledger.antt =====
-- A ledger that is migrated to a file and then imported there, with a hash that is constant and a
-- `JSON.parse` that gives the documents that were printed.
use qare.Prelude.{
  ℕ, String, Bool, true, false, Option, none, some, List, [], ◌∷◌, ◌++◌, ◌≡◌, ◌⊎◌, refl,
  if◌then◌else◌, ◌==◌,
}
use qare.Fallible.{ok}
use qare.Json.{Json, arr, obj, Items, cons, field}
use qare.Ledger.Types.{
  LedgerEntry, active, verify, import_, only_keys, non_empty_string, validate_criterion_id,
  is_criterion_id, one_line_string,
}
use qare.Ledger.History.{
  LedgerChange, NewChange, append_change, change_digest_of, check_link, digest_input, parse_chain,
  parse_change, parse_changes, parse_ids,
}
use qare.Ledger.Document.{
  LedgerDocument, document_fields, parse_ledger_document, parse_entries, change_items, change_json,
  changes_of, check_once, parse_document_fields, serialize_ledger_document,
}
use qare.Ledger.Store.{load_document, save_document, read_text, head, save_document_if_unchanged}
use qare.Ledger.Commands.{
  ImportFlags, import_document, ledger_import, ledger_migrate, read_exported,
}
use qare.Ledger.Canonical.{
  canonical_entries, canonical_entry, canonical_fields, entry_items, integrity_of,
}
use qare.Ledger.Entries.{
  parse_entry, parse_status, is_question_id, parse_classification, parse_entry_fields, parse_lines,
  parse_resolution, parse_resolution_fields, parse_supersedes, source_links,
}
use qare.Ledger.Store.Kept.{IsPrinted, load_document-save}
use qare.Ledger.Commands.Kept.{Reach, start, next, import_step, migrate_step}

abbrev hash : String → String
hash s = "00"

abbrev print : Json → String
print j = "[]"

abbrev login : LedgerEntry
login = record {
  criterion = "login";
  status = active;
  source = "docs/login.md" ∷ [];
  proof = "test";
  note = none;
  supersedes = none;
  text = some "A user can log in.";
  checks = none;
  resolution = none;
}

abbrev recorded_change : LedgerChange
recorded_change = record {
  body = record {
    seq = 1;
    kind = verify;
    actor = "run-1";
    timestamp = "2026-01-01T00:00:00Z";
    reason = "passed";
    criteria = "login" ∷ [];
  };
  digest = "sha256:00";
}

abbrev imported_change : LedgerChange
imported_change = record {
  body = record {
    seq = 2;
    kind = import_;
    actor = "ada";
    timestamp = "2026-01-02T00:00:00Z";
    reason = "moved here";
    criteria = [];
  };
  digest = "sha256:00";
}

-- One text for a document with one record, and another for one with more.
abbrev more_than_one : Items → Bool
more_than_one (cons c (cons c2 cs)) = true
more_than_one _ = false

abbrev print_pretty : Json → String
print_pretty (obj (field k v (field k2 (arr cs) fs))) = if more_than_one cs then "two" else "one"
print_pretty _ = "none"

abbrev parse : String → Option Json
parse s = some (
    obj (
      document_fields hash print (login ∷ [])
        (if s == "one\n" then recorded_change ∷ [] else recorded_change ∷ imported_change ∷ [])))

abbrev document : LedgerDocument
document = record { entries = login ∷ []; changes = recorded_change ∷ [] }

saved : save_document hash print print_pretty parse (login ∷ []) (recorded_change ∷ []) ≡ ok "one\n"
unfolding save_document read_text parse_ledger_document only_keys document_fields qare.Prelude.has
    canonical_entries parse_entries qare.Prelude.sort_by qare.Prelude.put_sorted parse_entry
    canonical_entry canonical_fields non_empty_string validate_criterion_id is_criterion_id
    parse_status entry_items integrity_of change_items change_json changes_of check_once
    parse_document_fields serialize_ledger_document is_question_id parse_classification
    parse_entry_fields parse_lines parse_resolution parse_resolution_fields parse_supersedes
    source_links change_digest_of check_link digest_input parse_chain parse_change parse_changes
    parse_ids one_line_string qare.Prelude.distinct qare.Prelude.decimal qare.Prelude.text_lt
saved = refl

printed : IsPrinted hash print print_pretty parse "one\n" (login ∷ []) (recorded_change ∷ [])
printed = refl

load_document-save_example :
    load_document hash print print_pretty parse (some "one\n") ≡ ok document
unfolding qare.Prelude.sort_by qare.Prelude.put_sorted
load_document-save_example =
    load_document-save hash print print_pretty parse (login ∷ []) (recorded_change ∷ []) "one\n"
      printed saved

loaded :
    load_document hash print print_pretty parse none ≡ ok (record { entries = []; changes = [] })
unfolding load_document
loaded = refl

-- A migration of the document to where there is no file.
migrated :
    ledger_migrate hash print print_pretty parse document false false none none none
    ≡ ok (some "one\n")
unfolding ledger_migrate save_document_if_unchanged head load_document
migrated = rw saved refl

abbrev flags : ImportFlags
flags = record {
  from = some "export";
  by = some "ada";
  why = some "moved here";
  at = some "2026-01-02T00:00:00Z";
}

abbrev exported : String → Option String
exported path = some "one\n"

abbrev twice : LedgerDocument
twice = record { entries = login ∷ []; changes = recorded_change ∷ imported_change ∷ [] }

imported :
    ledger_import hash print print_pretty parse "now" exported flags (some "one\n") ≡ ok "two\n"
unfolding ledger_import import_document read_exported load_document append_change
    qare.Ledger.History.check_criteria save_document read_text parse_ledger_document only_keys
    document_fields qare.Prelude.has canonical_entries parse_entries qare.Prelude.sort_by
    qare.Prelude.put_sorted parse_entry canonical_entry canonical_fields non_empty_string
    validate_criterion_id is_criterion_id parse_status entry_items integrity_of change_items
    change_json changes_of check_once parse_document_fields serialize_ledger_document is_question_id
    parse_classification parse_entry_fields parse_lines parse_resolution parse_resolution_fields
    parse_supersedes source_links change_digest_of check_link digest_input parse_chain parse_change
    parse_changes parse_ids one_line_string qare.Prelude.distinct qare.Prelude.decimal
    qare.Prelude.text_lt
imported = refl

-- The migration, and then an import that carries its history forward.
abbrev run : Reach hash print print_pretty parse none (some "two\n")
run =
    next (migrate_step document false none "one\n" migrated)
      (next (import_step "now" exported flags "two\n" imported) start)
