-- ===== src/Ledger/Commands.antt =====
-- The commands that write a ledger file, of packages/cli/src/index.ts: `ledgerImport`, and
-- `ledgerMigrate` with `--to files`. A file is its text, `none` where there is none; the flags are what
-- `flag` found. The published view that an import refreshes afterwards is another file.
pub mod Passed
pub mod Kept
use qare.Prelude.{
  String, Bool, true, false, ◌&&◌, ◌||◌, not, Option, none, some, List, [], ◌∷◌, is_empty, take,
  length, get_or, if◌then◌else◌, ◌==◌,
}
use qare.Fallible.{Fallible, ok, threw, ◌>>=◌, ◌>>◌, ensure}
use qare.Json.{Json, arr}
use qare.Ledger.Types.{import_}
use qare.Ledger.History.{LedgerChange, append_change}
use qare.Ledger.Document.{LedgerDocument, change_items}
use qare.Ledger.Store.{read_text, load_document, save_document, head, save_document_if_unchanged}

pub record ImportFlags : Type 0 where
  pub from : Option String
  pub by : Option String
  pub why : Option String
  pub at : Option String

-- A value that the command cannot do without.
abbrev pub required : Option String → String → Fallible String
required none what = threw what
required (some value) what = ok value

abbrev pub is_occupied : LedgerDocument → Bool
is_occupied d = not (is_empty d.entries) || not (is_empty d.changes)

-- `JSON.stringify(imported.changes.slice(0, current.changes.length))`.
abbrev pub slice_text : (Json → String) → LedgerDocument → LedgerDocument → String
slice_text json_text current imported =
    json_text (arr (change_items (take (length current.changes) imported.changes)))

module _ (sha256 : String → String) (json_text json_pretty : Json → String)
    (json_parse : String → Option Json) where
  -- `parseLedgerDocument(JSON.parse(await readFile(…)))`.
  unfoldable pub read_exported : Option String → Fallible LedgerDocument
  read_exported none = threw "ENOENT"
  read_exported (some text) = read_text sha256 json_text json_pretty json_parse text

  -- `exported` reads the exported ledger of a directory, and `now` is the time of the command.
  unfoldable pub import_document :
      String → (String → Option String) → ImportFlags → Option String → Fallible LedgerDocument
  import_document now exported flags file = do
    from ← required flags.from "qare ledger import requires --from"
    by ← required flags.by "qare ledger import requires --by"
    why ← required flags.why "qare ledger import requires --why"
    imported ← read_exported (exported from)
    current ← load_document sha256 json_text json_pretty json_parse file
    ensure
        (is_empty current.changes
          || slice_text json_text current imported
            == json_text (arr (change_items current.changes)))
        "ledger import: the imported history does not carry the ledger history forward"
    changes ← append_change sha256 json_text imported.changes (record {
      kind = import_;
      actor = by;
      timestamp = get_or flags.at now;
      reason = why;
      criteria = [];
    })
    ok (record { entries = imported.entries; changes = changes })

  -- The new text of the file.
  unfoldable pub ledger_import :
      String → (String → Option String) → ImportFlags → Option String → Fallible String
  ledger_import now exported flags file = do
    d ← import_document now exported flags file
    save_document sha256 json_text json_pretty json_parse d.entries d.changes

  -- The document is the one that was loaded from the other backend. The three files are what the file
  -- was when its head was taken, when it was loaded, and when it is written; the result is its new text,
  -- `none` where nothing is written.
  unfoldable pub ledger_migrate :
      LedgerDocument
      → (dry_run force : Bool) → (at_head at_load file : Option String) → Fallible (Option String)
  ledger_migrate document dry_run force at_head at_load file = do
    ensure (is_occupied document) "ledger migrate: the source holds no ledger"
    settled ← load_document sha256 json_text json_pretty json_parse at_load
    if dry_run then ok none else (do
      ensure (not (is_occupied settled) || force)
          "ledger migrate: the destination already holds a ledger"
      text ←
          save_document_if_unchanged sha256 json_text json_pretty json_parse file document.entries
            document.changes (head sha256 json_text json_pretty json_parse at_head)
      ok (some text))
