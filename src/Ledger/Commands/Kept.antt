-- ===== src/Ledger/Commands/Kept.antt =====
-- What the commands that write a ledger file keep of it.
use qare.Prelude.{String, Bool, false, Option, some, List, ◌++◌, is_empty, take, length, ◌≡◌, ◌⊎◌}
use qare.Fallible.{ok}
use qare.Json.{Json, arr}
use qare.Ledger.History.{LedgerChange}
use qare.Ledger.Document.{LedgerDocument, change_items}
use qare.Ledger.Store.Kept.{IsPrinted}
use qare.Ledger.Commands.{
  ImportFlags, is_occupied, slice_text, read_exported, import_document, ledger_import,
  ledger_migrate,
}
use qare.Ledger.Commands.Passed.{Loads}

module _ (sha256 : String → String) (json_text json_pretty : Json → String)
    (json_parse : String → Option Json) where
  -- A command that writes the ledger file: an import, or a migration to the file without `--force`.
  -- Nobody writes between the two reads of a migration, and somebody may between them and its write: the
  -- file that it observed need not be the one that it writes over.
  pub data Step : Option String → Option String → Type 0 where
    import_step :
        {file : Option String} (now : String) (exported : String → Option String)
        (flags : ImportFlags) (text : String)
        → ledger_import sha256 json_text json_pretty json_parse now exported flags file ≡ ok text
        → Step file (some text)
    migrate_step :
        {file : Option String} (document : LedgerDocument) (dry_run : Bool)
        (observed : Option String) (text : String)
        → ledger_migrate sha256 json_text json_pretty json_parse document dry_run false observed
            observed file
          ≡ ok (some text)
        → Step file (some text)

  pub data Reach : Option String → Option String → Type 0 where
    start : {file : Option String} → Reach file file
    next :
        {file then_ after : Option String} → Step file then_ → Reach then_ after → Reach file after

  -- JSON and the hash do what they do, on the texts of a step: the text that it writes parses to what
  -- was printed, the histories that an import compares are the same when they are printed the same, and
  -- so are the texts that a migration compares when their hashes are.
  abbrev pub IsFaithful : {file after : Option String} → Step file after → Type 0
  IsFaithful {file} (import_step now exported flags text h) =
      ((n : LedgerDocument)
        → import_document sha256 json_text json_pretty json_parse now exported flags file ≡ ok n
        → IsPrinted sha256 json_text json_pretty json_parse text n.entries n.changes)
      × ((from : String) (i d : LedgerDocument)
          → flags.from ≡ some from
          → read_exported sha256 json_text json_pretty json_parse (exported from) ≡ ok i
          → Loads sha256 json_text json_pretty json_parse file d
          → slice_text json_text d i ≡ json_text (arr (change_items d.changes))
          → take (length d.changes) i.changes ≡ d.changes)
  IsFaithful {file} (migrate_step document dry_run observed text h) =
      IsPrinted sha256 json_text json_pretty json_parse text document.entries document.changes
      × ((s t : String) → observed ≡ some s → file ≡ some t → sha256 s ≡ sha256 t → s ≡ t)

  abbrev pub AreFaithful : {file after : Option String} → Reach file after → Type 0
  AreFaithful start = Unit {0}
  AreFaithful (next s r) = IsFaithful s × AreFaithful r

  -- What is kept of a ledger: its history stands before what was added, and something was added, or
  -- there was no ledger, or the ledger is as it was.
  abbrev pub Extends : LedgerDocument → Option String → Type 0
  Extends d after =
      (d' : LedgerDocument) × (added : List LedgerChange) × Loads sha256 json_text json_pretty
        json_parse after d'
      × (d'.changes ≡ d.changes ++ added)
      × ((is_empty added ≡ false) ⊎ ((is_occupied d ≡ false) ⊎ (d' ≡ d)))
