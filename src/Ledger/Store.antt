-- ===== src/Ledger/Store.antt =====
-- `FileLedgerStore` of packages/core/src/ledger.ts. Its state is the text of the ledger file, `none`
-- where there is no file; an operation that throws leaves it as it was, and a check of
-- the file and the write that follows it are one step. `json_parse` is `JSON.parse`.
pub mod Kept
use qare.Prelude.{
  String, Bool, true, false, ◌||◌, not, Option, none, some, List, [], is_empty, if◌then◌else◌, ◌==◌,
}
use qare.Fallible.{Fallible, ok, threw, ◌>>=◌, ◌>>◌, ensure}
use qare.Json.{Json}
use qare.Ledger.Types.{LedgerEntry}
use qare.Ledger.History.{LedgerChange}
use qare.Ledger.Canonical.{integrity_of}
use qare.Ledger.Document.{LedgerDocument, parse_ledger_document, serialize_ledger_document}

-- Two optional texts are the same.
abbrev pub same_head : Option String → Option String → Bool
same_head none none = true
same_head (some s) (some t) = s == t
same_head _ _ = false

module _ (sha256 : String → String) (json_text json_pretty : Json → String)
    (json_parse : String → Option Json) where
  -- `parseLedgerDocument(JSON.parse(text))`.
  unfoldable pub read_text : String → Fallible LedgerDocument
  read_text s = elim (json_parse s) [
    | none ↦ threw "SyntaxError"
    | some j ↦ parse_ledger_document sha256 json_text j
  ]

  unfoldable pub load_document : Option String → Fallible LedgerDocument
  unfolding read_text
  load_document none = ok (record { entries = []; changes = [] })
  load_document (some s) = read_text s

  -- The new text of the file.
  unfoldable pub save_document : List LedgerEntry → List LedgerChange → Fallible String
  save_document entries changes = do
    let text = serialize_ledger_document sha256 json_text json_pretty entries changes
    read_text text >>= λ document. ok text

  -- The history that a save writes: the one it is given, or the one that is there.
  unfoldable pub saved_changes :
      Option String → List LedgerEntry → Option (List LedgerChange) → Fallible (List LedgerChange)
  saved_changes file entries (some changes) = ok changes
  saved_changes file entries none = do
    current ← load_document file
    ensure
        (is_empty current.changes
          || integrity_of sha256 json_text current.entries == integrity_of sha256 json_text entries)
        "ledger: entries changed without a change record"
    ok current.changes

  unfoldable pub save :
      Option String → List LedgerEntry → Option (List LedgerChange) → Fallible String
  save file entries changes = do
    kept ← saved_changes file entries changes
    save_document entries kept

  unfoldable pub head : Option String → Option String
  head none = none
  head (some s) = some (sha256 s)

  unfoldable pub save_document_if_unchanged :
      Option String → List LedgerEntry → List LedgerChange → Option String → Fallible String
  save_document_if_unchanged file entries changes observed = do
    ensure (same_head (head file) observed) "ledger: the destination changed"
    save_document entries changes
