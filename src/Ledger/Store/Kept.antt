-- ===== src/Ledger/Store/Kept.antt =====
-- How what the file store saved is read (`saveDocument`, `loadDocument`).
use qare.Prelude.{String, Option, none, some, List, ◌≡◌, sym, ap, ◌∙◌}
use qare.Fallible.{ok, threw, >>=-eq-ok, ok_inj}
use qare.Json.{Json, obj}
use qare.Ledger.Types.{LedgerEntry}
use qare.Ledger.History.{LedgerChange}
use qare.Ledger.Document.{parse_ledger_document, document_fields, serialize_ledger_document}
use qare.Ledger.Document.Read.{document_read, sorted}
use qare.Ledger.Store.{read_text, load_document, save_document}

module _ (sha256 : String → String) (json_text json_pretty : Json → String)
    (json_parse : String → Option Json) where
  -- The text parses to the document that was printed.
  abbrev pub IsPrinted : String → List LedgerEntry → List LedgerChange → Type 0
  IsPrinted text es cs = json_parse text ≡ some (obj (document_fields sha256 json_text es cs))

  read_printed :
      (text : String) (j : Json)
      → json_parse text ≡ some j
      → read_text sha256 json_text json_pretty json_parse text
        ≡ parse_ledger_document sha256 json_text j
  unfolding read_text
  read_printed text j p =
      ap
        (λ o. elim o [
          | none ↦ threw "SyntaxError"
          | some j ↦ parse_ledger_document sha256 json_text j
        ])
        p

  parsed_back :
      (es : List LedgerEntry) (cs : List LedgerChange) (text : String)
      → IsPrinted text es cs
      → save_document sha256 json_text json_pretty json_parse es cs ≡ ok text
      → parse_ledger_document sha256 json_text (obj (document_fields sha256 json_text es cs))
        ≡ ok (record { entries = sorted es; changes = cs })
  unfolding save_document
  parsed_back es cs text p h =
      let read = read_text sha256 json_text json_pretty json_parse in
      let printed = serialize_ledger_document sha256 json_text json_pretty es cs in
      let a = >>=-eq-ok (read printed) _ h in
      let j = obj (document_fields sha256 json_text es cs) in
      let e = sym (read_printed text j p) ∙ ap read (sym (ok_inj a.2)) ∙ a.1 in
      e ∙ ap ok (document_read sha256 json_text es cs a.0 e)

  -- Where the text of a saved document parses to what was printed, a load gives the entries in the order
  -- of their ids and the history, as they were saved.
  pub load_document-save :
      (es : List LedgerEntry) (cs : List LedgerChange) (text : String)
      → IsPrinted text es cs
      → save_document sha256 json_text json_pretty json_parse es cs ≡ ok text
      → load_document sha256 json_text json_pretty json_parse (some text)
        ≡ ok (record { entries = sorted es; changes = cs })
  unfolding load_document
  load_document-save es cs text p h =
      read_printed text (obj (document_fields sha256 json_text es cs)) p
      ∙ parsed_back es cs text p h
