-- ===== src/Ledger/Document/Read.antt =====
-- What the strict reader makes of a document that was written, where it takes it: the entries in the
-- order of their ids, and the history.
use qare.Prelude.{
  ℕ, ◌+◌, String, none, some, List, [], ◌∷◌, is_empty, sort_by, if◌then◌else◌, ◌≡◌, refl, ap, ap₂,
  sym, ◌∙◌, eq_iff,
}
use qare.Fallible.{ok, ensure, >>=-eq-ok, ensure-eq-ok, ok_inj}
use qare.Json.{Json, items, keys, get, is_text}
use qare.Ledger.Types.{LedgerEntry, only_keys, at_index}
use qare.Ledger.History.{LedgerChange}
use qare.Ledger.History.Read.{changes_read}
use qare.Ledger.Canonical.{canonical_entry, canonical_entries, entry_items, integrity_of}
use qare.Ledger.Canonical.Read.{ReadsBack, entry_read}
use qare.Ledger.Entries.{parse_entry, items_at}
use qare.Ledger.Document.{
  LedgerDocument, parse_entries, check_once, change_items, changes_of, parse_document_fields,
  parse_ledger_document, document_fields,
}

entries_read :
    (n : ℕ) (es : List LedgerEntry) → ReadsBack (parse_entries n (items (entry_items es))) es
unfolding parse_entries entry_items
entries_read n [] b h = sym (ok_inj h)
entries_read n (e ∷ es) b h =
    let p = >>=-eq-ok (parse_entry (canonical_entry e) (at_index "entries" n)) _ h in
    let q = >>=-eq-ok (parse_entries (n + 1) (items (entry_items es))) _ p.2 in
    let x = entry_read e (at_index "entries" n) p.0 p.1 in
    let y = entries_read (n + 1) es q.0 q.1 in
    sym (ok_inj q.2) ∙ ap₂ (λ (z : LedgerEntry) t. z ∷ t) x y

abbrev pub sorted : List LedgerEntry → List LedgerEntry
sorted entries = sort_by (λ (e : LedgerEntry). e.criterion) entries

module _ (sha256 : String → String) (json_text : Json → String) where
  get_entries :
      (es : List LedgerEntry) (cs : List LedgerChange)
      → get "entries" (document_fields sha256 json_text es cs) ≡ some (canonical_entries es)
  unfolding document_fields
  get_entries es cs = refl

  get_integrity :
      (es : List LedgerEntry) (cs : List LedgerChange)
      → get "integrity" (document_fields sha256 json_text es cs)
        ≡ some (Json.text (integrity_of sha256 json_text es))
  unfolding document_fields
  get_integrity es [] = refl
  get_integrity es (c ∷ cs) = refl

  get_changes :
      (es : List LedgerEntry) (cs : List LedgerChange)
      → get "changes" (document_fields sha256 json_text es cs)
        ≡ (if is_empty cs then none else some (Json.arr (change_items cs)))
  unfolding document_fields
  get_changes es [] = refl
  get_changes es (c ∷ cs) = refl

  changes_read_back :
      (cs : List LedgerChange)
      → ReadsBack
          (changes_of sha256 json_text
            (if is_empty cs then none else some (Json.arr (change_items cs))))
          cs
  unfolding changes_of
  changes_read_back [] b h = sym (ok_inj h)
  changes_read_back (c ∷ cs) b h = changes_read sha256 json_text (c ∷ cs) b h

  pub document_read :
      (es : List LedgerEntry) (cs : List LedgerChange)
      → ReadsBack
          (parse_ledger_document sha256 json_text
            (Json.obj (document_fields sha256 json_text es cs)))
          (record { entries = sorted es; changes = cs })
  unfolding parse_ledger_document parse_document_fields canonical_entries
  document_read es cs b h =
      let fs = document_fields sha256 json_text es cs in
      let names : List String = "entries" ∷ "schemaVersion" ∷ "integrity" ∷ "changes" ∷ [] in
      let h0 = (>>=-eq-ok (only_keys names "document" (keys fs)) _ h).2 in
      let h1 =
        (>>=-eq-ok (ensure (is_text "1" (get "schemaVersion" fs)) "document.schemaVersion") _
          h0).2 in
      let h2 = >>=-eq-ok (items_at (get "entries" fs) "document.entries") _ h1 in
      let h3 = >>=-eq-ok (parse_entries 0 h2.0) _ h2.2 in
      let h4 = (>>=-eq-ok (check_once [] h3.0) _ h3.2).2 in
      let h5 =
        (>>=-eq-ok
          (ensure (is_text (integrity_of sha256 json_text h3.0) (get "integrity" fs))
            "document.integrity")
          _ h4).2 in
      let h6 = >>=-eq-ok (changes_of sha256 json_text (get "changes" fs)) _ h5 in
      let js : items (entry_items (sorted es)) ≡ h2.0 =
        ok_inj (sym (ap (λ o. items_at o "document.entries") (get_entries es cs)) ∙ h2.1) in
      let e = entries_read 0 (sorted es) h3.0 (ap (parse_entries 0) js ∙ h3.1) in
      let c =
        changes_read_back cs h6.0
          (sym (ap (changes_of sha256 json_text) (get_changes es cs)) ∙ h6.1) in
      sym (ok_inj h6.2)
      ∙ ap₂ (λ (x : List LedgerEntry) (y : List LedgerChange). record { entries = x; changes = y })
          e c

  -- The digest of what is read is the one that was written.
  pub document_integrity :
      (es : List LedgerEntry) (cs : List LedgerChange) (d : LedgerDocument)
      → parse_ledger_document sha256 json_text (Json.obj (document_fields sha256 json_text es cs))
        ≡ ok d
      → integrity_of sha256 json_text d.entries ≡ integrity_of sha256 json_text es
  unfolding parse_ledger_document parse_document_fields
  document_integrity es cs d h =
      let fs = document_fields sha256 json_text es cs in
      let names : List String = "entries" ∷ "schemaVersion" ∷ "integrity" ∷ "changes" ∷ [] in
      let h0 = (>>=-eq-ok (only_keys names "document" (keys fs)) _ h).2 in
      let h1 =
        (>>=-eq-ok (ensure (is_text "1" (get "schemaVersion" fs)) "document.schemaVersion") _
          h0).2 in
      let h2 = >>=-eq-ok (items_at (get "entries" fs) "document.entries") _ h1 in
      let h3 = >>=-eq-ok (parse_entries 0 h2.0) _ h2.2 in
      let h4 = (>>=-eq-ok (check_once [] h3.0) _ h3.2).2 in
      let h5 =
        >>=-eq-ok
          (ensure (is_text (integrity_of sha256 json_text h3.0) (get "integrity" fs))
            "document.integrity")
          _ h4 in
      let h6 = >>=-eq-ok (changes_of sha256 json_text (get "changes" fs)) _ h5.2 in
      let i =
        sym (ap (is_text (integrity_of sha256 json_text h3.0)) (get_integrity es cs))
        ∙ ensure-eq-ok _ _ h5.1 in
      sym (ap (λ (d : LedgerDocument). integrity_of sha256 json_text d.entries) (ok_inj h6.2))
      ∙ sym ((eq_iff (integrity_of sha256 json_text es) (integrity_of sha256 json_text h3.0)).0 i)
