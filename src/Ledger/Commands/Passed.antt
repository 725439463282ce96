-- ===== src/Ledger/Commands/Passed.antt =====
-- What an import and a migration that write the ledger file went through.
use qare.Prelude.{
  String, Bool, true, false, ◌||◌, not, Option, none, some, [], ◌∷◌, ◌++◌, is_empty, if◌then◌else◌,
  ◌==◌, ◌≡◌, refl, sym, ap, ◌∙◌, subst, get_or, eq_iff, arith,
}
use qare.Fallible.{Fallible, ok, ensure, >>=-eq-ok, ensure-eq-ok, ok_inj}
use qare.Json.{Json, arr}
use qare.Ledger.History.{LedgerChange, append_change}
use qare.Ledger.History.Kept.{append_change-appends}
use qare.Ledger.Document.{LedgerDocument, change_items}
use qare.Ledger.Store.{same_head, load_document, save_document, head, save_document_if_unchanged}
use qare.Ledger.Commands.{
  ImportFlags, required, is_occupied, slice_text, read_exported, import_document, ledger_migrate,
}

required-eq :
    (o : Option String) (what value : String) → required o what ≡ ok value → o ≡ some value
required-eq none what value h = cc
required-eq (some v) what value h = ap some (ok_inj h)

module _ (sha256 : String → String) (json_text json_pretty : Json → String)
    (json_parse : String → Option Json) where
  abbrev pub Loads : Option String → LedgerDocument → Type 0
  Loads file d = load_document sha256 json_text json_pretty json_parse file ≡ ok d

  -- What an import that is not refused went through: it puts its record after the history that is
  -- imported, which carries that of the file forward.
  pub imported :
      (file : Option String) (d n : LedgerDocument) (now : String)
      (exported : String → Option String) (flags : ImportFlags)
      → Loads file d
      → import_document sha256 json_text json_pretty json_parse now exported flags file ≡ ok n
      → (from : String) × (i : LedgerDocument) × (last : LedgerChange) × (flags.from ≡ some from)
        × (read_exported sha256 json_text json_pretty json_parse (exported from) ≡ ok i)
        × ((is_empty d.changes
              || slice_text json_text d i == json_text (arr (change_items d.changes)))
            ≡ true)
        × (n.changes ≡ i.changes ++ last ∷ [])
  unfolding import_document
  imported file d n now exported flags l m =
      let (from, e1, h1) = >>=-eq-ok (required flags.from _) _ m in
      let (by, e2, h2) = >>=-eq-ok (required flags.by _) _ h1 in
      let (why, e3, h3) = >>=-eq-ok (required flags.why _) _ h2 in
      let (i, e5, h5) =
        >>=-eq-ok (read_exported sha256 json_text json_pretty json_parse (exported from)) _ h3 in
      let (c, e6, h6) =
        >>=-eq-ok (load_document sha256 json_text json_pretty json_parse file) _ h5 in
      let (u, e7, h7) =
        >>=-eq-ok
          (ensure
            (is_empty c.changes
              || slice_text json_text c i == json_text (arr (change_items c.changes)))
            _)
          _ h6 in
      let (cs, e8, h8) = >>=-eq-ok (append_change sha256 json_text i.changes _) _ h7 in
      let (b, a, _, _) = append_change-appends sha256 json_text i.changes cs _ e8 in
      (
        from,
        i,
        _,
        required-eq flags.from _ from e1,
        e5,
        subst
            (λ (c : LedgerDocument).
              (is_empty c.changes
                || slice_text json_text c i == json_text (arr (change_items c.changes)))
              ≡ true)
            (ok_inj (sym e6 ∙ l)) (ensure-eq-ok _ _ e7),
        sym (ap (λ (d : LedgerDocument). d.changes) (ok_inj h8)) ∙ a,
      )

  -- The head that a migration observed is still that of the file: so is its text.
  same_text :
      (observed file : Option String)
      → same_head
          (head sha256 json_text json_pretty json_parse file)
          (head sha256 json_text json_pretty json_parse observed)
        ≡ true
      → ((s t : String) → observed ≡ some s → file ≡ some t → sha256 s ≡ sha256 t → s ≡ t)
      → observed ≡ file
  unfolding head
  same_text none none h k = refl
  same_text none (some t) h k = absurd (ground (arith, h))
  same_text (some s) none h k = absurd (ground (arith, h))
  same_text (some s) (some t) h k =
      ap some (k s t refl refl (ground (arith, h, eq_iff (sha256 t) (sha256 s))))

  not_dry :
      (dry_run : Bool) (body : Fallible (Option String)) (text : String)
      → (if dry_run then ok none else body) ≡ ok (some text)
      → body ≡ ok (some text)
  not_dry true body text h = absurd (ground (arith, h))
  not_dry false body text h = h

  -- What a migration that writes went through: the file that it observed held no ledger, and is the one
  -- that it writes over.
  pub migrated :
      (file observed : Option String) (d document : LedgerDocument) (dry_run : Bool) (text : String)
      → ledger_migrate sha256 json_text json_pretty json_parse document dry_run false observed
          observed file
        ≡ ok (some text)
      → ((s t : String) → observed ≡ some s → file ≡ some t → sha256 s ≡ sha256 t → s ≡ t)
      → Loads file d
      → (is_occupied d ≡ false)
        × (is_occupied document ≡ true)
        × (save_document sha256 json_text json_pretty json_parse document.entries document.changes
            ≡ ok text)
  unfolding ledger_migrate save_document_if_unchanged
  migrated file observed d document dry_run text h q l =
      let (u, e1, h1) = >>=-eq-ok (ensure (is_occupied document) _) _ h in
      let (settled, e2, h2) =
        >>=-eq-ok (load_document sha256 json_text json_pretty json_parse observed) _ h1 in
      let h3 = not_dry dry_run _ text h2 in
      let (v, e4, h4) = >>=-eq-ok (ensure (not (is_occupied settled) || false) _) _ h3 in
      let (written, e5, h5) =
        >>=-eq-ok
          (save_document_if_unchanged sha256 json_text json_pretty json_parse file document.entries
            document.changes (head sha256 json_text json_pretty json_parse observed))
          _ h4 in
      let (w, e6, h6) =
        >>=-eq-ok
          (ensure
            (same_head (head sha256 json_text json_pretty json_parse file)
              (head sha256 json_text json_pretty json_parse observed))
            _)
          _ e5 in
      let o = same_text observed file (ensure-eq-ok _ _ e6) q in
      let same : settled ≡ d =
        ok_inj (sym e2 ∙ ap (load_document sha256 json_text json_pretty json_parse) o ∙ l) in
      let free = ensure-eq-ok _ _ e4 in
      let t : written ≡ text = ap (λ o. get_or o written) (ok_inj h5) in
      (ap is_occupied (sym same) ∙ ground (arith, free), ensure-eq-ok _ _ e1, h6 ∙ ap ok t)
