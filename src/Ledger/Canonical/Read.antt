-- ===== src/Ledger/Canonical/Read.antt =====
-- What the strict reader makes of a canonical entry, where it takes it.
use qare.Prelude.{
  ℕ, ◌+◌, String, Bool, true, false, Option, none, some, List, [], ◌∷◌, if◌then◌else◌, ◌==◌, ◌≡◌,
  refl, ap, sym, ◌∙◌, arith, subst,
}
use qare.Fallible.{Fallible, ok, ensure, >>=-eq-ok, ok_inj}
use qare.Json.{Json, items, Fields, keys, get}
use qare.Ledger.Types.{
  LedgerStatus, proposed, active, superseded, retired, status_text, LedgerResolution, LedgerEntry,
  validate_criterion_id, non_empty_string, one_line_string, only_keys, at_index,
}
use qare.Ledger.History.{text_items, parse_ids}
use qare.Ledger.Entries.{
  at_key, parse_lines, source_links, parse_status, when_there, parse_supersedes, is_question_id,
  parse_classification, parse_resolution, parse_resolution_fields, parse_entry, parse_entry_fields,
  entry_keys, resolution_keys,
}
use qare.Ledger.Canonical.{
  canonical_entry, canonical_fields, optional, texts, single, resolution_of, resolution_json,
}

-- What a reader makes of a value that was written is that value.
abbrev pub ReadsBack {ℓ} : {A : Type ℓ} → Fallible A → A → Type ℓ
ReadsBack {A} m a = (b : A) → m ≡ ok b → b ≡ a

abbrev or_else : Option Json → Option Json → Option Json
or_else none d = d
or_else (some j) d = some j

get-optional :
    (k j : String) (v : Option Json) (rest : Fields)
    → get k (optional j v rest) ≡ (if j == k then or_else v (get k rest) else get k rest)
unfolding optional
get-optional k j none rest = ground arith
get-optional k j (some v) rest = refl

pub one_line_text : (s at : String) → ReadsBack (one_line_string (some (Json.text s)) at) s
unfolding one_line_string
one_line_text s at b h = ground (arith, h)

pub name_text : (s at : String) → ReadsBack (non_empty_string (some (Json.text s)) at) s
unfolding non_empty_string
name_text s at b h = ground (arith, h)

id_text : (s at : String) → ReadsBack (validate_criterion_id s at) s
unfolding validate_criterion_id
id_text s at b h = ground (arith, h)

lines_text :
    (at : String) (n : ℕ) (ss : List String)
    → ReadsBack (parse_lines at n (items (text_items ss))) ss
unfolding parse_lines
lines_text at n [] b h = ground (arith, h)
lines_text at n (s ∷ ss) b h =
    let p = >>=-eq-ok (one_line_string (some (Json.text s)) (at_index at n)) _ h in
    let q = >>=-eq-ok (parse_lines at (n + 1) (items (text_items ss))) _ p.2 in
    let e = one_line_text s (at_index at n) p.0 p.1 in
    let f = lines_text at (n + 1) ss q.0 q.1 in ground (arith, e, f, q.2)

pub ids_text :
    (at : String) (n : ℕ) (ss : List String) → ReadsBack (parse_ids at n (items (text_items ss))) ss
unfolding parse_ids
ids_text at n [] b h = ground (arith, h)
ids_text at n (s ∷ ss) b h =
    let p = >>=-eq-ok (non_empty_string (some (Json.text s)) (at_index at n)) _ h in
    let r = >>=-eq-ok (validate_criterion_id p.0 (at_index at n)) _ p.2 in
    let q = >>=-eq-ok (parse_ids at (n + 1) (items (text_items ss))) _ r.2 in
    let e = name_text s (at_index at n) p.0 p.1 in
    let g = id_text p.0 (at_index at n) r.0 r.1 in
    let f = ids_text at (n + 1) ss q.0 q.1 in ground (arith, e, f, g, q.2)

status_read :
    (s : LedgerStatus) (at : String)
    → ReadsBack (parse_status (some (Json.text (status_text s))) at) s
unfolding parse_status
status_read proposed at b h = ground (arith, h)
status_read active at b h = ground (arith, h)
status_read superseded at b h = ground (arith, h)
status_read retired at b h = ground (arith, h)

links_text :
    (at : String) (ss : List String)
    → ReadsBack (source_links (some (Json.arr (text_items ss))) at) ss
unfolding source_links
links_text at ss b h = lines_text at 0 ss b h

supersedes_text :
    (at : String) (ss : List String)
    → ReadsBack (parse_supersedes at (some (Json.arr (text_items ss)))) ss
unfolding parse_supersedes
supersedes_text at ss b h =
    let p = >>=-eq-ok (parse_ids at 0 (items (text_items ss))) _ h in
    let e = ids_text at 0 ss p.0 p.1 in ground (arith, e, p.2)

module _ {ℓ} {A : Type ℓ} (read : Option Json → Fallible A) where
  there :
      (j : Json) (a : A)
      → ReadsBack (read (some j)) a
      → ReadsBack (when_there read (some j)) (some a)
  there j a k b h =
      let p = >>=-eq-ok (read (some j)) _ h in let e = k p.0 p.1 in sym (ok_inj p.2) ∙ ap some e

  not_there : ReadsBack (when_there read none) none
  not_there b h = sym (ok_inj h)

when_single :
    (read : Option Json → Fallible String) (o : Option String)
    → ((s : String) → ReadsBack (read (some (Json.text s))) s)
    → ReadsBack (when_there read (single o)) o
unfolding single
when_single read none k = not_there read
when_single read (some s) k = there read (Json.text s) s (k s)

when_texts :
    (read : Option Json → Fallible (List String)) (o : Option (List String))
    → ((ss : List String) → ReadsBack (read (some (Json.arr (text_items ss)))) ss)
    → ReadsBack (when_there read (texts o)) o
unfolding texts
when_texts read none k = not_there read
when_texts read (some ss) k = there read (Json.arr (text_items ss)) ss (k ss)

class_text :
    (b : Bool) (at : String)
    → ReadsBack
        (parse_classification (some (Json.text (if b then "supersede" else "regression"))) at)
        b
unfolding parse_classification
class_text true at b h = ground (arith, h)
class_text false at b h = ground (arith, h)

resolution_read :
    (at : String) (r : LedgerResolution)
    → ReadsBack (parse_resolution at (some (resolution_json r))) r
unfolding parse_resolution parse_resolution_fields resolution_json
resolution_read at r b h =
    let h0 = (>>=-eq-ok (only_keys resolution_keys at resolution_keys) _ h).2 in
    let h1 =
      >>=-eq-ok (non_empty_string (some (Json.text r.question)) (at_key at "question")) _ h0 in
    let h2 = >>=-eq-ok (ensure (is_question_id h1.0) (at_key at "question")) _ h1.2 in
    let h3 =
      >>=-eq-ok
        (parse_classification
          (some (Json.text (if r.is_supersede then "supersede" else "regression")))
          (at_key at "classification"))
        _ h2.2 in
    let h4 = >>=-eq-ok (one_line_string (some (Json.text r.by)) (at_key at "by")) _ h3.2 in
    let h5 = >>=-eq-ok (one_line_string (some (Json.text r.why)) (at_key at "why")) _ h4.2 in
    let h6 = >>=-eq-ok (one_line_string (some (Json.text r.at)) (at_key at "at")) _ h5.2 in
    let e1 = name_text r.question (at_key at "question") h1.0 h1.1 in
    let e3 = class_text r.is_supersede (at_key at "classification") h3.0 h3.1 in
    let e4 = one_line_text r.by (at_key at "by") h4.0 h4.1 in
    let e5 = one_line_text r.why (at_key at "why") h5.0 h5.1 in
    let e6 = one_line_text r.at (at_key at "at") h6.0 h6.1 in
    ground (arith, ok_inj h6.2, e1, e3, e4, e5, e6)

when_resolution :
    (at : String) (o : Option LedgerResolution)
    → ReadsBack (when_there (parse_resolution at) (resolution_of o)) o
unfolding resolution_of
when_resolution at none = not_there (parse_resolution at)
when_resolution at (some r) =
    there (parse_resolution at) (resolution_json r) r (resolution_read at r)

or_none : (v : Option Json) → or_else v none ≡ v
or_none none = refl
or_none (some j) = refl

module _ (e : LedgerEntry) where
  fs : Fields
  fs = canonical_fields e

  get_criterion : get "criterion" (canonical_fields e) ≡ some (Json.text e.criterion)
  unfolding canonical_fields
  get_criterion = simp get-optional

  get_status : get "status" (canonical_fields e) ≡ some (Json.text (status_text e.status))
  unfolding canonical_fields
  get_status = simp get-optional

  get_proof : get "proof" (canonical_fields e) ≡ some (Json.text e.proof)
  unfolding canonical_fields
  get_proof = simp get-optional

  get_source : get "source" (canonical_fields e) ≡ some (Json.arr (text_items e.source))
  unfolding canonical_fields
  get_source = simp get-optional

  get_note : get "note" (canonical_fields e) ≡ single e.note
  unfolding canonical_fields
  get_note = simp (get-optional, or_none)

  get_supersedes : get "supersedes" (canonical_fields e) ≡ texts e.supersedes
  unfolding canonical_fields
  get_supersedes = simp (get-optional, or_none)

  get_text : get "text" (canonical_fields e) ≡ single e.text
  unfolding canonical_fields
  get_text = simp (get-optional, or_none)

  get_checks : get "checks" (canonical_fields e) ≡ texts e.checks
  unfolding canonical_fields
  get_checks = simp (get-optional, or_none)

  get_resolution : get "resolution" (canonical_fields e) ≡ resolution_of e.resolution
  unfolding canonical_fields
  get_resolution = simp (get-optional, or_none)

-- A reader of a property, at what the property is.
read_at {ℓ} :
    {A : Type ℓ} (read : Option Json → Fallible A) (o o' : Option Json) (a b : A)
    → o ≡ o'
    → ReadsBack (read o') a
    → read o ≡ ok b
    → b ≡ a
read_at read o o' a b e k h = k b (subst (λ x. read x ≡ ok b) e h)

pub entry_read : (e : LedgerEntry) (at : String) → ReadsBack (parse_entry (canonical_entry e) at) e
unfolding parse_entry parse_entry_fields canonical_entry
entry_read e at b h =
    let fs = canonical_fields e in
    let h0 = (>>=-eq-ok (only_keys entry_keys at (keys fs)) _ h).2 in
    let h1 = >>=-eq-ok (non_empty_string (get "criterion" fs) (at_key at "criterion")) _ h0 in
    let h2 = >>=-eq-ok (validate_criterion_id h1.0 (at_key at "criterion")) _ h1.2 in
    let h3 = >>=-eq-ok (parse_status (get "status" fs) (at_key at "status")) _ h2.2 in
    let h4 = >>=-eq-ok (one_line_string (get "proof" fs) (at_key at "proof")) _ h3.2 in
    let h5 = >>=-eq-ok (source_links (get "source" fs) (at_key at "source")) _ h4.2 in
    let line = λ (k : String) (j : Option Json). one_line_string j (at_key at k) in
    let h6 = >>=-eq-ok (when_there (line "note") (get "note" fs)) _ h5.2 in
    let h7 =
      >>=-eq-ok (when_there (parse_supersedes (at_key at "supersedes")) (get "supersedes" fs)) _
        h6.2 in
    let h8 = >>=-eq-ok (when_there (line "text") (get "text" fs)) _ h7.2 in
    let links = λ (j : Option Json). source_links j (at_key at "checks") in
    let h9 = >>=-eq-ok (when_there links (get "checks" fs)) _ h8.2 in
    let h10 =
      >>=-eq-ok (when_there (parse_resolution (at_key at "resolution")) (get "resolution" fs)) _
        h9.2 in
    let e1 =
      read_at (λ j. non_empty_string j (at_key at "criterion")) (get "criterion" fs) _ e.criterion
        h1.0 (get_criterion e) (name_text e.criterion (at_key at "criterion")) h1.1 in
    let e2 = id_text h1.0 (at_key at "criterion") h2.0 h2.1 in
    let e3 =
      read_at (λ j. parse_status j (at_key at "status")) (get "status" fs) _ e.status h3.0
        (get_status e) (status_read e.status (at_key at "status")) h3.1 in
    let e4 =
      read_at (line "proof") (get "proof" fs) _ e.proof h4.0 (get_proof e)
        (one_line_text e.proof (at_key at "proof")) h4.1 in
    let e5 =
      read_at (λ j. source_links j (at_key at "source")) (get "source" fs) _ e.source h5.0
        (get_source e) (links_text (at_key at "source") e.source) h5.1 in
    let e6 =
      read_at (when_there (line "note")) (get "note" fs) _ e.note h6.0 (get_note e)
        (when_single (line "note") e.note (λ s. one_line_text s (at_key at "note"))) h6.1 in
    let e7 =
      read_at (when_there (parse_supersedes (at_key at "supersedes"))) (get "supersedes" fs) _
        e.supersedes h7.0 (get_supersedes e)
        (when_texts (parse_supersedes (at_key at "supersedes")) e.supersedes
          (supersedes_text (at_key at "supersedes")))
        h7.1 in
    let e8 =
      read_at (when_there (line "text")) (get "text" fs) _ e.text h8.0 (get_text e)
        (when_single (line "text") e.text (λ s. one_line_text s (at_key at "text"))) h8.1 in
    let e9 =
      read_at (when_there links) (get "checks" fs) _ e.checks h9.0 (get_checks e)
        (when_texts links e.checks (links_text (at_key at "checks"))) h9.1 in
    let e10 =
      read_at (when_there (parse_resolution (at_key at "resolution"))) (get "resolution" fs) _
        e.resolution h10.0 (get_resolution e)
        (when_resolution (at_key at "resolution") e.resolution) h10.1 in
    ground (arith, ok_inj h10.2, e1, e2, e3, e4, e5, e6, e7, e8, e9, e10)
