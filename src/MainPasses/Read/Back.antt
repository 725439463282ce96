-- ===== src/MainPasses/Read/Back.antt =====
-- What the strict reader makes of a record that was written.
use qare.Prelude.{
  String, Bool, ◌&&◌, not, some, List, [], ◌∷◌, sort_by, template, is_blank, has_newline, sym, ap₂,
  ◌∙◌, arith,
}
use qare.Fallible.{ensure, >>=-eq-ok, ok_inj}
use qare.Json.{Json}
use qare.Ledger.Types.{only_keys}
use qare.Ledger.Canonical.Read.{ReadsBack}
use qare.MainPasses.Instant.{instant}
use qare.MainPasses.Read.{
  MainPass, is_commit, is_digest, checked_text, fields_of, parse_pass_fields, parse_pass, parse_id,
  parse_passes, parse_record_fields, read_record, pass_json, pass_fields, record_json,
}

checked_read :
    (test : String → Bool) (s at : String) → ReadsBack (checked_text test (some (Json.text s)) at) s
unfolding checked_text
checked_read test s at b h = sym (ok_inj (>>=-eq-ok (ensure (test s) at) _ h).2)

instant_read : (s at : String) → ReadsBack (instant (some (Json.text s)) at) s
unfolding instant
instant_read s at b h = ground (arith, h)

id_read : (id : String) → ReadsBack (parse_id id) id
unfolding parse_id
id_read id b h = ground (arith, h)

abbrev pass_keys : List String
pass_keys = "sha" ∷ "at" ∷ "run" ∷ "recordedAt" ∷ "entry" ∷ []

pass_read : (p : MainPass) (at : String) → ReadsBack (parse_pass (pass_json p) at) p
unfolding parse_pass parse_pass_fields pass_json fields_of
pass_read p at b h =
    let name : String → String = λ k. template (at ∷ k ∷ []) in
    let line : String → Bool = λ s. not (is_blank s) && not (has_newline s) in
    let h0 = (>>=-eq-ok (only_keys pass_keys at pass_keys) _ h).2 in
    let h1 = >>=-eq-ok (checked_text is_commit (some (Json.text p.sha)) (name ".sha")) _ h0 in
    let h2 = >>=-eq-ok (checked_text line (some (Json.text p.run)) (name ".run")) _ h1.2 in
    let h3 = >>=-eq-ok (checked_text is_digest (some (Json.text p.entry)) (name ".entry")) _ h2.2 in
    let h4 = >>=-eq-ok (instant (some (Json.text p.at)) (name ".at")) _ h3.2 in
    let h5 = >>=-eq-ok (instant (some (Json.text p.recorded_at)) (name ".recordedAt")) _ h4.2 in
    let e1 = checked_read is_commit p.sha _ h1.0 h1.1 in
    let e2 = checked_read line p.run _ h2.0 h2.1 in
    let e3 = checked_read is_digest p.entry _ h3.0 h3.1 in
    let e4 = instant_read p.at _ h4.0 h4.1 in
    let e5 = instant_read p.recorded_at _ h5.0 h5.1 in
    sym (ok_inj h5.2) ∙ ground (arith, e1, e2, e3, e4, e5)

passes_read : (ps : List (String × MainPass)) → ReadsBack (parse_passes (pass_fields ps)) ps
unfolding parse_passes pass_fields
passes_read [] b h = sym (ok_inj h)
passes_read ((id, pass) ∷ ps) b h =
    let h1 = >>=-eq-ok (parse_id id) _ h in
    let h2 =
      >>=-eq-ok (parse_pass (pass_json pass) (template ("passes[" ∷ id ∷ "]" ∷ []))) _ h1.2 in
    let h3 = >>=-eq-ok (parse_passes (pass_fields ps)) _ h2.2 in
    let e1 = id_read id h1.0 h1.1 in
    let e2 = pass_read pass _ h2.0 h2.1 in
    let e3 = passes_read ps h3.0 h3.1 in
    sym (ok_inj h3.2) ∙ ap₂ (λ (p : String × MainPass) t. p ∷ t) (ap₂ (λ i p. (i, p)) e1 e2) e3

abbrev pub in_order : List (String × MainPass) → List (String × MainPass)
in_order passes = sort_by (λ (p : String × MainPass). p.0) passes

pub record_read :
    (ps : List (String × MainPass)) → ReadsBack (read_record (some (record_json ps))) (in_order ps)
unfolding read_record parse_record_fields record_json fields_of
record_read ps b h =
    let names : List String = "schemaVersion" ∷ "passes" ∷ [] in
    let h1 = (>>=-eq-ok (only_keys names "document" names) _ h).2 in passes_read (in_order ps) b h1
