-- ===== src/Ledger/History/Read.antt =====
-- What the strict reader makes of a history that was written, where it takes it.
use qare.Prelude.{ℕ, ◌+◌, String, some, List, [], ◌∷◌, template, ap₂, sym, ◌∙◌, arith}
use qare.Fallible.{>>=-eq-ok, ok_inj}
use qare.Json.{Json, items}
use qare.Ledger.Types.{
  LedgerChangeKind, ingest, verify, supersede, regression, retire, import_, kind_text,
  non_empty_string, one_line_string, only_keys, at_index,
}
use qare.Ledger.History.{
  LedgerChange, text_items, parse_ids, parse_change, check_link, parse_chain, parse_changes, seq_of,
  kind_at, array_at, record_at,
}
use qare.Ledger.Document.{change_json, change_items}
use qare.Ledger.Canonical.Read.{ReadsBack, one_line_text, name_text, ids_text}

seq_read : (n : ℕ) (at : String) → ReadsBack (seq_of (some (Json.num n)) at) n
unfolding seq_of
seq_read n at b h = ground (arith, h)

kind_read :
    (k : LedgerChangeKind) (at : String) → ReadsBack (kind_at (some (Json.text (kind_text k))) at) k
unfolding kind_at
kind_read ingest at b h = ground (arith, h)
kind_read verify at b h = ground (arith, h)
kind_read supersede at b h = ground (arith, h)
kind_read regression at b h = ground (arith, h)
kind_read retire at b h = ground (arith, h)
kind_read import_ at b h = ground (arith, h)

at_field : String → String → String
at_field at k = template (at ∷ k ∷ [])

change_read : (c : LedgerChange) (n : ℕ) → ReadsBack (parse_change (change_json c) n) c
unfolding parse_change change_json record_at array_at at_field
change_read c n b h =
    let at = at_index "document.changes" n in
    let ks : List String =
      "seq" ∷ "kind" ∷ "actor" ∷ "timestamp" ∷ "reason" ∷ "criteria" ∷ "digest" ∷ [] in
    let h0 = (>>=-eq-ok (only_keys ks at ks) _ h).2 in
    let h1 = >>=-eq-ok (seq_of (some (Json.num c.seq)) (at_field at ".seq")) _ h0 in
    let h2 =
      >>=-eq-ok (kind_at (some (Json.text (kind_text c.kind))) (at_field at ".kind")) _ h1.2 in
    let h3 = >>=-eq-ok (one_line_string (some (Json.text c.actor)) (at_field at ".actor")) _ h2.2 in
    let h4 =
      >>=-eq-ok (one_line_string (some (Json.text c.timestamp)) (at_field at ".timestamp")) _
        h3.2 in
    let h5 =
      >>=-eq-ok (one_line_string (some (Json.text c.reason)) (at_field at ".reason")) _ h4.2 in
    let h6 =
      >>=-eq-ok (parse_ids (at_field at ".criteria") 0 (items (text_items c.criteria))) _ h5.2 in
    let h7 =
      >>=-eq-ok (non_empty_string (some (Json.text c.digest)) (at_field at ".digest")) _ h6.2 in
    let e1 = seq_read c.seq (at_field at ".seq") h1.0 h1.1 in
    let e2 = kind_read c.kind (at_field at ".kind") h2.0 h2.1 in
    let e3 = one_line_text c.actor (at_field at ".actor") h3.0 h3.1 in
    let e4 = one_line_text c.timestamp (at_field at ".timestamp") h4.0 h4.1 in
    let e5 = one_line_text c.reason (at_field at ".reason") h5.0 h5.1 in
    let e6 = ids_text (at_field at ".criteria") 0 c.criteria h6.0 h6.1 in
    let e7 = name_text c.digest (at_field at ".digest") h7.0 h7.1 in
    ground (arith, ok_inj h7.2, e1, e2, e3, e4, e5, e6, e7)

module _ (sha256 : String → String) (json_text : Json → String) where
  chain_read :
      (previous : String) (n : ℕ) (cs : List LedgerChange)
      → ReadsBack (parse_chain sha256 json_text previous n (items (change_items cs))) cs
  unfolding parse_chain change_items
  chain_read previous n [] b h = sym (ok_inj h)
  chain_read previous n (c ∷ cs) b h =
      let p = >>=-eq-ok (parse_change (change_json c) n) _ h in
      let l = >>=-eq-ok (check_link sha256 json_text previous n p.0) _ p.2 in
      let q =
        >>=-eq-ok (parse_chain sha256 json_text p.0.digest (n + 1) (items (change_items cs))) _
          l.2 in
      let e = change_read c n p.0 p.1 in
      let f = chain_read p.0.digest (n + 1) cs q.0 q.1 in
      sym (ok_inj q.2) ∙ ap₂ (λ (x : LedgerChange) t. x ∷ t) e f

  pub changes_read :
      (cs : List LedgerChange)
      → ReadsBack (parse_changes sha256 json_text (Json.arr (change_items cs))) cs
  unfolding parse_changes array_at
  changes_read cs b h = chain_read "" 0 cs b h
