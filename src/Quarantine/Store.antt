-- ===== src/Quarantine/Store.antt =====
-- What the quarantine store keeps (`saveQuarantine`, `readQuarantine`, `addQuarantineRecord`).
use qare.Prelude.{
  String, Bool, true, false, ◌&&◌, not, Option, none, some, List, [], ◌∷◌, ◌++◌, filter, find,
  if◌then◌else◌, ◌==◌, ◌≡◌, refl, arith, eq_iff, eq_refl, all, Bool-cases, ap, inl, inr, ◌∙◌, sym,
}
use qare.Fallible.{ok}
use qare.Json.{Json}
use qare.Quarantine.{
  QuarantineRecord, QuarantineContext, contents, record_from, record_json, records_in, records_json,
  records_from, store_json, read_quarantine, quarantined_record, add_quarantine_record,
  save_quarantine,
}

-- Every field is filled, as the reader asks.
abbrev pub is_full : QuarantineRecord → Bool
is_full r =
    not (r.check == "")
    && not (r.fingerprint == "")
    && not (r.criterion == "")
    && not (r.reason == "")
    && not (r.quarantined_at == "")

records_in-records_json :
    (rs : List QuarantineRecord)
    → all is_full rs ≡ true
    → records_in (qare.Json.items (records_json rs)) ≡ ok rs
unfolding records_in records_json record_json record_from
records_in-records_json [] h = refl
records_in-records_json (r ∷ rs) h = ground (arith, records_in-records_json rs)

-- A store that could be read, whose records are full, and that was written as a text which parses to
-- what was written, is read back as it was.
pub read-save :
    (json_parse : String → Option Json) (written : String) (context : QuarantineContext)
    → context.unreadable ≡ none
    → all is_full context.records ≡ true
    → json_parse written ≡ save_quarantine (some context)
    → read_quarantine json_parse context.dir (contents written) ≡ context
unfolding save_quarantine read_quarantine store_json records_from
read-save json_parse written context readable full e =
    ground (arith, records_in-records_json context.records full)

find-filter :
    (fp other : String) (rs : List QuarantineRecord)
    → (fp == other) ≡ false
    → find
        (λ (r : QuarantineRecord). r.fingerprint == other)
        (filter (λ (r : QuarantineRecord). not (r.fingerprint == fp)) rs)
      ≡ find (λ (r : QuarantineRecord). r.fingerprint == other) rs
find-filter fp other [] h = refl
find-filter fp other (r ∷ rs) h = ground (
  arith,
  eq_iff r.fingerprint fp,
  eq_iff r.fingerprint other,
  eq_iff fp other,
  find-filter fp other rs,
)

find-filter_self :
    (r : QuarantineRecord) (rs tail : List QuarantineRecord)
    → find
        (λ (e : QuarantineRecord). e.fingerprint == r.fingerprint)
        (filter (λ (e : QuarantineRecord). not (e.fingerprint == r.fingerprint)) rs ++ tail)
      ≡ find (λ (e : QuarantineRecord). e.fingerprint == r.fingerprint) tail
find-filter_self r [] tail = refl
find-filter_self r (e ∷ rs) tail = ground (arith, find-filter_self r rs tail)

find-append_miss :
    (fp : String) (rs : List QuarantineRecord) (r : QuarantineRecord)
    → (r.fingerprint == fp) ≡ false
    → find (λ (e : QuarantineRecord). e.fingerprint == fp) (rs ++ r ∷ [])
      ≡ find (λ (e : QuarantineRecord). e.fingerprint == fp) rs
find-append_miss fp [] r h = ground arith
find-append_miss fp (e ∷ rs) r h = ground (arith, find-append_miss fp rs r)

-- After a check is quarantined its record is found under its fingerprint, in place of any it had,
-- and every other fingerprint has the record it had.
pub quarantined_record-add :
    (context : QuarantineContext) (r : QuarantineRecord) (fp : String)
    → quarantined_record (some (add_quarantine_record context r)) fp
      ≡ (if r.fingerprint == fp then some r else quarantined_record (some context) fp)
unfolding quarantined_record add_quarantine_record
quarantined_record-add context r fp = elim (Bool-cases (r.fingerprint == fp)) [
  | inl y ↦ rw y (
      ap
        (λ k.
          find (λ (e : QuarantineRecord). e.fingerprint == k)
            (filter (λ (e : QuarantineRecord). not (e.fingerprint == r.fingerprint)) context.records
              ++ r ∷ []))
        (sym ((eq_iff r.fingerprint fp).0 y))
      ∙ find-filter_self r context.records (r ∷ [])
      ∙ rw (eq_refl r.fingerprint))
  | inr n ↦ rw n (
      find-append_miss fp
        (filter (λ (e : QuarantineRecord). not (e.fingerprint == r.fingerprint)) context.records) r
        n
      ∙ find-filter r.fingerprint fp context.records n)
]
