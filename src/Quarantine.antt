-- ===== src/Quarantine.antt =====
-- packages/core/src/quarantine.ts: the store of quarantined checks, how it is read from its file, and
-- what is written back. The file is what the caller read: it is missing, or it cannot be read, or it
-- has a text; `json_parse` is `JSON.parse`, and a store is written as the JSON value it is printed from.
pub mod Store
use qare.Prelude.{
  String, Bool, true, false, ◌&&◌, not, Option, none, some, List, [], ◌∷◌, ◌++◌, filter, find,
  if◌then◌else◌, ◌==◌,
}
use qare.Fallible.{Fallible, ok, threw, ◌>>=◌}
use qare.Json.{
  Json, text, arr, obj, Items, nil, cons, Fields, end, field, items, get, as_text, as_array,
  is_text,
}

pub record QuarantineRecord : Type 0 where
  pub check : String
  pub fingerprint : String
  pub criterion : String
  pub reason : String
  pub quarantined_at : String

pub record QuarantineContext : Type 0 where
  pub dir : String
  pub records : List QuarantineRecord
  pub unreadable : Option String

pub data FileRead : Type 0 where
  missing : FileRead
  read_error : String → FileRead
  contents : String → FileRead

-- A property that is a string and not empty.
filled : Option String → Fallible String
filled none = threw "the store carries a record that is not a full record"
filled (some s) =
    if s == "" then threw "the store carries a record that is not a full record" else ok s

unfoldable pub record_from : Json → Fallible QuarantineRecord
unfolding filled
record_from (obj fs) = do
  check ← filled (as_text (get "check" fs))
  fingerprint ← filled (as_text (get "fingerprint" fs))
  criterion ← filled (as_text (get "criterion" fs))
  reason ← filled (as_text (get "reason" fs))
  quarantined_at ← filled (as_text (get "quarantinedAt" fs))
  ok (record {
    check = check;
    fingerprint = fingerprint;
    criterion = criterion;
    reason = reason;
    quarantined_at = quarantined_at;
  })
record_from (arr js) = threw "the store carries a record that is not a full record"
record_from _ = threw "the store carries a record that is not an object"

unfoldable pub records_in : List Json → Fallible (List QuarantineRecord)
records_in [] = ok []
records_in (j ∷ js) = do first ← record_from j; rest ← records_in js; ok (first ∷ rest)

-- An array is an object without the properties that are asked for.
unfoldable pub records_from : Json → Fallible (List QuarantineRecord)
records_from (obj fs) =
    if is_text "1" (get "schemaVersion" fs)
    then elim (as_array (get "records" fs)) [
      | none ↦ threw "the store carries no records array"
      | some js ↦ records_in js
    ]
    else threw "the store has another schema version"
records_from (arr js) = threw "the store has another schema version"
records_from _ = threw "the store is not a quarantine object"

-- The context after the file's text was parsed.
loaded : String → Fallible (List QuarantineRecord) → QuarantineContext
loaded dir (ok records) = record { dir = dir; records = records; unreadable = none }
loaded dir (threw why) = record { dir = dir; records = []; unreadable = some why }

-- What `JSON.parse` throws is not told from what `recordsFrom` throws.
abbrev parsed_json : Option Json → Fallible Json
parsed_json none = threw "the store is not JSON"
parsed_json (some j) = ok j

unfoldable pub read_quarantine : (String → Option Json) → String → FileRead → QuarantineContext
unfolding loaded
read_quarantine json_parse dir missing = loaded dir (ok [])
read_quarantine json_parse dir (read_error why) = loaded dir (threw why)
read_quarantine json_parse dir (contents s) =
    loaded dir (do j ← parsed_json (json_parse s); records_from j)

unfoldable pub quarantined_record : Option QuarantineContext → String → Option QuarantineRecord
quarantined_record none fingerprint = none
quarantined_record (some context) fingerprint =
    find (λ (r : QuarantineRecord). r.fingerprint == fingerprint) context.records

unfoldable pub add_quarantine_record : QuarantineContext → QuarantineRecord → QuarantineContext
add_quarantine_record context r = record context {
  records =
      filter (λ (entry : QuarantineRecord). not (entry.fingerprint == r.fingerprint))
        context.records
      ++ r ∷ [];
}

record_json : QuarantineRecord → Json
record_json r = obj (
    field "check" (text r.check) (
      field "fingerprint" (text r.fingerprint) (
        field "criterion" (text r.criterion)
          (field "reason" (text r.reason) (field "quarantinedAt" (text r.quarantined_at) end)))))

records_json : List QuarantineRecord → Items
records_json [] = nil
records_json (r ∷ rs) = cons (record_json r) (records_json rs)

unfoldable pub store_json : List QuarantineRecord → Json
unfolding record_json records_json
store_json records =
    obj (field "schemaVersion" (text "1") (field "records" (arr (records_json records)) end))

-- What is written over the file, `none` where nothing is.
unfoldable pub save_quarantine : Option QuarantineContext → Option Json
save_quarantine none = none
save_quarantine (some context) = elim context.unreadable [
  | some why ↦ none
  | none ↦ some (store_json context.records)
]
