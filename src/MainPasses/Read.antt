-- ===== src/MainPasses/Read.antt =====
-- The strict reader and the writer of packages/core/src/main-passes.ts. The record's `passes` object is
-- its properties in order.
pub mod Back
use qare.Prelude.{
  ℕ, String, Bool, true, false, ◌&&◌, ◌||◌, not, Option, none, some, List, [], ◌∷◌, length, codes,
  leb, nat_eq, all_chars, has, insert, sort_by, template, is_blank, has_newline, is_control,
  any_char, includes_text, strip_prefix, if◌then◌else◌, ◌==◌,
}
use qare.Fallible.{Fallible, ok, threw, ◌>>=◌, ◌>>◌, ensure}
use qare.Json.{Json, obj, Fields, field, end, keys, get, as_record, as_text, is_text}
use qare.Ledger.Types.{only_keys, is_criterion_id}
use qare.MainPasses.Instant.{instant}

pub record MainPass : Type 0 where
  pub sha : String
  pub at : String
  pub run : String
  pub recorded_at : String
  pub entry : String

abbrev is_hex : ℕ → Bool
is_hex c = (leb 48 c && leb c 57) || (leb 97 c && leb c 102)

-- `SHA`.
abbrev pub is_commit : String → Bool
is_commit s = nat_eq (length (codes s)) 40 && all_chars is_hex s

-- `DIGEST`.
unfoldable pub is_digest : String → Bool
is_digest s = elim (strip_prefix "sha256:" s) [
  | none ↦ false
  | some h ↦ nat_eq (length (codes h)) 64 && all_chars is_hex h
]

-- A string that passes a test.
unfoldable pub checked_text : (String → Bool) → Option Json → String → Fallible String
checked_text test (some (Json.text s)) at = do ensure (test s) at; ok s
checked_text test _ at = threw at

unfoldable pub fields_of : Option Json → String → Fallible Fields
fields_of (some (obj fs)) at = ok fs
fields_of _ at = threw at

unfoldable pub parse_pass_fields : String → Fields → Fallible MainPass
parse_pass_fields at fs = do
  only_keys ("sha" ∷ "at" ∷ "run" ∷ "recordedAt" ∷ "entry" ∷ []) at (keys fs)
  sha ← checked_text is_commit (get "sha" fs) (template (at ∷ ".sha" ∷ []))
  run ←
      checked_text (λ s. not (is_blank s) && not (has_newline s)) (get "run" fs)
        (template (at ∷ ".run" ∷ []))
  entry ← checked_text is_digest (get "entry" fs) (template (at ∷ ".entry" ∷ []))
  moment ← instant (get "at" fs) (template (at ∷ ".at" ∷ []))
  recorded ← instant (get "recordedAt" fs) (template (at ∷ ".recordedAt" ∷ []))
  ok (record { sha = sha; at = moment; run = run; recorded_at = recorded; entry = entry })

unfoldable pub parse_pass : Json → String → Fallible MainPass
parse_pass value at = fields_of (some value) at >>= λ fs. parse_pass_fields at fs

-- `criterionId` refuses the empty id as well.
unfoldable pub parse_id : String → Fallible String
parse_id id = do ensure (not (id == "") && is_criterion_id id) "document.passes"; ok id

-- `Object.entries(input.passes)`, each read.
unfoldable pub parse_passes : Fields → Fallible (List (String × MainPass))
parse_passes end = ok []
parse_passes (field id value fs) = do
  name ← parse_id id
  pass ← parse_pass value (template ("passes[" ∷ id ∷ "]" ∷ []))
  rest ← parse_passes fs
  ok ((name, pass) ∷ rest)

unfoldable pub parse_record_fields : Fields → Fallible (List (String × MainPass))
parse_record_fields fs = do
  only_keys ("schemaVersion" ∷ "passes" ∷ []) "document" (keys fs)
  ensure (is_text "1" (get "schemaVersion" fs)) "document.schemaVersion"
  passes ← fields_of (get "passes" fs) "document.passes"
  parse_passes passes

unfoldable pub read_record : Option Json → Fallible (List (String × MainPass))
read_record none = threw "main passes: the record is not JSON"
read_record (some input) = fields_of (some input) "document" >>= λ fs. parse_record_fields fs

unfoldable pub parse_main_passes :
    (String → Option Json) → String → Fallible (List (String × MainPass))
parse_main_passes json_parse text = read_record (json_parse text)

unfoldable pub pass_json : MainPass → Json
pass_json p = obj (
    field "sha" (Json.text p.sha) (
      field "at" (Json.text p.at) (
        field "run" (Json.text p.run)
          (field "recordedAt" (Json.text p.recorded_at) (field "entry" (Json.text p.entry) end)))))

unfoldable pub pass_fields : List (String × MainPass) → Fields
pass_fields [] = end
pass_fields ((id, pass) ∷ rest) = field id (pass_json pass) (pass_fields rest)

unfoldable pub record_json : List (String × MainPass) → Json
record_json passes = obj (
    field "schemaVersion" (Json.text "1")
      (field "passes" (obj (pass_fields (sort_by (λ (p : String × MainPass). p.0) passes))) end))

unfoldable pub serialize_main_passes :
    (Json → String) → (String → Option Json) → List (String × MainPass) → Fallible String
serialize_main_passes json_pretty json_parse passes = do
  let text = template (json_pretty (record_json passes) ∷ "\n" ∷ [])
  parse_main_passes json_parse text >>= λ store. ok text
