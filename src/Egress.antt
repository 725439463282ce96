-- ===== src/Egress.antt =====
-- The attempts of a run to reach a host: packages/core/src/egress.ts. A record's parts are what
-- `JSON.parse` gave, none for `undefined`; `to_lower` is `toLowerCase`.
pub mod Refused
use Prim.Native.Char.{code}
use Prim.Native.String
use qare.Prelude.{
  ℕ, ◌+◌, String, Bool, true, false, ◌&&◌, ◌||◌, not, Option, none, some, List, [], ◌∷◌, any,
  any_char, trim, has_prefix, strip_prefix, strip_suffix, template, decimal, insert, lookup, get_or,
  is_empty, nat_eq, if◌then◌else◌, ◌==◌,
}
use qare.Json.{Json}

pub record EgressAttempt : Type 0 where
  pub host : Option Json
  pub port : Option Json
  pub protocol : Option Json

pub record EgressFinding : Type 0 where
  pub reason : String
  pub count : ℕ

-- Of a stub, its hosts.
abbrev pub EgressStub : Type 0
EgressStub = List String

-- `replace(/\.$/, '')`.
abbrev without_last_dot : String → String
without_last_dot s = get_or (strip_suffix "." s) s

-- `replace(/[\r\n]+/g, ' ')`, after a character that is a line end or not.
abbrev joined_lines : Bool → String → String
joined_lines in_break String.[] = ""
joined_lines in_break (String.◌∷◌ c s) =
    let is_break = nat_eq (code c) 10 || nat_eq (code c) 13 in
    let rest = joined_lines is_break s in
    if is_break then (if in_break then rest else String.◌++◌ " " rest) else String.◌∷◌ c rest

unfoldable pub sanitize : String → String
sanitize text = joined_lines false text

-- A value that is no string and no finite number is named by its type; `String` of a number is the
-- number's text.
unfoldable pub reason_part : Option Json → String
reason_part none = "unknown"
reason_part (some Json.null) = "unknown"
reason_part (some (Json.text s)) = s
reason_part (some (Json.num n)) = decimal n
reason_part (some (Json.other_num s)) = s
reason_part (some (Json.bool b)) = "boolean"
reason_part (some other) = "object"

-- One attempt that no stub takes: counted, or put after the ones before it.
unfoldable pub count_attempt :
    String → Option EgressFinding → List (String × EgressFinding) → List (String × EgressFinding)
count_attempt key none seen =
    insert key (record { reason = template ("refused: missing stub: " ∷ key ∷ []); count = 1 }) seen
count_attempt key (some existing) seen =
    insert key (record { reason = existing.reason; count = existing.count + 1 }) seen

module _ (to_lower : String → String) where
  unfoldable pub normalize_host : Option Json → String
  normalize_host (some (Json.text host)) = trim (without_last_dot (to_lower host))
  normalize_host other = ""

  -- One host of a stub: a pattern `*.domain` takes one label before the domain.
  unfoldable pub matches_host : String → String → Bool
  matches_host host stub_host = elim (strip_prefix "*." stub_host) [
    | none ↦ host == stub_host
    | some domain ↦ elim (strip_suffix (template ("." ∷ domain ∷ [])) host) [
      | none ↦ false
      | some prefix ↦ not (prefix == "") && not (any_char (λ c. nat_eq c 46) prefix)
    ]
  ]

  unfoldable pub matches_stub : Option Json → List EgressStub → Bool
  matches_stub raw_host stubs =
      let host = normalize_host raw_host in
      not (host == "")
      && any
          (λ (stub : EgressStub).
            any (λ h. matches_host host (normalize_host (some (Json.text h)))) stub)
          stubs

  -- `normalizeHost(attempt.host) || 'unknown'`.
  abbrev named_host : Option Json → String
  named_host host = if normalize_host host == "" then "unknown" else normalize_host host

  unfoldable pub attempt_key : EgressAttempt → String
  unfolding sanitize
  attempt_key a = template (
      sanitize (named_host a.host)
      ∷ ":"
      ∷ sanitize (reason_part a.port)
      ∷ " ("
      ∷ sanitize (reason_part a.protocol)
      ∷ ")"
      ∷ [])

  unfoldable pub summarize_from :
      List EgressStub
      → List EgressAttempt
      → List (String × EgressFinding)
      → List (String × EgressFinding)
  summarize_from stubs [] seen = seen
  summarize_from stubs (a ∷ attempts) seen = summarize_from stubs attempts (
      if matches_stub a.host stubs
      then seen
      else count_attempt (attempt_key a) (lookup (attempt_key a) seen) seen)

pub record EgressSummary : Type 0 where
  -- in the order of their first attempts, with their keys
  pub findings : List (String × EgressFinding)
  -- `refused`, and not `allowed`
  pub is_refused : Bool

unfoldable pub summarize_egress :
    (String → String) → List EgressAttempt → List EgressStub → EgressSummary
summarize_egress to_lower attempts stubs =
    let findings = summarize_from to_lower stubs attempts [] in
    record { findings = findings; is_refused = not (is_empty findings) }
