-- ===== src/Triggers.antt =====
-- packages/core/src/triggers.ts: which comments, labels and CI events start a run, and that one
-- revision starts at most one. The memory of revisions is the members of its `Set`; a property that
-- is not a string is `none`.
pub mod Once
use Prim.Native.Char.{code, Char}
use Prim.Native.String
use qare.Prelude.{
  ℕ, String, Bool, true, false, ◌&&◌, ◌||◌, not, Option, none, some, List, [], ◌∷◌, length, leb,
  has, trim, strip_prefix, starts_with_space, get_or, codes, all, nat_eq, if◌then◌else◌, ◌==◌,
}

pub data TriggerEvent : Type 0 where
  comment : String → String → TriggerEvent
  label : String → TriggerEvent
  ci : String → TriggerEvent

abbrev pub sha_of : TriggerEvent → String
sha_of (comment sha body) = sha
sha_of (label sha) = sha
sha_of (ci sha) = sha

pub data TriggerDecision : Type 0 where
  run dedup ignore : TriggerDecision

pub record TriggerInput : Type 0 where
  pub kind : String
  pub sha : Option String
  pub body : Option String
  pub label : Option String

pub data ParsedTrigger : Type 0 where
  accepted : TriggerEvent → ParsedTrigger
  rejected : String → ParsedTrigger

-- `toLowerCase`, where it matters: what the pattern accepts has no capitals but `A` to `F`, and what
-- holds any other character is rejected, lowered or not.
lower_char : Char → String
lower_char c =
    if nat_eq (code c) b'A'
    then "a"
    else if nat_eq (code c) b'B'
    then "b"
    else if nat_eq (code c) b'C'
    then "c"
    else if nat_eq (code c) b'D'
    then "d"
    else if nat_eq (code c) b'E'
    then "e"
    else if nat_eq (code c) b'F'
    then "f"
    else String.◌∷◌ c ""

lower : String → String
unfolding lower_char
lower String.[] = ""
lower (String.◌∷◌ c s) = String.◌++◌ (lower_char c) (lower s)

is_hex : ℕ → Bool
is_hex c = (leb b'0' c && leb c b'9') || (leb b'a' c && leb c b'f') || (leb b'A' c && leb c b'F')

-- `SHA_PATTERN`.
is_sha : String → Bool
unfolding is_hex
is_sha sha = let n = length (codes sha) in leb 4 n && leb n 40 && all is_hex (codes sha)

-- `/^\/qa(?:\s|$)/.test(body.trim())`.
is_qa_command : String → Bool
is_qa_command body = elim (strip_prefix "/qa" (trim body)) [
  | none ↦ false
  | some rest ↦ rest == "" || starts_with_space rest
]

is_qa_label : Option String → Bool
is_qa_label none = false
is_qa_label (some name) = name == "qa"

unfoldable pub parse_trigger : TriggerInput → ParsedTrigger
unfolding lower is_sha is_qa_command is_qa_label
parse_trigger input =
    let sha = lower (get_or input.sha "") in
    let body = get_or input.body "" in
    if not (is_sha sha)
    then rejected "invalid sha"
    else if input.kind == "comment"
    then (if is_qa_command body then accepted (comment sha body) else rejected "not a /qa command")
    else if input.kind == "label"
    then (if is_qa_label input.label then accepted (label sha) else rejected "not the qa label")
    else if input.kind == "ci"
    then accepted (ci sha)
    else rejected "unknown trigger kind"

unfoldable pub decide_trigger : TriggerEvent → List String → TriggerDecision × List String
decide_trigger event memory =
    if has memory (sha_of event) then (dedup, memory) else (run, sha_of event ∷ memory)

pub record Handled : Type 0 where
  pub decision : TriggerDecision
  pub reason : Option String

handle_parsed : ParsedTrigger → List String → Handled × List String
handle_parsed (rejected reason) memory =
    (record { decision = ignore; reason = some reason }, memory)
handle_parsed (accepted event) memory =
    let (decision, memory') = decide_trigger event memory in
    (record { decision = decision; reason = none }, memory')

unfoldable pub handle_trigger : TriggerInput → List String → Handled × List String
unfolding handle_parsed decide_trigger
handle_trigger raw memory = handle_parsed (parse_trigger raw) memory
