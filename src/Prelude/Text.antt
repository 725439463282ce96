-- ===== src/Prelude/Text.antt =====
-- JavaScript strings as the native `String`, a sequence of code points, and their operations by
-- clauses. A string is compared by UTF-16 code units, which `units` writes out.
use Prim.Native.Nat.{ℕ, ◌+◌, ◌-◌, ◌/◌, ◌%◌}
use Prim.Native.Char.{code}
use Prim.Native.String
use Prim.Native.String.{String}
use mathlib.Core.Bool.{Bool, true, false, ◌&&◌, ◌||◌, not}
use mathlib.Core.Option
use mathlib.Core.Option.{Option, none, some}
use mathlib.Core.List.{List, [], ◌∷◌, ◌++◌}
use text.Mathlib.Text.{◌==◌}
use qare.Prelude.Tests.{ltb, leb, nat_eq, if◌then◌else◌}

abbrev pub codes : String → List ℕ
codes String.[] = []
codes (String.◌∷◌ c s) = code c ∷ codes s

-- A template literal: its parts, joined.
abbrev pub template : List String → String
template [] = ""
template (s ∷ ss) = String.◌++◌ s (template ss)

abbrev pub any_char : (ℕ → Bool) → String → Bool
any_char p String.[] = false
any_char p (String.◌∷◌ c s) = p (code c) || any_char p s

abbrev pub all_chars : (ℕ → Bool) → String → Bool
all_chars p String.[] = true
all_chars p (String.◌∷◌ c s) = p (code c) && all_chars p s

-- What `trim` and the class `\s` take for white space: the WhiteSpace and LineTerminator of
-- ECMAScript.
abbrev pub is_space : ℕ → Bool
is_space c =
    (leb 9 c && leb c 13)
    || nat_eq c 32
    || nat_eq c 160
    || nat_eq c 0x1680
    || (leb 0x2000 c && leb c 0x200a)
    || nat_eq c 0x2028
    || nat_eq c 0x2029
    || nat_eq c 0x202f
    || nat_eq c 0x205f
    || nat_eq c 0x3000
    || nat_eq c 0xfeff

-- `s.trim() === ''`.
abbrev pub is_blank : String → Bool
is_blank s = all_chars is_space s

-- `/[\r\n]/.test(s)`.
abbrev pub has_newline : String → Bool
has_newline s = any_char (λ c. nat_eq c 10 || nat_eq c 13) s

-- `/[\x00-\x1f\x7f]/`, one character.
abbrev pub is_control : ℕ → Bool
is_control c = leb c 0x1f || nat_eq c 0x7f

-- `s.startsWith(p)`.
abbrev pub has_prefix : String → String → Bool
has_prefix String.[] s = true
has_prefix (String.◌∷◌ c p) String.[] = false
has_prefix (String.◌∷◌ c p) (String.◌∷◌ d s) = nat_eq (code c) (code d) && has_prefix p s

-- `s.includes(p)`.
abbrev pub includes_text : String → String → Bool
includes_text p String.[] = has_prefix p ""
includes_text p (String.◌∷◌ d s) = has_prefix p (String.◌∷◌ d s) || includes_text p s

-- The UTF-16 code units of one code point.
abbrev pub units_of : ℕ → List ℕ
units_of c =
    if ltb c 0x10000
    then c ∷ []
    else (0xd800 + (c - 0x10000) / 0x400) ∷ (0xdc00 + (c - 0x10000) % 0x400) ∷ []

abbrev pub units : String → List ℕ
units String.[] = []
units (String.◌∷◌ c s) = units_of (code c) ++ units s

abbrev pub units_lt : List ℕ → List ℕ → Bool
units_lt xs [] = false
units_lt [] (y ∷ ys) = true
units_lt (x ∷ xs) (y ∷ ys) = ltb x y || (nat_eq x y && units_lt xs ys)

-- `a < b` on strings.
unfoldable pub text_lt : String → String → Bool
text_lt a b = units_lt (units a) (units b)

abbrev trim_end : String → String
trim_end String.[] = ""
trim_end (String.◌∷◌ c s) =
    if is_space (code c) && all_chars is_space s then "" else String.◌∷◌ c (trim_end s)

-- `s.trim()`.
abbrev pub trim : String → String
trim String.[] = ""
trim (String.◌∷◌ c s) =
    let rest = trim s in
    let kept = trim_end (String.◌∷◌ c s) in if is_space (code c) then rest else kept

-- What stands before a suffix, if the text ends with it.
unfoldable pub strip_suffix : String → String → Option String
strip_suffix suffix String.[] = if suffix == "" then some "" else none
strip_suffix suffix (String.◌∷◌ c s) =
    let longer = Option.map (λ r. String.◌∷◌ c r) (strip_suffix suffix s) in
    if String.◌∷◌ c s == suffix then some "" else longer

-- A text that `.` of a regular expression matches to its end: no line terminator.
abbrev pub is_one_line : String → Bool
is_one_line s =
    all_chars (λ c. not (nat_eq c 10 || nat_eq c 13 || nat_eq c 0x2028 || nat_eq c 0x2029)) s

-- What stands after a prefix, if the text begins with it.
abbrev pub strip_prefix : String → String → Option String
strip_prefix String.[] s = some s
strip_prefix (String.◌∷◌ c p) String.[] = none
strip_prefix (String.◌∷◌ c p) (String.◌∷◌ d s) =
    let rest = strip_prefix p s in if nat_eq (code c) (code d) then rest else none

-- The text without its leading white space: what stands after `\s*`.
abbrev pub skip_spaces : String → String
skip_spaces String.[] = ""
skip_spaces (String.◌∷◌ c s) =
    let rest = skip_spaces s in if is_space (code c) then rest else String.◌∷◌ c s

abbrev pub starts_with_space : String → Bool
starts_with_space String.[] = false
starts_with_space (String.◌∷◌ c s) = is_space (code c)
