-- ===== src/MainFindings/Path.antt =====
-- `checkOf` of packages/core/src/main-findings.ts: the check that an evidence path belongs to.
use Prim.Native.Char.{code}
use Prim.Native.String
use qare.Prelude.{
  ℕ, zero, suc, String, Bool, false, ◌&&◌, ◌||◌, Option, none, some, List, [], ◌∷◌, leb, nat_eq,
  all_chars, strip_prefix, template, if◌then◌else◌, ◌==◌, ◌≡◌, refl,
}

abbrev put_first : String → List String → List String
put_first c [] = c ∷ []
put_first c (part ∷ parts) = String.◌++◌ c part ∷ parts

-- `path.split(/[\\/]/)`.
unfoldable pub split_path : String → List String
split_path String.[] = "" ∷ []
split_path (String.◌∷◌ c s) =
    let parts = split_path s in
    if nat_eq (code c) 47 || nat_eq (code c) 92
    then "" ∷ parts
    else put_first (String.◌∷◌ c "") parts

abbrev is_attempt : Option String → Bool
is_attempt none = false
is_attempt (some digits) =
    if digits == "" then false else all_chars (λ c. leb 48 c && leb c 57) digits

-- `replace(/-attempt\d+$/, '')`.
unfoldable pub strip_attempt : String → String
strip_attempt String.[] = ""
strip_attempt (String.◌∷◌ c s) =
    let rest = strip_attempt s in
    if is_attempt (strip_prefix "-attempt" (String.◌∷◌ c s)) then "" else String.◌∷◌ c rest

-- `parts.slice(0, -1).join('/')`.
unfoldable pub join_but_last : List String → String
join_but_last [] = ""
join_but_last (part ∷ []) = ""
join_but_last (part ∷ last ∷ []) = part
join_but_last (part ∷ next ∷ more ∷ rest) =
    template (part ∷ "/" ∷ join_but_last (next ∷ more ∷ rest) ∷ [])

unfoldable pub check_of_parts : List String → String
check_of_parts (first ∷ criterion ∷ index ∷ rest) =
    if first == "checks"
    then template ("checks/" ∷ criterion ∷ "/" ∷ strip_attempt index ∷ [])
    else join_but_last (first ∷ criterion ∷ index ∷ rest)
check_of_parts parts = join_but_last parts

unfoldable pub check_of : String → String
check_of path = check_of_parts (split_path path)

abbrev take_chars : ℕ → String → String
take_chars zero s = ""
take_chars (suc n) String.[] = ""
take_chars (suc n) (String.◌∷◌ c s) = String.◌∷◌ c (take_chars n s)

-- `digest.slice(0, 16)`.
unfoldable pub first_16 : String → String
first_16 digest = take_chars 16 digest

repeated_attempt : check_of "checks/login/0-attempt2/shot.png" ≡ "checks/login/0"
unfolding check_of split_path check_of_parts strip_attempt
repeated_attempt = refl
