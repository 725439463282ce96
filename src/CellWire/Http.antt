-- ===== src/CellWire/Http.antt =====
-- `httpHost` of packages/core/src/cell-wire.ts, on the bytes that `latin1` reads.
pub mod Stable
use qare.Prelude.{
  ℕ, zero, suc, ◌+◌, ◌-◌, Bool, true, false, ◌&&◌, ◌||◌, not, Option, none, some, List, [], ◌∷◌,
  length, take, drop, leb, nat_eq, all, any, is_space, is_empty, codes, if◌then◌else◌, ◌≡◌, refl,
}
use qare.CellWire.{Peeked, more, read, read_nothing, named}

-- What follows a byte, if it stands first.
abbrev pub after_byte : ℕ → List ℕ → Option (List ℕ)
after_byte c [] = none
after_byte c (d ∷ ds) = if nat_eq c d then some ds else none

abbrev pub starts_with : List ℕ → List ℕ → Bool
starts_with [] ds = true
starts_with (c ∷ cs) [] = false
starts_with (c ∷ cs) (d ∷ ds) = nat_eq c d && starts_with cs ds

abbrev pub blank_line : List ℕ
blank_line = 13 ∷ 10 ∷ 13 ∷ 10 ∷ []

abbrev pub put_before : ℕ → Option (List ℕ) → Option (List ℕ)
put_before c none = none
put_before c (some cs) = some (c ∷ cs)

-- `text.slice(0, text.indexOf('\r\n\r\n'))`, `none` for -1.
unfoldable pub head_of : List ℕ → Option (List ℕ)
head_of [] = none
head_of (c ∷ cs) =
    let rest = put_before c (head_of cs) in
    if starts_with blank_line (c ∷ cs) then some [] else rest

abbrev put_in_first : ℕ → List (List ℕ) → List (List ℕ)
put_in_first c [] = (c ∷ []) ∷ []
put_in_first c (line ∷ lines) = (c ∷ line) ∷ lines

-- `split('\r\n')`.
unfoldable pub split_lines : List ℕ → List (List ℕ)
split_lines [] = [] ∷ []
split_lines (c ∷ []) = (c ∷ []) ∷ []
split_lines (c ∷ d ∷ cs) =
    let inside = put_in_first c (split_lines (d ∷ cs)) in
    let broken = [] ∷ split_lines cs in if nat_eq c 13 && nat_eq d 10 then broken else inside

abbrev skip_blanks : List ℕ → List ℕ
skip_blanks [] = []
skip_blanks (c ∷ cs) = let rest = skip_blanks cs in if is_space c then rest else c ∷ cs

abbrev without_blanks : List ℕ → List ℕ
without_blanks [] = []
without_blanks (c ∷ cs) =
    let rest = without_blanks cs in if is_space c && all is_space cs then [] else c ∷ rest

abbrev lower : ℕ → ℕ
lower c = if leb 65 c && leb c 90 then c + 32 else c

-- What follows `host:`, in any case.
abbrev host_field : List ℕ → List ℕ → Option (List ℕ)
host_field [] line = some line
host_field (c ∷ cs) [] = none
host_field (c ∷ cs) (d ∷ ds) =
    let rest = host_field cs ds in if nat_eq c (lower d) then rest else none

-- `/^host:\s*(.*?)\s*$/i`, with the group: `.` matches no line end.
unfoldable pub host_value : List ℕ → Option (List ℕ)
host_value line = elim (host_field (codes "host:") line) [
  | none ↦ none
  | some value ↦
      let trimmed = without_blanks (skip_blanks value) in
      if any (λ c. nat_eq c 10 || nat_eq c 13) trimmed then none else some trimmed
]

-- `replace(/:\d+$/, '')`.
unfoldable pub without_port : List ℕ → List ℕ
without_port [] = []
without_port (c ∷ cs) =
    let rest = without_port cs in
    if nat_eq c 58 && not (is_empty cs) && all (λ d. leb 48 d && leb d 57) cs then [] else c ∷ rest

unfoldable pub host_in : List (List ℕ) → Peeked
host_in [] = read_nothing
host_in (line ∷ lines) = elim (host_value line) [
  | none ↦ host_in lines
  | some value ↦ named (without_port value)
]

-- The answer from the head of the request, if its end has come.
unfoldable pub http_host_from : Bool → Option (List ℕ) → Peeked
http_host_from is_full none = if is_full then read_nothing else more
http_host_from is_full (some head) = host_in (drop 1 (split_lines head))

-- With the most bytes that a head may take.
unfoldable pub http_host_within : ℕ → List ℕ → Peeked
http_host_within limit bytes =
    http_host_from (leb limit (length bytes)) (head_of (take limit bytes))

unfoldable pub http_host : List ℕ → Peeked
http_host bytes = http_host_within 8192 bytes
