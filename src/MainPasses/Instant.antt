-- ===== src/MainPasses/Instant.antt =====
-- `instant` of packages/core/src/main-passes.ts: the pattern, and the moments that the calendar has.
-- Of a text that fits the pattern, `new Date` gives the moment that was written back exactly where each
-- part is one that the calendar and the clock have.
use qare.Prelude.{
  ℕ, zero, suc, ◌+◌, ◌-◌, ◌*◌, ◌%◌, String, Bool, false, ◌&&◌, ◌||◌, not, List, [], ◌∷◌, codes,
  nat_eq, leb, if◌then◌else◌, ◌≡◌, refl,
}
use qare.Fallible.{Fallible, ok, threw, ◌>>=◌, ◌>>◌, ensure}
use qare.Json.{Json}
use qare.Prelude.{Option, some}

abbrev is_digit : ℕ → Bool
is_digit c = leb 48 c && leb c 57

-- The number of `n` digits, after one that is read, and what is left.
unfoldable pub read_digits : ℕ → ℕ → List ℕ → Fallible (ℕ × List ℕ)
read_digits zero value cs = ok (value, cs)
read_digits (suc n) value [] = threw "instant"
read_digits (suc n) value (c ∷ cs) =
    ensure (is_digit c) "instant" >>= λ passed. read_digits n (value * 10 + (c - 48)) cs

unfoldable pub read_mark : ℕ → List ℕ → Fallible (List ℕ)
read_mark mark [] = threw "instant"
read_mark mark (c ∷ cs) = do ensure (nat_eq c mark) "instant"; ok cs

-- `(\.\d{1,3})?Z`, to the end.
unfoldable pub is_zone : List ℕ → Bool
is_zone (z ∷ []) = nat_eq z b'Z'
is_zone (p ∷ a ∷ z ∷ []) = nat_eq p b'.' && is_digit a && nat_eq z b'Z'
is_zone (p ∷ a ∷ b ∷ z ∷ []) = nat_eq p b'.' && is_digit a && is_digit b && nat_eq z b'Z'
is_zone (p ∷ a ∷ b ∷ c ∷ z ∷ []) =
    nat_eq p b'.' && is_digit a && is_digit b && is_digit c && nat_eq z b'Z'
is_zone _ = false

unfoldable pub days_in_month : ℕ → ℕ → ℕ
days_in_month year month =
    if nat_eq month 2
    then (if nat_eq (year % 4) 0 && (not (nat_eq (year % 100) 0) || nat_eq (year % 400) 0)
        then 29
        else 28)
    else if nat_eq month 4 || nat_eq month 6 || nat_eq month 9 || nat_eq month 11
    then 30
    else 31

unfoldable pub check_instant : List ℕ → Fallible (Unit {0})
check_instant cs = do
  year ← read_digits 4 0 cs
  a ← read_mark b'-' year.1
  month ← read_digits 2 0 a
  b ← read_mark b'-' month.1
  day ← read_digits 2 0 b
  c ← read_mark b'T' day.1
  hour ← read_digits 2 0 c
  d ← read_mark b':' hour.1
  minute ← read_digits 2 0 d
  e ← read_mark b':' minute.1
  second ← read_digits 2 0 e
  ensure (is_zone second.1) "instant"
  ensure (leb 1 month.0 && leb month.0 12) "instant"
  ensure (leb 1 day.0 && leb day.0 (days_in_month year.0 month.0)) "instant"
  ensure (leb hour.0 23 && leb minute.0 59 && leb second.0 59) "instant"

unfoldable pub instant : Option Json → String → Fallible String
instant (some (Json.text s)) at = elim (check_instant (codes s)) [
  | ok passed ↦ ok s
  | threw why ↦ threw at
]
instant _ at = threw at

leap_day : instant (some (Json.text "2028-02-29T04:17:00.25Z")) "at" ≡ ok "2028-02-29T04:17:00.25Z"
unfolding instant check_instant read_digits read_mark is_zone days_in_month
leap_day = refl

no_day : instant (some (Json.text "2026-02-31T00:00:00Z")) "at" ≡ threw "at"
unfolding instant check_instant read_digits read_mark is_zone days_in_month
no_day = refl
