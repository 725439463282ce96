-- ===== src/Prelude/Numerals.antt =====
-- Numbers in text: the decimal that a template literal prints, and `Number` of a text of digits.
use Prim.Native.Nat.{ℕ, zero, suc, ◌+◌, ◌-◌, ◌*◌, ◌/◌, ◌%◌, ◌^◌}
use Prim.Native.Char.{code}
use Prim.Native.String
use Prim.Native.String.{String}
use mathlib.Core.Path.{◌≡◌, refl}
use mathlib.Core.Bool.{Bool, false, ◌&&◌}
use mathlib.Core.Option.{Option, none, some}
use qare.Prelude.Tests.{ltb, leb, if◌then◌else◌}

digit : ℕ → String
digit zero = "0"
digit (suc zero) = "1"
digit (suc (suc zero)) = "2"
digit (suc (suc (suc zero))) = "3"
digit (suc (suc (suc (suc zero)))) = "4"
digit (suc (suc (suc (suc (suc zero))))) = "5"
digit (suc (suc (suc (suc (suc (suc zero)))))) = "6"
digit (suc (suc (suc (suc (suc (suc (suc zero))))))) = "7"
digit (suc (suc (suc (suc (suc (suc (suc (suc zero)))))))) = "8"
digit _ = "9"

-- A number below 10 ^ fuel needs no more digits than the fuel.
decimal_from : ℕ → ℕ → String
unfolding digit
decimal_from zero n = digit (n % 10)
decimal_from (suc fuel) n =
    let longer = String.◌++◌ (decimal_from fuel (n / 10)) (digit (n % 10)) in
    if ltb n 10 then digit n else longer

-- `${n}` for a whole number below 10 ^ 22, which JavaScript prints in full.
unfoldable pub decimal : ℕ → String
unfolding decimal_from
decimal n = decimal_from 22 n

abbrev is_digit : ℕ → Bool
is_digit c = leb 48 c && leb c 57

abbrev digits_from : ℕ → String → Option ℕ
digits_from n String.[] = some n
digits_from n (String.◌∷◌ c s) =
    if is_digit (code c) then digits_from (n * 10 + (code c - 48)) s else none

-- The largest number that a double holds with all below it: `Number.MAX_SAFE_INTEGER`.
abbrev pub max_safe_integer : ℕ
max_safe_integer = 2 ^ 53 - 1

-- The value of a text of digits, and `none` for any other text.
abbrev pub digits_value : String → Option ℕ
digits_value String.[] = none
digits_value (String.◌∷◌ c s) = digits_from 0 (String.◌∷◌ c s)

abbrev starts_positive : String → Bool
starts_positive String.[] = false
starts_positive (String.◌∷◌ c r) = leb 49 (code c) && leb (code c) 57

-- The value of a text that is `/^[1-9]\d*$/` and a safe integer.
unfoldable pub positive_integer : String → Option ℕ
positive_integer s = elim (digits_value s) [
  | none ↦ none
  | some n ↦ if starts_positive s && leb n max_safe_integer then some n else none
]

decimal_runs : decimal 16384 ≡ "16384"
unfolding decimal
decimal_runs = refl

positive_integer_runs : positive_integer "120" ≡ some 120
unfolding positive_integer
positive_integer_runs = refl
