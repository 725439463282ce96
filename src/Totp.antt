-- ===== src/Totp.antt =====
-- Time-based codes: packages/core/src/totp.ts. `toUpperCase` and the HMAC are parameters.
pub mod Base32
pub mod Window
use Prim.Native.Char.{code}
use Prim.Native.String
use Prim.Native.Nat.{◌^◌}
use qare.Prelude.{
  ℕ, zero, suc, ◌+◌, ◌-◌, ◌*◌, ◌/◌, ◌%◌, String, Bool, true, false, ◌&&◌, ◌||◌, not, Option, none,
  some, List, [], ◌∷◌, ◌++◌, length, leb, nat_eq, is_space, any_char, decimal, template,
  if◌then◌else◌, ◌==◌, ◌≡◌, refl, codes,
}
use qare.Fallible.{Fallible, ok, threw, ◌>>=◌, ◌>>◌, ensure}
use qare.Png.Bytes.{nth, write_u32}

-- `replace(/[=\s-]/g, '')`.
abbrev pub without_padding : String → String
without_padding String.[] = ""
without_padding (String.◌∷◌ c s) =
    let rest = without_padding s in
    if nat_eq (code c) 61 || is_space (code c) || nat_eq (code c) 45
    then rest
    else String.◌∷◌ c rest

-- `BASE32.indexOf(char)`, `none` for -1.
abbrev pub base32_index : ℕ → Option ℕ
base32_index c =
    if leb 65 c && leb c 90
    then some (c - 65)
    else if leb 50 c && leb c 55
    then some (c - 24)
    else none

unfoldable pub known_index : Option ℕ → Fallible ℕ
known_index none = threw "the base32 secret carries a character outside base32"
known_index (some i) = ok i

-- The index of each character.
unfoldable pub indexes : String → Fallible (List ℕ)
indexes String.[] = ok []
indexes (String.◌∷◌ c s) =
    let rest = indexes s in
    known_index (base32_index (code c)) >>= λ i. rest >>= λ later. ok (i ∷ later)

-- The loop over the indexes. `value << 5` keeps 32 bits, of which the low five are zero: `| index`
-- adds the index.
unfoldable pub push_bits : ℕ → ℕ → List ℕ → List ℕ
push_bits bits value [] = []
push_bits bits value (index ∷ rest) =
    let shifted = value * 32 % 0x100000000 + index in
    let pushed = (shifted / 2 ^ (bits + 5 - 8) % 256) ∷ push_bits (bits + 5 - 8) shifted rest in
    let kept = push_bits (bits + 5) shifted rest in if leb 8 (bits + 5) then pushed else kept

module _ (to_upper : String → String) where
  unfoldable pub decode_base32 : String → Fallible (List ℕ)
  decode_base32 text = do
    let clean = without_padding (to_upper text)
    ensure (not (clean == "")) "the base32 secret is empty"
    ensure (not (any_char (λ c. nat_eq c 48 || nat_eq c 49) clean))
        "the base32 secret carries a digit base32 does not use (0, 1)"
    is ← indexes clean
    ok (push_bits 0 0 is)

unfoldable pub totp_window : ℕ → ℕ → ℕ
totp_window period at = at / (period * 1000)

unfoldable pub window_remaining : ℕ → ℕ → ℕ
window_remaining period at = period * 1000 - at % (period * 1000)

-- The four bytes that the last one points at, without the sign.
unfoldable pub truncated : List ℕ → ℕ
truncated digest =
    let offset = nth digest (length digest - 1) % 16 in
    ((nth digest offset % 128 * 256 + nth digest (offset + 1)) * 256 + nth digest (offset + 2))
      * 256
    + nth digest (offset + 3)

-- `padStart(digits, '0')`.
abbrev pad_start : ℕ → String → String
pad_start zero s = s
pad_start (suc n) s = pad_start n (String.◌++◌ "0" s)

unfoldable pub padded_code : ℕ → String → String
padded_code digits s = pad_start (digits - length (codes s)) s

-- `hmac` is `createHmac(algorithm, key).update(counter).digest()`.
unfoldable pub totp_code :
    (String → String) → (List ℕ → List ℕ → List ℕ) → String → ℕ → ℕ → ℕ → Fallible String
totp_code to_upper hmac secret digits period at = do
  key ← decode_base32 to_upper secret
  let window = totp_window period at
  high ← write_u32 (window / 0x100000000)
  low ← write_u32 (window % 0x100000000)
  ok (padded_code digits (decimal (truncated (hmac key (high ++ low)) % 10 ^ digits)))
