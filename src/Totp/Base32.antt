-- ===== src/Totp/Base32.antt =====
-- The base32 of RFC 4648: the five bits of each character, in groups of eight.
use Prim.Native.Nat.{◌^◌}
use Prim.Native.Char.{code}
use qare.Prelude.{
  ℕ, ◌+◌, ◌*◌, ◌/◌, ◌%◌, ◌<◌, List, [], ◌∷◌, ◌++◌, length, String, any_char, nat_eq, ◌||◌, ◌==◌,
  Option, none, some, subst, All, false, ◌≡◌, refl, arith, ap, ap₂,
}
use qare.Fallible.{ok, ◌>>=◌, >>=-eq-ok, ok_inj}
use qare.Totp.{push_bits, base32_index, known_index, indexes, without_padding, decode_base32}

abbrev five_bits : ℕ → List ℕ
five_bits i = (i / 16 % 2) ∷ (i / 8 % 2) ∷ (i / 4 % 2) ∷ (i / 2 % 2) ∷ (i % 2) ∷ []

abbrev pub bits_of : List ℕ → List ℕ
bits_of [] = []
bits_of (i ∷ is) = five_bits i ++ bits_of is

-- The bytes of the bits, eight at a time; what is left at the end is dropped.
abbrev pub octets : List ℕ → List ℕ
octets (a ∷ b ∷ c ∷ d ∷ e ∷ f ∷ g ∷ h ∷ bits) =
    (((((((a * 2 + b) * 2 + c) * 2 + d) * 2 + e) * 2 + f) * 2 + g) * 2 + h) ∷ octets bits
octets _ = []

abbrev number : ℕ → List ℕ → ℕ
number n [] = n
number n (b ∷ bs) = number (n * 2 + b) bs

abbrev AreBits : List ℕ → Type 0
AreBits bs = All (λ b. b < 2) bs

abbrev pub AreIndexes : List ℕ → Type 0
AreIndexes is = All (λ i. i < 32) is

-- The loop with bits that are pending: its value ends in them.
push_bits-pending :
    (p : List ℕ) (value : ℕ) (is : List ℕ)
    → AreBits p
    → length p < 8
    → value % 2 ^ length p ≡ number 0 p
    → AreIndexes is
    → push_bits (length p) value is ≡ octets (p ++ bits_of is)
unfolding push_bits
push_bits-pending [] value [] ab ln eq ix = refl
push_bits-pending [] value (i ∷ is) ab ln eq ix =
    push_bits-pending ((i / 16 % 2) ∷ (i / 8 % 2) ∷ (i / 4 % 2) ∷ (i / 2 % 2) ∷ (i % 2) ∷ [])
      (value * 32 % 0x100000000 + i) is (omega arith) (omega arith) (omega arith) ix.1
push_bits-pending (a ∷ []) value [] ab ln eq ix = refl
push_bits-pending (a ∷ []) value (i ∷ is) ab ln eq ix =
    push_bits-pending (a ∷ (i / 16 % 2) ∷ (i / 8 % 2) ∷ (i / 4 % 2) ∷ (i / 2 % 2) ∷ (i % 2) ∷ [])
      (value * 32 % 0x100000000 + i) is (omega arith) (omega arith) (omega arith) ix.1
push_bits-pending (a ∷ b ∷ []) value [] ab ln eq ix = refl
push_bits-pending (a ∷ b ∷ []) value (i ∷ is) ab ln eq ix =
    push_bits-pending
      (a ∷ b ∷ (i / 16 % 2) ∷ (i / 8 % 2) ∷ (i / 4 % 2) ∷ (i / 2 % 2) ∷ (i % 2) ∷ [])
      (value * 32 % 0x100000000 + i) is (omega arith) (omega arith) (omega arith) ix.1
push_bits-pending (a ∷ b ∷ c ∷ []) value [] ab ln eq ix = refl
push_bits-pending (a ∷ b ∷ c ∷ []) value (i ∷ is) ab ln eq ix =
    ap₂ (λ (x : ℕ) t. x ∷ t) (omega arith)
      (push_bits-pending [] (value * 32 % 0x100000000 + i) is (omega arith) (omega arith)
        (omega arith) ix.1)
push_bits-pending (a ∷ b ∷ c ∷ d ∷ []) value [] ab ln eq ix = refl
push_bits-pending (a ∷ b ∷ c ∷ d ∷ []) value (i ∷ is) ab ln eq ix =
    ap₂ (λ (x : ℕ) t. x ∷ t) (omega arith)
      (push_bits-pending ((i % 2) ∷ []) (value * 32 % 0x100000000 + i) is (omega arith)
        (omega arith) (omega arith) ix.1)
push_bits-pending (a ∷ b ∷ c ∷ d ∷ e ∷ []) value [] ab ln eq ix = refl
push_bits-pending (a ∷ b ∷ c ∷ d ∷ e ∷ []) value (i ∷ is) ab ln eq ix =
    ap₂ (λ (x : ℕ) t. x ∷ t) (omega arith)
      (push_bits-pending ((i / 2 % 2) ∷ (i % 2) ∷ []) (value * 32 % 0x100000000 + i) is
        (omega arith) (omega arith) (omega arith) ix.1)
push_bits-pending (a ∷ b ∷ c ∷ d ∷ e ∷ f ∷ []) value [] ab ln eq ix = refl
push_bits-pending (a ∷ b ∷ c ∷ d ∷ e ∷ f ∷ []) value (i ∷ is) ab ln eq ix =
    ap₂ (λ (x : ℕ) t. x ∷ t) (omega arith)
      (push_bits-pending ((i / 4 % 2) ∷ (i / 2 % 2) ∷ (i % 2) ∷ []) (value * 32 % 0x100000000 + i)
        is (omega arith) (omega arith) (omega arith) ix.1)
push_bits-pending (a ∷ b ∷ c ∷ d ∷ e ∷ f ∷ g ∷ []) value [] ab ln eq ix = refl
push_bits-pending (a ∷ b ∷ c ∷ d ∷ e ∷ f ∷ g ∷ []) value (i ∷ is) ab ln eq ix =
    ap₂ (λ (x : ℕ) t. x ∷ t) (omega arith)
      (push_bits-pending ((i / 8 % 2) ∷ (i / 4 % 2) ∷ (i / 2 % 2) ∷ (i % 2) ∷ [])
        (value * 32 % 0x100000000 + i) is (omega arith) (omega arith) (omega arith) ix.1)
push_bits-pending (a ∷ b ∷ c ∷ d ∷ e ∷ f ∷ g ∷ h ∷ p) value is ab ln eq ix = absurd (omega arith)

base32_index-lt :
    (c i : ℕ) → base32_index c ≡ some i → (i < 32) × ((nat_eq c 48 || nat_eq c 49) ≡ false)
base32_index-lt c i h = ground arith

known_index-ok : (o : Option ℕ) (i : ℕ) → known_index o ≡ ok i → o ≡ some i
unfolding known_index
known_index-ok none i h = cc
known_index-ok (some j) i h = ap some (ok_inj h)

indexes-AreIndexes :
    (s : String) (is : List ℕ)
    → indexes s ≡ ok is
    → AreIndexes is × (any_char (λ c. nat_eq c 48 || nat_eq c 49) s ≡ false)
unfolding indexes
indexes-AreIndexes String.[] is h = (subst AreIndexes (ok_inj h) tt, refl)
indexes-AreIndexes (String.◌∷◌ c s) is h =
    let k =
      >>=-eq-ok (known_index (base32_index (code c))) (λ i. indexes s >>= λ later. ok (i ∷ later))
        h in
    let a = >>=-eq-ok (indexes s) (λ later. ok (k.0 ∷ later)) k.2 in
    let r = indexes-AreIndexes s a.0 a.1 in
    let b = base32_index-lt (code c) k.0 (known_index-ok (base32_index (code c)) k.0 k.1) in
    (subst AreIndexes (ok_inj a.2) (b.0, r.0), ground (arith, b.1, r.1))

-- A secret that is not empty and whose characters base32 has, after the padding, the spaces and the
-- dashes are taken out, decodes to the octets of the five bits of each character, with the bits after
-- the last whole octet left out: the shift of 32 bits loses none of them.
pub decode_base32-octets :
    (to_upper : String → String) (text : String) (is : List ℕ)
    → without_padding (to_upper text) == "" ≡ false
    → indexes (without_padding (to_upper text)) ≡ ok is
    → decode_base32 to_upper text ≡ ok (octets (bits_of is))
unfolding decode_base32
decode_base32-octets to_upper text is e h =
    let r = indexes-AreIndexes (without_padding (to_upper text)) is h in
    rw e (rw r.1 (rw h (ap ok (push_bits-pending [] 0 is tt (omega arith) (omega arith) r.0))))
