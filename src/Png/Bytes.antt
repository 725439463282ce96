-- ===== src/Png/Bytes.antt =====
-- Buffers as lists of bytes: what packages/core/src/png.ts calls of node's `Buffer`.
use qare.Prelude.{
  ℕ, zero, suc, ◌+◌, ◌*◌, ◌-◌, ◌/◌, ◌%◌, ◌<◌, ◌≤◌, Bool, true, false, ◌&&◌, List, [], ◌∷◌, ◌++◌,
  length, take, All, drop, ltb, nat_eq, ◌≡◌, refl, sym, ◌∙◌, ap, arith,
}
use qare.Fallible.{Fallible, ok, ◌>>◌, ensure}

-- A byte of a buffer; the code reads none that is not there.
abbrev pub nth : List ℕ → ℕ → ℕ
nth [] i = 0
nth (b ∷ bs) zero = b
nth (b ∷ bs) (suc i) = nth bs i

-- `a.equals(b)`.
abbrev pub same_bytes : List ℕ → List ℕ → Bool
same_bytes [] [] = true
same_bytes (a ∷ as_) (b ∷ bs) = nat_eq a b && same_bytes as_ bs
same_bytes _ _ = false

-- `readUInt32BE` at the start of a buffer.
unfoldable pub read_u32 : List ℕ → ℕ
read_u32 bs = ((nth bs 0 * 256 + nth bs 1) * 256 + nth bs 2) * 256 + nth bs 3

abbrev pub u32 : ℕ → List ℕ
u32 n = (n / 0x1000000 % 256) ∷ (n / 0x10000 % 256) ∷ (n / 256 % 256) ∷ (n % 256) ∷ []

-- `writeUInt32BE`, which throws for a number of more than 32 bits.
unfoldable pub write_u32 : ℕ → Fallible (List ℕ)
write_u32 n = do ensure (ltb n 0x100000000) "ERR_OUT_OF_RANGE"; ok (u32 n)

-- Zero bytes, as `Buffer.alloc` leaves them.
abbrev pub zeros : ℕ → List ℕ
zeros zero = []
zeros (suc n) = 0 ∷ zeros n

-- The first bytes of a buffer of a length that is at least that.
abbrev pub padded : ℕ → List ℕ → List ℕ
padded zero bs = []
padded (suc n) [] = 0 ∷ padded n []
padded (suc n) (b ∷ bs) = b ∷ padded n bs

pub read_u32-u32 : (n : ℕ) (rest : List ℕ) → n < 0x100000000 → read_u32 (u32 n ++ rest) ≡ n
unfolding read_u32
read_u32-u32 n rest h = omega arith

pub write_u32-ok : (n : ℕ) → n < 0x100000000 → write_u32 n ≡ ok (u32 n)
unfolding write_u32
write_u32-ok n h = ground arith

pub same_bytes_refl : (bs : List ℕ) → same_bytes bs bs ≡ true
same_bytes_refl [] = refl
same_bytes_refl (b ∷ bs) = ground (arith, same_bytes_refl bs)

pub same_bytes-eq : (as_ bs : List ℕ) → same_bytes as_ bs ≡ true → as_ ≡ bs
same_bytes-eq [] [] h = refl
same_bytes-eq [] (b ∷ bs) h = absurd (ground arith)
same_bytes-eq (a ∷ as_) [] h = absurd (ground arith)
same_bytes-eq (a ∷ as_) (b ∷ bs) h = ground (arith, same_bytes-eq as_ bs)

pub take-append : (xs ys : List ℕ) → take (length xs) (xs ++ ys) ≡ xs
take-append [] ys = refl
take-append (x ∷ xs) ys = ap (λ t. x ∷ t) (take-append xs ys)

pub drop-append : (xs ys : List ℕ) → drop (length xs) (xs ++ ys) ≡ ys
drop-append [] ys = refl
drop-append (x ∷ xs) ys = drop-append xs ys

drop_nil : (n : ℕ) → drop {A = ℕ} n [] ≡ []
drop_nil zero = refl
drop_nil (suc n) = refl

pub drop-drop : (m n : ℕ) (xs : List ℕ) → drop n (drop m xs) ≡ drop (m + n) xs
drop-drop zero n xs = ap (λ k. drop k xs) (omega arith)
drop-drop (suc m) n [] = drop_nil n ∙ sym (drop_nil (suc m + n))
drop-drop (suc m) n (x ∷ xs) =
    let e : suc (m + n) ≡ suc m + n = omega arith in drop-drop m n xs ∙ ap (λ k. drop k (x ∷ xs)) e

pub length-take : (n : ℕ) (xs : List ℕ) → n ≤ length xs → length (take n xs) ≡ n
length-take zero xs h = refl
length-take (suc n) [] h = absurd (omega arith)
length-take (suc n) (x ∷ xs) h = omega (arith, length-take n xs (omega arith))

pub length-drop : (n : ℕ) (xs : List ℕ) → length (drop n xs) ≡ length xs - n
length-drop zero xs = omega arith
length-drop (suc n) [] = omega arith
length-drop (suc n) (x ∷ xs) = omega (arith, length-drop n xs)

pub nth-append : (xs ys : List ℕ) (i k : ℕ) → k ≡ length xs + i → nth (xs ++ ys) k ≡ nth ys i
nth-append [] ys i k e = ap (nth ys) (omega arith)
nth-append (x ∷ xs) ys i zero e = absurd (omega arith)
nth-append (x ∷ xs) ys i (suc k) e = nth-append xs ys i k (omega arith)

pub padded-take : (n : ℕ) (bs : List ℕ) → n ≤ length bs → padded n bs ≡ take n bs
padded-take zero bs h = refl
padded-take (suc n) [] h = absurd (omega arith)
padded-take (suc n) (b ∷ bs) h = ap (λ t. b ∷ t) (padded-take n bs (omega arith))

abbrev pub AreBytes : List ℕ → Type 0
AreBytes bs = All (λ b. b < 256) bs

pub nth-lt : (bs : List ℕ) (i : ℕ) → AreBytes bs → nth bs i < 256
nth-lt [] i h = omega arith
nth-lt (b ∷ bs) zero h = h.0
nth-lt (b ∷ bs) (suc i) h = nth-lt bs i h.1

pub AreBytes-take : (n : ℕ) (bs : List ℕ) → AreBytes bs → AreBytes (take n bs)
AreBytes-take zero bs h = tt
AreBytes-take (suc n) [] h = tt
AreBytes-take (suc n) (b ∷ bs) (h, k) = (h, AreBytes-take n bs k)

pub AreBytes-drop : (n : ℕ) (bs : List ℕ) → AreBytes bs → AreBytes (drop n bs)
AreBytes-drop zero bs h = h
AreBytes-drop (suc n) [] h = tt
AreBytes-drop (suc n) (b ∷ bs) (h, k) = AreBytes-drop n bs k

pub suc_mul : (n k : ℕ) → (n + 1) * k ≡ n * k + k
suc_mul n k = grind arith
