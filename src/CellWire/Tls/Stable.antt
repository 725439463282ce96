-- ===== src/CellWire/Tls/Stable.antt =====
-- What `tlsServerName` reads when more bytes arrive, and the rounds that its loop takes.
use qare.Prelude.{
  ℕ, zero, suc, ◌+◌, ◌*◌, ◌<◌, ◌≤◌, Option, none, some, List, [], ◌∷◌, ◌++◌, length, take, drop,
  ◌≡◌, refl, ap, arith, length-append,
}
use qare.CellWire.{read, u16_at}
use qare.CellWire.Tls.{
  ExtensionRound, ended, next, extension_body, extension_round, extensions, take_bytes,
  tls_server_name,
}

body-next :
    (budget left : ℕ) (header after : List ℕ) (o : Option (List ℕ × List ℕ))
    → 4 ≤ budget
    → extension_body budget header o ≡ next left after
    → left < budget
unfolding extension_body
body-next budget left header after none h e = absurd (ground arith)
body-next budget left header after (some (body, rest)) h e = ground arith

round-next :
    (budget left : ℕ) (rest after : List ℕ)
    → extension_round budget rest ≡ next left after
    → left < budget
unfolding extension_round
round-next budget left rest after e = ground (
  arith,
  body-next budget left (take 4 rest) after (take_bytes (u16_at 2 (take 4 rest)) (drop 4 rest)),
)

same_round :
    (n k : ℕ) (r : ExtensionRound)
    → ((left : ℕ) (after : List ℕ)
        → r ≡ next left after
        → extensions n left after ≡ extensions k left after)
    → elim r [ ended p ↦ p | next left after ↦ extensions n left after ]
      ≡ elim r [ ended p ↦ p | next left after ↦ extensions k left after ]
same_round n k (ended p) f = refl
same_round n k (next left after) f = f left after refl

-- Rounds above the bytes of the extensions change nothing.
pub extensions_enough :
    (n k budget : ℕ) (rest : List ℕ)
    → budget < n
    → budget < k
    → extensions n budget rest ≡ extensions k budget rest
unfolding extensions
extensions_enough zero k budget rest h l = absurd (omega arith)
extensions_enough (suc n) zero budget rest h l = absurd (omega arith)
extensions_enough (suc n) (suc k) budget rest h l =
    same_round n k (extension_round budget rest) (λ left after e.
      extensions_enough n k left after (omega (arith, round-next budget left rest after e))
        (omega (arith, round-next budget left rest after e)))

take-prefix : (n : ℕ) (xs ys : List ℕ) → n ≤ length xs → take n (xs ++ ys) ≡ take n xs
take-prefix zero xs ys h = refl
take-prefix (suc n) [] ys h = absurd (omega arith)
take-prefix (suc n) (x ∷ xs) ys h = ap (λ t. x ∷ t) (take-prefix n xs ys (omega arith))

-- A name, or that there is none, that is read from the first bytes of a connection is what is read from
-- them with any bytes that follow.
pub tls_server_name-append :
    (bytes later : List ℕ) (name : Option (List ℕ))
    → tls_server_name bytes ≡ read name
    → tls_server_name (bytes ++ later) ≡ read name
unfolding tls_server_name
tls_server_name-append [] later name e = absurd (ground arith)
tls_server_name-append (a ∷ []) later name e = ground (arith, e)
tls_server_name-append (a ∷ b ∷ []) later name e = ground (arith, e)
tls_server_name-append (a ∷ b ∷ c ∷ []) later name e = ground (arith, e)
tls_server_name-append (a ∷ b ∷ c ∷ d ∷ []) later name e = ground (arith, e)
tls_server_name-append (a ∷ b ∷ c ∷ d ∷ f ∷ bytes) later name e =
    ground (arith, e, take-prefix (d * 256 + f) bytes later, length-append bytes later)
