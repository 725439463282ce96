-- ===== src/CellWire/Http/Stable.antt =====
-- What `httpHost` reads when more bytes arrive.
use qare.Prelude.{
  ℕ, zero, suc, ◌-◌, ◌≤◌, Bool, true, false, ◌&&◌, Option, none, some, List, [], ◌∷◌, ◌++◌, length,
  take, leb, nat_eq, if◌then◌else◌, ◌≡◌, refl, sym, ap, ◌∙◌, arith, length-append, Bool-cases, inl,
  inr,
}
use qare.CellWire.{read}
use qare.CellWire.Http.{
  starts_with, blank_line, put_before, head_of, http_host_from, http_host_within,
}

nothing : (head : List ℕ) → head_of [] ≡ some head → ⊥
unfolding head_of
nothing head h = cc

starts_with-long :
    (p xs ys : List ℕ) → length p ≤ length xs → starts_with p (xs ++ ys) ≡ starts_with p xs
starts_with-long [] xs ys h = refl
starts_with-long (c ∷ p) [] ys h = absurd (omega arith)
starts_with-long (c ∷ p) (x ∷ xs) ys h =
    ap (λ b. nat_eq c x && b) (starts_with-long p xs ys (omega arith))

starts_with-length : (p xs : List ℕ) → starts_with p xs ≡ true → length p ≤ length xs
starts_with-length [] xs h = omega arith
starts_with-length (c ∷ p) [] h = cc
starts_with-length (c ∷ p) (x ∷ xs) h = ground (arith, h, starts_with-length p xs)

put_before-some :
    (c : ℕ) (o : Option (List ℕ)) (head : List ℕ)
    → put_before c o ≡ some head
    → (rest : List ℕ) × (o ≡ some rest) × (c ∷ rest ≡ head)
put_before-some c none head h = absurd (ground arith)
put_before-some c (some rest) head h = (rest, refl, ground (arith, h))

head_of-step :
    (x : ℕ) (xs : List ℕ)
    → head_of (x ∷ xs)
      ≡ (if starts_with blank_line (x ∷ xs) then some [] else put_before x (head_of xs))
unfolding head_of
head_of-step x xs = refl

length-head_of : (xs head : List ℕ) → head_of xs ≡ some head → 4 ≤ length xs
length-head_of [] head h = absurd (nothing head h)
length-head_of (x ∷ xs) head h = elim (Bool-cases (starts_with blank_line (x ∷ xs))) [
  | inl y ↦ starts_with-length blank_line (x ∷ xs) y
  | inr n ↦
      let e : put_before x (head_of xs) ≡ some head =
        sym (ap (λ b. if b then some [] else put_before x (head_of xs)) n)
        ∙ sym (head_of-step x xs)
        ∙ h in
      let r = put_before-some x (head_of xs) head e in omega (arith, length-head_of xs r.0 r.1)
]

head_of-append : (xs ys head : List ℕ) → head_of xs ≡ some head → head_of (xs ++ ys) ≡ some head
head_of-append [] ys head h = absurd (nothing head h)
head_of-append (x ∷ xs) ys head h =
    let long : 4 ≤ length (x ∷ xs) = length-head_of (x ∷ xs) head h in
    let s = starts_with-long blank_line (x ∷ xs) ys long in
    let back = λ (o : Option (List ℕ)) (b : Bool). if b then some [] else put_before x o in
    let whole : head_of ((x ∷ xs) ++ ys)
        ≡ back (head_of (xs ++ ys)) (starts_with blank_line (x ∷ xs)) =
      head_of-step x (xs ++ ys) ∙ ap (back (head_of (xs ++ ys))) s in
    elim (Bool-cases (starts_with blank_line (x ∷ xs))) [
      | inl y ↦
          whole
          ∙ ap (back (head_of (xs ++ ys))) y
          ∙ sym (ap (back (head_of xs)) y)
          ∙ sym (head_of-step x xs)
          ∙ h
      | inr n ↦
          let e : put_before x (head_of xs) ≡ some head =
            sym (ap (back (head_of xs)) n) ∙ sym (head_of-step x xs) ∙ h in
          let r = put_before-some x (head_of xs) head e in
          whole
          ∙ ap (back (head_of (xs ++ ys))) n
          ∙ ap (put_before x) (head_of-append xs ys r.0 r.1)
          ∙ ap some r.2
    ]

take_all : (n : ℕ) (xs : List ℕ) → length xs ≤ n → take n xs ≡ xs
take_all zero [] h = refl
take_all zero (x ∷ xs) h = absurd (omega arith)
take_all (suc n) [] h = refl
take_all (suc n) (x ∷ xs) h = ap (λ t. x ∷ t) (take_all n xs (omega arith))

take_short :
    (n : ℕ) (xs ys : List ℕ) → length xs ≤ n → take n (xs ++ ys) ≡ xs ++ take (n - length xs) ys
take_short n [] ys h = ap (λ k. take k ys) (omega arith)
take_short zero (x ∷ xs) ys h = absurd (omega arith)
take_short (suc n) (x ∷ xs) ys h =
    ap (λ t. x ∷ t) (take_short n xs ys (omega arith))
    ∙ ap (λ k. x ∷ (xs ++ take k ys)) (omega arith)

take_long : (n : ℕ) (xs ys : List ℕ) → n ≤ length xs → take n (xs ++ ys) ≡ take n xs
take_long zero xs ys h = refl
take_long (suc n) [] ys h = absurd (omega arith)
take_long (suc n) (x ∷ xs) ys h = ap (λ t. x ∷ t) (take_long n xs ys (omega arith))

from-read :
    (o : Option (List ℕ)) (name : Option (List ℕ))
    → http_host_from false o ≡ read name
    → (head : List ℕ) × (o ≡ some head)
unfolding http_host_from
from-read none name h = absurd (ground arith)
from-read (some head) name h = (head, refl)

head_same :
    (b c : Bool) (head : List ℕ) → http_host_from b (some head) ≡ http_host_from c (some head)
unfolding http_host_from
head_same b c head = refl

-- A host, or that there is none, that is read from the first bytes of a connection is what is read from
-- them with any bytes that follow, whatever the most bytes are that a head may take.
pub http_host-append :
    (limit : ℕ) (bytes later : List ℕ) (name : Option (List ℕ))
    → http_host_within limit bytes ≡ read name
    → http_host_within limit (bytes ++ later) ≡ read name
unfolding http_host_within
http_host-append limit bytes later name e = elim (Bool-cases (leb limit (length bytes))) [
  | inl y ↦
      let z : leb limit (length (bytes ++ later)) ≡ true =
        ground (arith, length-append bytes later) in
      let t = take_long limit bytes later (ground arith) in
      let f : http_host_from true (head_of (take limit bytes)) ≡ read name =
        ap (λ b. http_host_from b (head_of (take limit bytes))) (sym y) ∙ e in
      rw z (rw t f)
  | inr n ↦
      let f : http_host_from false (head_of (take limit bytes)) ≡ read name =
        ap (λ b. http_host_from b (head_of (take limit bytes))) (sym n) ∙ e in
      let (head, h) = from-read (head_of (take limit bytes)) name f in
      let k : head_of bytes ≡ some head =
        ap head_of (sym (take_all limit bytes (ground arith))) ∙ h in
      let l : head_of (take limit (bytes ++ later)) ≡ some head =
        ap head_of (take_short limit bytes later (ground arith))
        ∙ head_of-append bytes (take (limit - length bytes) later) head k in
      ap (http_host_from (leb limit (length (bytes ++ later)))) l
      ∙ head_same (leb limit (length (bytes ++ later))) false head
      ∙ ap (http_host_from false) (sym h)
      ∙ f
]
