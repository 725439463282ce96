-- ===== src/Prelude/Sort.antt =====
-- `xs.sort((a, b) => (key(a) < key(b) ? -1 : key(a) > key(b) ? 1 : 0))`: a stable sort by a string.
use Prim.Native.Nat.{ℕ, ◌+◌}
use Prim.Native.String.{String}
use mathlib.Core.Path.{◌≡◌, refl}
use mathlib.Core.Bool.{Bool, true, false, ◌&&◌, ◌||◌, not}
use mathlib.Core.Logic.{inl, inr}
use mathlib.Core.List.{List, [], ◌∷◌, ◌++◌}
use native.Mathlib.Omega.{arith}
use qare.Prelude.Tests.{if◌then◌else◌, Bool-cases}
use qare.Prelude.Lists.{any, all}
use qare.Prelude.Text.{text_lt, units, units_lt}

module _ {ℓ} {A : Type ℓ} where
  -- Before the first element whose key is not smaller.
  unfoldable pub put_sorted : (A → String) → A → List A → List A
  put_sorted key x [] = x ∷ []
  put_sorted key x (y ∷ ys) =
      if text_lt (key y) (key x) then y ∷ put_sorted key x ys else x ∷ y ∷ ys

  unfoldable pub sort_by : (A → String) → List A → List A
  sort_by key [] = []
  sort_by key (x ∷ xs) = put_sorted key x (sort_by key xs)

  any-put_sorted :
      (p : A → Bool) (key : A → String) (x : A) (ys : List A)
      → any p (put_sorted key x ys) ≡ (p x || any p ys)
  unfolding put_sorted
  any-put_sorted p key x [] = refl
  any-put_sorted p key x (y ∷ ys) = ground (arith, any-put_sorted p key x ys)

  pub any-sort_by :
      (p : A → Bool) (key : A → String) (xs : List A) → any p (sort_by key xs) ≡ any p xs
  unfolding sort_by
  any-sort_by p key [] = refl
  any-sort_by p key (x ∷ xs) =
      ground (arith, any-put_sorted p key x (sort_by key xs), any-sort_by p key xs)

  all-put_sorted :
      (p : A → Bool) (key : A → String) (x : A) (ys : List A)
      → all p (put_sorted key x ys) ≡ (p x && all p ys)
  unfolding put_sorted
  all-put_sorted p key x [] = refl
  all-put_sorted p key x (y ∷ ys) = ground (arith, all-put_sorted p key x ys)

  pub all-sort_by :
      (p : A → Bool) (key : A → String) (xs : List A) → all p (sort_by key xs) ≡ all p xs
  unfolding sort_by
  all-sort_by p key [] = refl
  all-sort_by p key (x ∷ xs) =
      ground (arith, all-put_sorted p key x (sort_by key xs), all-sort_by p key xs)

  -- The sum of a measure.
  abbrev pub total : (A → ℕ) → List A → ℕ
  total f [] = 0
  total f (x ∷ xs) = f x + total f xs

  pub total-append : (f : A → ℕ) (xs ys : List A) → total f (xs ++ ys) ≡ total f xs + total f ys
  total-append f [] ys = omega arith
  total-append f (x ∷ xs) ys = omega (arith, total-append f xs ys)

  total-put_sorted :
      (f : A → ℕ) (key : A → String) (x : A) (ys : List A)
      → total f (put_sorted key x ys) ≡ f x + total f ys
  unfolding put_sorted
  total-put_sorted f key x [] = refl
  total-put_sorted f key x (y ∷ ys) = ground (arith, total-put_sorted f key x ys)

  pub total-sort_by :
      (f : A → ℕ) (key : A → String) (xs : List A) → total f (sort_by key xs) ≡ total f xs
  unfolding sort_by
  total-sort_by f key [] = refl
  total-sort_by f key (x ∷ xs) =
      omega (arith, total-put_sorted f key x (sort_by key xs), total-sort_by f key xs)

abbrev pub comes_first : String → List String → Bool
comes_first x [] = true
comes_first x (y ∷ ys) = not (text_lt y x)

-- No member is smaller than the one before it.
abbrev pub are_in_order : List String → Bool
are_in_order [] = true
are_in_order (x ∷ xs) = comes_first x xs && are_in_order xs

units_lt-asym : (xs ys : List ℕ) → units_lt xs ys ≡ true → units_lt ys xs ≡ false
units_lt-asym [] [] h = refl
units_lt-asym [] (y ∷ ys) h = refl
units_lt-asym (x ∷ xs) [] h = absurd (ground (arith, h))
units_lt-asym (x ∷ xs) (y ∷ ys) h = ground (arith, h, units_lt-asym xs ys)

first-put_sorted :
    (y x : String) (ys : List String)
    → comes_first y ys ≡ true
    → text_lt x y ≡ false
    → comes_first y (put_sorted (λ s. s) x ys) ≡ true
unfolding put_sorted
first-put_sorted y x [] h k = ground (arith, k)
first-put_sorted y x (z ∷ ys) h k = ground (arith, h, k)

in_order-put_sorted :
    (x : String) (ys : List String)
    → are_in_order ys ≡ true
    → are_in_order (put_sorted (λ s. s) x ys) ≡ true
unfolding put_sorted text_lt
in_order-put_sorted x [] h = refl
in_order-put_sorted x (y ∷ ys) h = elim (Bool-cases (text_lt y x)) [
  | inl l ↦
      let a : text_lt x y ≡ false = units_lt-asym (units y) (units x) l in
      ground (arith, h, l, first-put_sorted y x ys, in_order-put_sorted x ys, a)
  | inr n ↦ ground (arith, h, n)
]

pub in_order-sort_by : (xs : List String) → are_in_order (sort_by (λ s. s) xs) ≡ true
unfolding sort_by
in_order-sort_by [] = refl
in_order-sort_by (x ∷ xs) = in_order-put_sorted x (sort_by (λ s. s) xs) (in_order-sort_by xs)
