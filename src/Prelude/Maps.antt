-- ===== src/Prelude/Maps.antt =====
-- `Map` and `Set` with string keys. A `Map` is its entries in insertion order, and a `set` on a key
-- that is there replaces the value where it stands; a `Set` is the list of its members.
use Prim.Native.String.{String}
use mathlib.Core.Path.{◌≡◌, refl}
use mathlib.Core.Bool.{Bool, true, false, ◌&&◌, ◌||◌}
use mathlib.Core.Option.{Option, none, some}
use mathlib.Core.Logic.{inl, inr}
use mathlib.Core.List.{List, [], ◌∷◌, ◌++◌}
use native.Mathlib.Omega.{arith}
use text.Mathlib.Text.{◌==◌}
use text.Mathlib.TextEquality.{eq_iff}
use qare.Prelude.Tests.{if◌then◌else◌, Bool-cases}
use qare.Prelude.Lists.{filter}

-- `set.has(k)` and `array.includes(k)`.
unfoldable pub has : List String → String → Bool
has [] k = false
has (x ∷ xs) k = x == k || has xs k

-- `[...new Set(xs)]`, with the members that `seen` holds left out.
distinct_from : List String → List String → List String
distinct_from seen [] = []
distinct_from seen (x ∷ xs) =
    let kept = x ∷ distinct_from (x ∷ seen) xs in
    let skipped = distinct_from seen xs in if has seen x then skipped else kept

unfoldable pub distinct : List String → List String
unfolding distinct_from has
distinct xs = distinct_from [] xs

module _ {ℓ} {Value : Type ℓ} where
  -- `map.set(key, value)`.
  unfoldable pub insert :
      (key : String) (value : Value) (entries : List (String × Value)) → List (String × Value)
  insert key value [] = (key, value) ∷ []
  insert key value ((name, old) ∷ entries) =
      let later = insert key value entries in
      if name == key then (name, value) ∷ entries else (name, old) ∷ later

  -- `map.get(key)`.
  unfoldable pub lookup : (key : String) (entries : List (String × Value)) → Option Value
  lookup key [] = none
  lookup key ((name, value) ∷ entries) =
      let later = lookup key entries in if name == key then some value else later

  -- A `get` after a `set`.
  pub lookup-insert :
      (set_key get_key : String) (value : Value) (entries : List (String × Value))
      → lookup get_key (insert set_key value entries)
        ≡ (if set_key == get_key then some value else lookup get_key entries)
  unfolding insert lookup
  lookup-insert set_key get_key value [] = refl
  lookup-insert set_key get_key value ((name, old) ∷ entries) =
      let rest = lookup-insert set_key get_key value entries in
      ground (arith, rest, eq_iff name get_key, eq_iff name set_key, eq_iff set_key get_key)

module _ {ℓ κ} {A : Type ℓ} {V : Type κ} where
  -- A loop that sets `key x` to `value x` for each element in turn.
  unfoldable pub index_from :
      (A → String) → (A → V) → List (String × V) → List A → List (String × V)
  index_from key value m [] = m
  index_from key value m (x ∷ xs) = index_from key value (insert (key x) (value x) m) xs

-- `new Map(xs.map((x) => [key(x), value(x)]))`: the last element with a key stands.
unfoldable pub index {ℓ κ} :
    {A : Type ℓ} {V : Type κ} → (A → String) → (A → V) → List A → List (String × V)
unfolding index_from
index key value xs = index_from key value [] xs

-- The last element of `xs` with the key `k`, and `d` where none has it.
abbrev pub last_with {ℓ κ} :
    {A : Type ℓ} {V : Type κ} → (A → String) → (A → V) → String → List A → Option V → Option V
last_with key value k [] d = d
last_with key value k (x ∷ xs) d =
    last_with key value k xs (if key x == k then some (value x) else d)

module _ {ℓ κ} {A : Type ℓ} {V : Type κ} (key : A → String) (value : A → V) where
  lookup-index_from :
      (k : String) (m : List (String × V)) (xs : List A)
      → lookup k (index_from key value m xs) ≡ last_with key value k xs (lookup k m)
  unfolding index_from
  lookup-index_from k m [] = refl
  lookup-index_from k m (x ∷ xs) =
      rw (lookup-index_from k (insert (key x) (value x) m) xs)
        (rw (lookup-insert (key x) k (value x) m))

  pub lookup-index :
      (k : String) (xs : List A) → lookup k (index key value xs) ≡ last_with key value k xs none
  unfolding index lookup
  lookup-index k xs = lookup-index_from k [] xs

pub has-append : (xs ys : List String) (k : String) → has (xs ++ ys) k ≡ (has xs k || has ys k)
unfolding has
has-append [] ys k = refl
has-append (x ∷ xs) ys k = ground (arith, has-append xs ys k)

distinct_from-filter :
    (p : String → Bool) (seen kept xs : List String)
    → ((k : String) → p k ≡ true → has kept k ≡ has seen k)
    → distinct_from kept (filter p xs) ≡ filter p (distinct_from seen xs)
unfolding distinct_from has
distinct_from-filter p seen kept [] h = refl
distinct_from-filter p seen kept (x ∷ xs) h =
    let a = distinct_from-filter p (x ∷ seen) (x ∷ kept) xs (λ k e. ground (arith, h k e)) in
    let b = distinct_from-filter p seen kept xs h in
    elim (Bool-cases (p x)) [
      | inl y ↦ ground (arith, y, a, b, h x y)
      | inr n ↦
          let c =
            distinct_from-filter p (x ∷ seen) kept xs
              (λ k e. ground (arith, h k e, eq_iff x k, n, e)) in
          ground (arith, n, b, c)
    ]

-- Of the members that pass a test each is kept once, in either order.
pub distinct-filter :
    (p : String → Bool) (xs : List String) → distinct (filter p xs) ≡ filter p (distinct xs)
unfolding distinct
distinct-filter p xs = distinct_from-filter p [] [] xs (λ k e. refl)

has-distinct_from :
    (seen xs : List String) (k : String)
    → (has seen k || has (distinct_from seen xs) k) ≡ (has seen k || has xs k)
unfolding distinct_from has
has-distinct_from seen [] k = refl
has-distinct_from seen (x ∷ xs) k =
    ground (arith, eq_iff x k, has-distinct_from (x ∷ seen) xs k, has-distinct_from seen xs k)

pub has-distinct : (xs : List String) (k : String) → has (distinct xs) k ≡ has xs k
unfolding distinct has
has-distinct xs k = has-distinct_from [] xs k

pub has-filter :
    (p : String → Bool) (xs : List String) (k : String) → has (filter p xs) k ≡ (p k && has xs k)
unfolding has
has-filter p [] k = ground arith
has-filter p (x ∷ xs) k = ground (arith, has-filter p xs k, eq_iff x k)
