-- ===== src/Fallible.antt =====
-- What code that may throw returns: a value, or what it threw. Of an error that names a field, such as
-- `ledger: entries[0].proof: …`, the field stands for the message.
use qare.Prelude.{String, Bool, true, false, ◌≡◌, refl, ap}

pub data Fallible {ℓ} (A : Type ℓ) : Type ℓ where
  ok : A → Fallible A
  threw : String → Fallible A

-- The rest of a body, which runs where the first part did not throw.
infixl 5 ◌>>=◌
abbrev pub ◌>>=◌ {ℓ κ} :
    {From : Type ℓ} {To : Type κ} → Fallible From → (From → Fallible To) → Fallible To
threw field >>= body = threw field
ok value >>= body = body value

infixl 5 ◌>>◌
abbrev pub ◌>>◌ {ℓ} : {To : Type ℓ} → Fallible (Unit {0}) → Fallible To → Fallible To
check >> body = check >>= λ passed. body

-- `if (!test) fail(field, …)`.
abbrev pub ensure : Bool → String → Fallible (Unit {0})
ensure false field = threw field
ensure true field = ok tt

pub ensure-eq-ok :
    (test : Bool) (field : String) {u : Unit {0}} → ensure test field ≡ ok u → test ≡ true
ensure-eq-ok false field h = cc
ensure-eq-ok true field h = refl

-- Both parts of a body that did not throw.
pub >>=-eq-ok {ℓ κ} :
    {From : Type ℓ} {To : Type κ} (first : Fallible From) (body : From → Fallible To) {result : To}
    → (first >>= body) ≡ ok result
    → (value : From) × (first ≡ ok value) × (body value ≡ ok result)
>>=-eq-ok (threw field) body h = cc
>>=-eq-ok (ok value) body h = (value, refl, h)

pub ok_inj {ℓ} : {A : Type ℓ} {a b : A} → Fallible.ok a ≡ ok b → a ≡ b
ok_inj {a} e = ap (λ m. elim m [ ok value ↦ value | threw field ↦ a ]) e
