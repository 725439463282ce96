-- ===== src/CellWire/Tls.antt =====
-- `tlsServerName` of packages/core/src/cell-wire.ts. The cursor `at` is what is left of the record, and
-- `budget` what is left of the extensions.
pub mod Stable
use qare.Prelude.{
  ℕ, zero, suc, ◌+◌, ◌-◌, Bool, true, false, ◌&&◌, ◌||◌, not, Option, none, some, List, [], ◌∷◌,
  length, take, drop, leb, ltb, nat_eq, is_empty, if◌then◌else◌,
}
use qare.Png.Bytes.{nth}
use qare.CellWire.{Peeked, more, read, read_nothing, named, u16_at}

-- `take(count)`: the bytes, and what is left.
unfoldable pub take_bytes : ℕ → List ℕ → Option (List ℕ × List ℕ)
take_bytes count rest =
    if leb count (length rest) then some (take count rest, drop count rest) else none

abbrev and_then {ℓ κ} : {A : Type ℓ} {B : Type κ} → Option A → (A → Option B) → Option B
and_then none f = none
and_then (some a) f = f a

-- What is left after a field of a size that one byte gives, or two.
unfoldable pub skip_sized_1 : List ℕ → Option (List ℕ)
skip_sized_1 rest =
    and_then (take_bytes 1 rest)
      λ size. and_then (take_bytes (nth size.0 0) size.1) λ skipped. some skipped.1

unfoldable pub skip_sized_2 : List ℕ → Option (List ℕ)
skip_sized_2 rest =
    and_then (take_bytes 2 rest)
      λ size. and_then (take_bytes (u16_at 0 size.0) size.1) λ skipped. some skipped.1

unfoldable pub server_name_of : List ℕ → Peeked
server_name_of body =
    if ltb (length body) 5 || not (nat_eq (nth body 2) 0)
    then read_nothing
    else if ltb (length body) (5 + u16_at 3 body)
    then read_nothing
    else named (take (u16_at 3 body) (drop 5 body))

-- How one round of the loop over the extensions ends.
pub data ExtensionRound : Type 0 where
  ended : Peeked → ExtensionRound
  next : ℕ → List ℕ → ExtensionRound

unfoldable pub extension_body : ℕ → List ℕ → Option (List ℕ × List ℕ) → ExtensionRound
extension_body budget header none = ended read_nothing
extension_body budget header (some (body, rest)) =
    if nat_eq (u16_at 0 header) 0
    then ended (server_name_of body)
    else next (budget - (4 + u16_at 2 header)) rest

unfoldable pub extension_round : ℕ → List ℕ → ExtensionRound
extension_round budget rest =
    if leb 4 budget
    then extension_body budget (take 4 rest) (take_bytes (u16_at 2 (take 4 rest)) (drop 4 rest))
    else ended read_nothing

-- A round leaves fewer of the budget: as many rounds as that, and one more, are enough.
unfoldable pub extensions : ℕ → ℕ → List ℕ → Peeked
extensions zero budget rest = read_nothing
extensions (suc n) budget rest = elim (extension_round budget rest) [
  | ended p ↦ p
  | next left after ↦ extensions n left after
]

-- What stands before the extensions is skipped, and their size is read.
unfoldable pub hello_extensions : List ℕ → Option (ℕ × List ℕ)
hello_extensions record_bytes = and_then (take_bytes 4 record_bytes) λ head.
    and_then (if nat_eq (nth head.0 0) 1 then some head.1 else none) λ hello.
      and_then (take_bytes 34 hello) λ random. and_then (skip_sized_1 random.1) λ session.
        and_then (skip_sized_2 session) λ suites. and_then (skip_sized_1 suites) λ methods.
          and_then (take_bytes 2 methods) λ size. some (
            if leb (length size.1) (u16_at 0 size.0) then length size.1 else u16_at 0 size.0,
            size.1,
          )

unfoldable pub server_name_in : Option (ℕ × List ℕ) → Peeked
server_name_in none = read_nothing
server_name_in (some (budget, rest)) = extensions (suc budget) budget rest

unfoldable pub tls_server_name : List ℕ → Peeked
tls_server_name bytes =
    if ltb (length bytes) 5
    then (if is_empty bytes || nat_eq (nth bytes 0) 0x16 then more else read_nothing)
    else if not (nat_eq (nth bytes 0) 0x16)
    then read_nothing
    else if ltb (5 + 16384 + 256) (5 + u16_at 3 bytes)
    then read_nothing
    else if ltb (length bytes) (5 + u16_at 3 bytes)
    then more
    else server_name_in (hello_extensions (take (u16_at 3 bytes) (drop 5 bytes)))
