-- ===== src/CellWire.antt =====
-- The wire formats that a cell reads: packages/core/src/cell-wire.ts. A message is the list of its
-- bytes, and so is a name that `latin1` reads from it.
pub mod Tls
pub mod Http
pub mod Dns
use qare.Prelude.{
  ℕ, zero, suc, ◌+◌, ◌-◌, ◌*◌, Bool, true, false, ◌&&◌, ◌||◌, not, Option, none, some, List, [],
  ◌∷◌, length, map, take, drop, leb, nat_eq, is_empty, if◌then◌else◌,
}
use qare.Png.Bytes.{nth}

-- `toLowerCase` of a byte that a name may hold; the bytes above 127 are no part of a name, in any case.
abbrev lower_byte : ℕ → ℕ
lower_byte c = if leb 65 c && leb c 90 then c + 32 else c

-- `replace(/\.$/, '')`.
abbrev without_dot : List ℕ → List ℕ
without_dot [] = []
without_dot (c ∷ cs) =
    let rest = without_dot cs in if nat_eq c 46 && is_empty cs then [] else c ∷ rest

-- `[a-z0-9_]`.
abbrev is_word : ℕ → Bool
is_word c = (leb 97 c && leb c 122) || (leb 48 c && leb c 57) || nat_eq c 95

-- `/^[a-z0-9_]([a-z0-9_-]*[a-z0-9_])?(\.[a-z0-9_]([a-z0-9_-]*[a-z0-9_])?)*$/`: no label is empty,
-- begins or ends with a dash. `may_end` says whether the last byte may end a label, `is_start` whether
-- a label begins.
abbrev is_labels : Bool → Bool → List ℕ → Bool
is_labels may_end is_start [] = may_end
is_labels may_end is_start (c ∷ cs) =
    if is_word c
    then is_labels true false cs
    else if nat_eq c 45 && not is_start
    then is_labels false false cs
    else nat_eq c 46 && may_end && is_labels false true cs

unfoldable pub host_name : List ℕ → Option (List ℕ)
host_name raw =
    let name = without_dot (map lower_byte raw) in
    if not (is_empty name) && leb (length name) 253 && is_labels false true name
    then some name
    else none

-- What a peek at the first bytes of a connection learned: wait for more, or it has been read, with a
-- name or without.
pub data Peeked : Type 0 where
  more : Peeked
  read : Option (List ℕ) → Peeked

abbrev pub read_nothing : Peeked
read_nothing = read none

unfoldable pub named : List ℕ → Peeked
named raw = read (host_name raw)

-- `readUInt16BE` at an offset.
abbrev pub u16_at : ℕ → List ℕ → ℕ
u16_at at bytes = nth bytes at * 256 + nth bytes (at + 1)
